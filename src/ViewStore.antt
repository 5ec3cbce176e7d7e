-- ===== src/ViewStore.antt =====
-- web/src/stores/view.ts: the view of the open source. `set` of the store merges the given fields
-- into the state, so each action returns a state record; `stringify` is `JSON.stringify`.
pub mod Actions
pub mod Hash
pub mod Single
pub mod Search
pub mod Columns
use tableverse.Prelude.{
  ℕ, zero, suc, ◌+◌, ◌≡◌, Bool, true, false, List, [], ◌∷◌, ◌++◌, map, Option, none, some, Text,
  text_key, ◌≟◌, ite, if◌then◌else◌, length, ltb, leb, not,
}
use tableverse.ViewExpr.{
  Predicate, Predicates, ViewOp, SortKey, AggExpr, filter, sort, group_by, rename, limit, or,
  contains, nil, cons,
}
use tableverse.ViewHash.{compute_view_hash}
use tableverse.AddPredicate

pub record ColumnInfo : Type 0 where
  pub index : ℕ
  pub name : Text
  pub data_type : Text
  pub nullable : Bool

pub data Side : Type 0 where
  left right : Side

pub record ColumnView : Type 0 where
  pub name : Text
  pub visible : Bool
  pub pinned : Option Side
  pub display_index : ℕ

pub record ViewState (N : Type 0) : Type 0 where
  pub source_id : Option Text
  pub ops : List (ViewOp N)
  pub view_hash : Text
  pub virtual_row_count : Option ℕ
  pub virtual_schema : Option (List ColumnInfo)
  pub column_views : List ColumnView

pub record ViewExpr (N : Type 0) : Type 0 where
  pub source_id : Text
  pub ops : List (ViewOp N)

module _ {N : Type 0} where
  -- `ops.filter((_, i) => i !== index)`
  unfoldable pub remove_index : ℕ → List (ViewOp N) → List (ViewOp N)
  remove_index i [] = []
  remove_index zero (op ∷ ops) = ops
  remove_index (suc i) (op ∷ ops) = op ∷ remove_index i ops

  -- `ops.map((existing, i) => (i === index ? op : existing))`
  unfoldable pub replace_index : ℕ → ViewOp N → List (ViewOp N) → List (ViewOp N)
  replace_index i op [] = []
  replace_index zero op (old ∷ ops) = op ∷ ops
  replace_index (suc i) op (old ∷ ops) = old ∷ replace_index i op ops

  -- `ops.filter((op) => op.type !== …)`, for the four kinds that a view has once.
  unfoldable pub without_sort : List (ViewOp N) → List (ViewOp N)
  without_sort [] = []
  without_sort (sort keys ∷ ops) = without_sort ops
  without_sort (op ∷ ops) = op ∷ without_sort ops

  unfoldable pub without_group : List (ViewOp N) → List (ViewOp N)
  without_group [] = []
  without_group (group_by keys aggs ∷ ops) = without_group ops
  without_group (op ∷ ops) = op ∷ without_group ops

  unfoldable pub without_rename : List (ViewOp N) → List (ViewOp N)
  without_rename [] = []
  without_rename (rename mappings ∷ ops) = without_rename ops
  without_rename (op ∷ ops) = op ∷ without_rename ops

  unfoldable pub without_limit : List (ViewOp N) → List (ViewOp N)
  without_limit [] = []
  without_limit (limit n ∷ ops) = without_limit ops
  without_limit (op ∷ ops) = op ∷ without_limit ops

  -- `exprs.every((e) => e.op === "contains")`
  unfoldable pub all_contain : Predicates N → Bool
  all_contain nil = true
  all_contain (cons (contains column value) es) = all_contain es
  all_contain (cons e es) = false

  -- The predicates that `setSearch` and `clearSearch` take for a search.
  unfoldable pub is_search : Predicate N → Bool
  unfolding all_contain
  is_search (contains column value) = true
  is_search (or exprs) = all_contain exprs
  is_search p = false

  unfoldable pub without_search : List (ViewOp N) → List (ViewOp N)
  without_search [] = []
  without_search (filter p ∷ ops) =
      let rest = without_search ops in if is_search p then rest else filter p ∷ rest
  without_search (op ∷ ops) = op ∷ without_search ops

  -- `textColumns.map(col => ({ op: "contains", column: col, value: query }))`
  unfoldable pub search_exprs : Text → List Text → Predicates N
  search_exprs query [] = nil
  search_exprs query (c ∷ cs) = cons (contains c query) (search_exprs query cs)

  -- The filter of a search, if the query and the columns are not empty.
  unfoldable pub search_predicate : Text → List Text → Option (Predicate N)
  search_predicate [] columns = none
  search_predicate (c ∷ query) [] = none
  search_predicate (c ∷ query) (column ∷ []) = some (contains column (c ∷ query))
  search_predicate (c ∷ query) (column ∷ column' ∷ columns) =
      some (or (search_exprs (c ∷ query) (column ∷ column' ∷ columns)))

  unfoldable pub append_filter : List (ViewOp N) → Option (Predicate N) → List (ViewOp N)
  append_filter ops none = ops
  append_filter ops (some p) = ops ++ filter p ∷ []

  unfoldable pub append_sort : List (ViewOp N) → List SortKey → List (ViewOp N)
  append_sort ops [] = ops
  append_sort ops (k ∷ keys) = ops ++ sort (k ∷ keys) ∷ []

  unfoldable pub initial : ViewState N
  initial = record {
    source_id = none;
    ops = [];
    view_hash = [];
    virtual_row_count = none;
    virtual_schema = none;
    column_views = [];
  }

  module _ (stringify : List (ViewOp N) → Text) where
    -- `{ ops, viewHash: computeViewHash(ops, s.sourceId), virtualRowCount: null }`
    unfoldable pub with_ops : ViewState N → List (ViewOp N) → ViewState N
    with_ops s ops = record s {
      ops = ops;
      view_hash = compute_view_hash stringify ops s.source_id;
      virtual_row_count = none;
    }

    -- The same without the row count, which a renaming keeps.
    unfoldable pub with_renamed_ops : ViewState N → List (ViewOp N) → ViewState N
    with_renamed_ops s ops = record s {
      ops = ops;
      view_hash = compute_view_hash stringify ops s.source_id;
    }

    unfoldable pub set_source_id : ViewState N → Option Text → ViewState N
    set_source_id s id = record {
      source_id = id;
      ops = [];
      view_hash = compute_view_hash stringify [] id;
      virtual_row_count = none;
      virtual_schema = none;
      column_views = [];
    }
