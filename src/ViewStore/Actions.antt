-- ===== src/ViewStore/Actions.antt =====
-- The actions of web/src/stores/view.ts on the operations of the view.
use tableverse.Prelude.{ℕ, List, [], ◌∷◌, ◌++◌, Option, none, some, Text, text_key, ◌≟◌, ite}
use tableverse.ViewExpr.{Predicate, ViewOp, SortKey, AggExpr, group_by, rename, limit}
use tableverse.AddPredicate
use tableverse.ViewStore.{
  ColumnInfo, ViewState, ViewExpr, remove_index, replace_index, without_sort, without_group,
  without_rename, without_limit, without_search, search_predicate, append_filter, append_sort,
  with_ops, with_renamed_ops,
}

module _ {N : Type 0} (stringify : List (ViewOp N) → Text) where
  unfoldable pub set_ops : ViewState N → List (ViewOp N) → ViewState N
  set_ops s ops = with_ops stringify s ops

  unfoldable pub add_op : ViewState N → ViewOp N → ViewState N
  add_op s op = with_ops stringify s (s.ops ++ op ∷ [])

  unfoldable pub remove_op : ViewState N → ℕ → ViewState N
  remove_op s index = with_ops stringify s (remove_index index s.ops)

  unfoldable pub update_op : ViewState N → ℕ → ViewOp N → ViewState N
  update_op s index op = with_ops stringify s (replace_index index op s.ops)

  unfoldable pub clear_ops : ViewState N → ViewState N
  clear_ops s = with_ops stringify s []

  unfoldable pub add_predicate : ViewState N → Predicate N → ViewState N
  add_predicate s pred = with_ops stringify s (AddPredicate.add_predicate s.ops pred)

  unfoldable pub remove_predicate : ViewState N → Text → ViewState N
  remove_predicate s column = with_ops stringify s (AddPredicate.remove_predicate s.ops column)

  unfoldable pub set_sort : ViewState N → List SortKey → ViewState N
  set_sort s keys = with_ops stringify s (append_sort (without_sort s.ops) keys)

  unfoldable pub clear_sort : ViewState N → ViewState N
  clear_sort s = with_ops stringify s (without_sort s.ops)

  unfoldable pub set_group_by : ViewState N → List Text → List (AggExpr N) → ViewState N
  set_group_by s keys aggs = with_ops stringify s (without_group s.ops ++ group_by keys aggs ∷ [])

  unfoldable pub clear_group_by : ViewState N → ViewState N
  clear_group_by s = with_ops stringify s (without_group s.ops)

  -- The two actions on renamings keep the virtual row count.
  unfoldable pub set_rename : ViewState N → List (Text × Text) → ViewState N
  set_rename s mappings =
      with_renamed_ops stringify s (without_rename s.ops ++ rename mappings ∷ [])

  unfoldable pub clear_rename : ViewState N → ViewState N
  clear_rename s = with_renamed_ops stringify s (without_rename s.ops)

  unfoldable pub set_limit : ViewState N → N → ViewState N
  set_limit s n = with_ops stringify s (without_limit s.ops ++ limit n ∷ [])

  unfoldable pub clear_limit : ViewState N → ViewState N
  clear_limit s = with_ops stringify s (without_limit s.ops)

  unfoldable pub set_search : ViewState N → Text → List Text → ViewState N
  set_search s query text_columns =
      with_ops stringify s
        (append_filter (without_search s.ops) (search_predicate query text_columns))

  unfoldable pub clear_search : ViewState N → ViewState N
  clear_search s = with_ops stringify s (without_search s.ops)

module _ {N : Type 0} where
  unfoldable pub set_virtual_row_count : ViewState N → Option ℕ → ViewState N
  set_virtual_row_count s count = record s { virtual_row_count = count }

  unfoldable pub set_virtual_schema : ViewState N → Option (List ColumnInfo) → ViewState N
  set_virtual_schema s schema = record s { virtual_schema = schema }

  -- `buildViewExpr`: an empty source name counts as none.
  unfoldable pub build_view_expr : ViewState N → Option (ViewExpr N)
  build_view_expr s = elim s.source_id [
    | none ↦ none
    | some id ↦ ite (id ≟ []) none (some (record { source_id = id; ops = s.ops }))
  ]
