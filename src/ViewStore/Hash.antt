-- ===== src/ViewStore/Hash.antt =====
-- The view hash of web/src/stores/view.ts is that of the operations, after every action.
use tableverse.Prelude.{arith, ℕ, ◌≡◌, refl, List, [], ◌∷◌, Option, Text}
use tableverse.ViewExpr.{Predicate, ViewOp, SortKey, AggExpr}
use tableverse.ViewHash.{compute_view_hash}
use tableverse.ViewStore.Columns.{
  init_column_views, toggle_column_visibility, set_column_pinned, reorder_column,
}
use tableverse.ViewStore.Columns.Order.{ColumnAction, init, toggle, pin, reorder, act_columns}
use tableverse.ViewStore.{ColumnInfo, ViewState, with_ops, with_renamed_ops, set_source_id}
use tableverse.ViewStore.Actions

-- Every action of the store.
pub data Action (N : Type 0) : Type 0 where
  source : Option Text → Action N
  ops : List (ViewOp N) → Action N
  add : ViewOp N → Action N
  remove : ℕ → Action N
  update : ℕ → ViewOp N → Action N
  join_predicate : Predicate N → Action N
  drop_predicate : Text → Action N
  sort : List SortKey → Action N
  group_by : List Text → List (AggExpr N) → Action N
  rename : List (Text × Text) → Action N
  limit : N → Action N
  search : Text → List Text → Action N
  clear_ops clear_sort clear_group_by clear_rename clear_limit clear_search : Action N
  row_count : Option ℕ → Action N
  schema : Option (List ColumnInfo) → Action N
  columns : ColumnAction → Action N

module _ {N : Type 0} (stringify : List (ViewOp N) → Text) where
  unfoldable pub act : ViewState N → Action N → ViewState N
  act s (source id) = set_source_id stringify s id
  act s (ops new_ops) = Actions.set_ops stringify s new_ops
  act s (add op) = Actions.add_op stringify s op
  act s (remove index) = Actions.remove_op stringify s index
  act s (update index op) = Actions.update_op stringify s index op
  act s (join_predicate p) = Actions.add_predicate stringify s p
  act s (drop_predicate column) = Actions.remove_predicate stringify s column
  act s (sort keys) = Actions.set_sort stringify s keys
  act s (group_by keys aggs) = Actions.set_group_by stringify s keys aggs
  act s (rename mappings) = Actions.set_rename stringify s mappings
  act s (limit n) = Actions.set_limit stringify s n
  act s (search query text_columns) = Actions.set_search stringify s query text_columns
  act s clear_ops = Actions.clear_ops stringify s
  act s clear_sort = Actions.clear_sort stringify s
  act s clear_group_by = Actions.clear_group_by stringify s
  act s clear_rename = Actions.clear_rename stringify s
  act s clear_limit = Actions.clear_limit stringify s
  act s clear_search = Actions.clear_search stringify s
  act s (row_count count) = Actions.set_virtual_row_count s count
  act s (schema new_schema) = Actions.set_virtual_schema s new_schema
  act s (columns a) = act_columns s a

  unfoldable pub run : ViewState N → List (Action N) → ViewState N
  run s [] = s
  run s (a ∷ rest) = run (act s a) rest

  abbrev pub IsHashed : ViewState N → Type 0
  IsHashed s = s.view_hash ≡ compute_view_hash stringify s.ops s.source_id

  columns-IsHashed : (s : ViewState N) (a : ColumnAction) → IsHashed s → IsHashed (act_columns s a)
  unfolding act_columns init_column_views toggle_column_visibility set_column_pinned reorder_column
  columns-IsHashed s (init infos) h = h
  columns-IsHashed s (toggle name) h = h
  columns-IsHashed s (pin name side) h = h
  columns-IsHashed s (reorder from to) h = ground arith

  act-IsHashed : (s : ViewState N) (a : Action N) → IsHashed s → IsHashed (act s a)
  unfolding act set_source_id with_ops with_renamed_ops Actions.set_ops Actions.add_op
      Actions.remove_op Actions.update_op Actions.add_predicate Actions.remove_predicate
      Actions.set_sort Actions.set_group_by Actions.set_rename Actions.set_limit Actions.set_search
      Actions.clear_ops Actions.clear_sort Actions.clear_group_by Actions.clear_rename
      Actions.clear_limit Actions.clear_search Actions.set_virtual_row_count
      Actions.set_virtual_schema
  act-IsHashed s (columns a) h = columns-IsHashed s a h
  act-IsHashed s (row_count count) h = h
  act-IsHashed s (schema new_schema) h = h
  act-IsHashed s a h = refl

  run_from-IsHashed :
      (actions : List (Action N)) (s : ViewState N) → IsHashed s → IsHashed (run s actions)
  unfolding run
  run_from-IsHashed [] s h = h
  run_from-IsHashed (a ∷ rest) s h = run_from-IsHashed rest (act s a) (act-IsHashed s a h)

  -- Once a source is set, the view hash is what computeViewHash makes of the current operations and
  -- source, after any actions.
  pub run-IsHashed :
      (s : ViewState N) (id : Option Text) (actions : List (Action N))
      → IsHashed (run s (source id ∷ actions))
  unfolding run act set_source_id
  run-IsHashed s id actions = run_from-IsHashed actions (set_source_id stringify s id) refl
