-- ===== src/ViewStore/Columns/Order.antt =====
-- The display indices of the column views of web/src/stores/view.ts.
use tableverse.Prelude.{
  ℕ, suc, ◌≡◌, refl, List, [], ◌∷◌, Option, Text, arith, text_key, Option-cases, inl, inr,
}
use tableverse.ViewStore.{ColumnInfo, ColumnView, ViewState, Side}
use tableverse.ViewStore.Columns.{
  views_from, update_named, sort_views, take_out, renumber, init_column_views,
  toggle_column_visibility, set_column_pinned, reorder_column,
}

pub data ColumnAction : Type 0 where
  init : List ColumnInfo → ColumnAction
  toggle : Text → ColumnAction
  pin : Text → Option Side → ColumnAction
  reorder : ℕ → ℕ → ColumnAction

-- Each display index is the position, counted from a first index.
abbrev pub IsPlaced : ℕ → List ColumnView → Type 0
IsPlaced i [] = Unit
IsPlaced i (v ∷ vs) = (v.display_index ≡ i) × IsPlaced (suc i) vs

pub renumber-IsPlaced : (i : ℕ) (vs : List ColumnView) → IsPlaced i (renumber i vs)
unfolding renumber
renumber-IsPlaced i [] = tt
renumber-IsPlaced i (v ∷ vs) = (refl, renumber-IsPlaced (suc i) vs)

views_from-IsPlaced : (i : ℕ) (cs : List ColumnInfo) → IsPlaced i (views_from i cs)
unfolding views_from
views_from-IsPlaced i [] = tt
views_from-IsPlaced i (c ∷ cs) = (refl, views_from-IsPlaced (suc i) cs)

update-IsPlaced :
    (name : Text) (f : ColumnView → ColumnView) (i : ℕ) (vs : List ColumnView)
    → ((v : ColumnView) → (f v).display_index ≡ v.display_index)
    → IsPlaced i vs
    → IsPlaced i (update_named name f vs)
unfolding update_named
update-IsPlaced name f i [] same h = tt
update-IsPlaced name f i (v ∷ vs) same h =
    (ground (arith, same v), update-IsPlaced name f (suc i) vs same h.1)

module _ {N : Type 0} where
  unfoldable pub act_columns : ViewState N → ColumnAction → ViewState N
  act_columns s (init columns) = init_column_views s columns
  act_columns s (toggle name) = toggle_column_visibility s name
  act_columns s (pin name side) = set_column_pinned s name side
  act_columns s (reorder from to) = reorder_column s from to

  -- A sequence of column actions is applied from the first on.
  unfoldable pub run_columns : ViewState N → List ColumnAction → ViewState N
  run_columns s [] = s
  run_columns s (a ∷ rest) = run_columns (act_columns s a) rest

  reorder-IsPlaced :
      (s : ViewState N) (from to : ℕ)
      → IsPlaced 0 s.column_views
      → IsPlaced 0 (reorder_column s from to).column_views
  unfolding reorder_column
  reorder-IsPlaced s from to h = elim (Option-cases (take_out from (sort_views s.column_views))) [
    | inl gone ↦ rw (gone, reorder_column) h
    | inr (r, found) ↦ rw (found, reorder_column) (renumber-IsPlaced 0 _)
  ]

  act_columns-IsPlaced :
      (s : ViewState N) (a : ColumnAction)
      → IsPlaced 0 s.column_views
      → IsPlaced 0 (act_columns s a).column_views
  unfolding act_columns init_column_views toggle_column_visibility set_column_pinned
  act_columns-IsPlaced s (init columns) h = views_from-IsPlaced 0 columns
  act_columns-IsPlaced s (toggle name) h = update-IsPlaced name _ 0 s.column_views (λ v. refl) h
  act_columns-IsPlaced s (pin name side) h = update-IsPlaced name _ 0 s.column_views (λ v. refl) h
  act_columns-IsPlaced s (reorder from to) h = reorder-IsPlaced s from to h

  run_from-IsPlaced :
      (actions : List ColumnAction) (s : ViewState N)
      → IsPlaced 0 s.column_views
      → IsPlaced 0 (run_columns s actions).column_views
  unfolding run_columns
  run_from-IsPlaced [] s h = h
  run_from-IsPlaced (a ∷ rest) s h =
      run_from-IsPlaced rest (act_columns s a) (act_columns-IsPlaced s a h)

  -- After any column actions from a state with no columns, the display index of each column is its
  -- position.
  pub run_columns-IsPlaced :
      (s : ViewState N) (actions : List ColumnAction)
      → s.column_views ≡ []
      → IsPlaced 0 (run_columns s actions).column_views
  run_columns-IsPlaced s actions h = run_from-IsPlaced actions s (rw h tt)
