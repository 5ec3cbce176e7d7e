-- ===== src/ViewStore/Columns.antt =====
-- The column views of web/src/stores/view.ts: visibility, pins and order.
pub mod Order
pub mod Sorted
pub mod Moved
use tableverse.Prelude.{
  ℕ, zero, suc, Bool, true, List, [], ◌∷◌, Option, none, some, Text, text_key, ◌≟◌, ite, leb, not,
  if◌then◌else◌,
}
use tableverse.ViewStore.{ColumnInfo, ColumnView, Side, ViewState}

-- `columns.map((col, i) => …)` from a first index on.
unfoldable pub views_from : ℕ → List ColumnInfo → List ColumnView
views_from i [] = []
views_from i (c ∷ cs) =
    record { name = c.name; visible = true; pinned = none; display_index = i }
    ∷ views_from (suc i) cs

-- `columnViews.map((cv) => cv.name === name ? f(cv) : cv)`
unfoldable pub update_named : Text → (ColumnView → ColumnView) → List ColumnView → List ColumnView
update_named name f [] = []
update_named name f (v ∷ vs) = ite (v.name ≟ name) (f v) v ∷ update_named name f vs

-- `.sort((a, b) => a.displayIndex - b.displayIndex)`, which is stable.
unfoldable pub insert_view : ColumnView → List ColumnView → List ColumnView
insert_view v [] = v ∷ []
insert_view v (w ∷ ws) =
    let rest = insert_view v ws in
    if leb v.display_index w.display_index then v ∷ w ∷ ws else w ∷ rest

unfoldable pub sort_views : List ColumnView → List ColumnView
unfolding insert_view
sort_views [] = []
sort_views (v ∷ vs) = insert_view v (sort_views vs)

-- `sorted.splice(from, 1)`: the element taken out and what is left, or none behind the end.
unfoldable pub take_out {ℓ} : {A : Type ℓ} → ℕ → List A → Option (A × List A)
take_out i [] = none
take_out zero (x ∷ xs) = some (x, xs)
take_out (suc i) (x ∷ xs) = elim (take_out i xs) [
  | none ↦ none
  | some (y, rest) ↦ some (y, x ∷ rest)
]

-- `sorted.splice(to, 0, moved)`: behind the end it goes to the end.
unfoldable pub put_in {ℓ} : {A : Type ℓ} → ℕ → A → List A → List A
put_in i y [] = y ∷ []
put_in zero y (x ∷ xs) = y ∷ x ∷ xs
put_in (suc i) y (x ∷ xs) = x ∷ put_in i y xs

-- `sorted.map((cv, i) => ({ ...cv, displayIndex: i }))` from a first index on.
unfoldable pub renumber : ℕ → List ColumnView → List ColumnView
renumber i [] = []
renumber i (v ∷ vs) = record v { display_index = i } ∷ renumber (suc i) vs

unfoldable pub select_visible : List ColumnView → List ColumnView
select_visible [] = []
select_visible (v ∷ vs) = let rest = select_visible vs in if v.visible then v ∷ rest else rest

module _ {N : Type 0} where
  unfoldable pub init_column_views : ViewState N → List ColumnInfo → ViewState N
  init_column_views s columns = record s { column_views = views_from 0 columns }

  unfoldable pub toggle_column_visibility : ViewState N → Text → ViewState N
  toggle_column_visibility s name = record s {
    column_views = update_named name (λ v. record v { visible = not v.visible }) s.column_views;
  }

  unfoldable pub set_column_pinned : ViewState N → Text → Option Side → ViewState N
  set_column_pinned s name side = record s {
    column_views = update_named name (λ v. record v { pinned = side }) s.column_views;
  }

  unfoldable pub reorder_column : ViewState N → ℕ → ℕ → ViewState N
  reorder_column s from to = elim (take_out from (sort_views s.column_views)) [
    | none ↦ s
    | some (moved, rest) ↦ record s { column_views = renumber 0 (put_in to moved rest) }
  ]

  unfoldable pub visible_columns : ViewState N → List ColumnView
  visible_columns s = sort_views (select_visible s.column_views)
