-- ===== src/ViewStore/Columns/Moved.antt =====
-- What reorderColumn of web/src/stores/view.ts makes of the order of the columns.
use tableverse.Prelude.{
  ℕ, ◌≡◌, refl, ap, List, [], ◌∷◌, ◌++◌, Option, some, Bool, Text, map, length,
}
use tableverse.ViewStore.{ColumnView, ViewState, Side}
use tableverse.ViewStore.Columns.{take_out, put_in, renumber, reorder_column}
use tableverse.ViewStore.Columns.Order.{IsPlaced, renumber-IsPlaced}
use tableverse.ViewStore.Columns.Sorted.{IsAscending, with_index, sort_views_lem}

take_out_lem {ℓ} :
    {A : Type ℓ} (pre post : List A) (x : A)
    → take_out (length pre) (pre ++ x ∷ post) ≡ some (x, pre ++ post)
unfolding take_out
take_out_lem [] post x = refl
take_out_lem (y ∷ pre) post x = rw (take_out_lem pre post x)

put_in_lem {ℓ} :
    {A : Type ℓ} (front back : List A) (x : A)
    → put_in (length front) x (front ++ back) ≡ front ++ x ∷ back
unfolding put_in
put_in_lem [] [] x = refl
put_in_lem [] (y ∷ back) x = refl
put_in_lem (y ∷ front) back x = ap (y ∷◌) (put_in_lem front back x)

-- All of a column view but its display index.
abbrev pub face : ColumnView → Text × Bool × Option Side
face v = (v.name, v.visible, v.pinned)

face-renumber : (i : ℕ) (vs : List ColumnView) → map face (renumber i vs) ≡ map face vs
unfolding renumber
face-renumber i [] = refl
face-renumber i (v ∷ vs) = ap (face v ∷◌) (face-renumber _ vs)

module _ {N : Type 0} where
  -- Let the columns in ascending order of the display index, those with one index in the order of the
  -- store, be some, `x` and others. Then `reorderColumn` from the place of `x` puts it in any place
  -- between the other columns, which keep their order, with its name, visibility and pin, and numbers
  -- all by position.
  pub reorder_column_lem :
      (s : ViewState N) (pre post front back : List ColumnView) (x : ColumnView)
      → IsAscending 0 (pre ++ x ∷ post)
      → ((n : ℕ) → with_index n (pre ++ x ∷ post) ≡ with_index n s.column_views)
      → pre ++ post ≡ front ++ back
      → (map face (reorder_column s (length pre) (length front)).column_views
          ≡ map face (front ++ x ∷ back))
        × IsPlaced 0 (reorder_column s (length pre) (length front)).column_views
  unfolding reorder_column
  reorder_column_lem s pre post front back x h same e =
      rw
        (
          sort_views_lem s.column_views (pre ++ x ∷ post) h same,
          take_out_lem pre post x,
          reorder_column,
          e,
          put_in_lem front back x,
        )
        (face-renumber 0 (front ++ x ∷ back), renumber-IsPlaced 0 (front ++ x ∷ back))
