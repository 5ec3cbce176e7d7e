-- ===== src/ViewStore/Columns/Sorted.antt =====
-- The sorting of the column views of web/src/stores/view.ts by display index.
use tableverse.Prelude.{
  ℕ, ◌≤◌, ◌<◌, ◌≡◌, refl, sym, ◌∙◌, List, [], ◌∷◌, ◌&&◌, ◌==◌, if◌then◌else◌, arith,
}
use tableverse.ViewStore.{ColumnView, ViewState}
use tableverse.ViewStore.Columns.{insert_view, sort_views, select_visible, visible_columns}

-- No display index is below a bound, and each is at most the next.
abbrev pub IsAscending : ℕ → List ColumnView → Type 0
IsAscending i [] = Unit
IsAscending i (v ∷ vs) = (i ≤ v.display_index) × IsAscending v.display_index vs

-- The views with one display index, in their order.
unfoldable pub with_index : ℕ → List ColumnView → List ColumnView
with_index n [] = []
with_index n (v ∷ vs) =
    let rest = with_index n vs in if v.display_index == n then v ∷ rest else rest

-- The visible views with one display index, in their order.
unfoldable pub visible_with_index : ℕ → List ColumnView → List ColumnView
visible_with_index n [] = []
visible_with_index n (v ∷ vs) =
    let rest = visible_with_index n vs in
    if v.display_index == n && v.visible then v ∷ rest else rest

insert-IsAscending :
    (i : ℕ) (v : ColumnView) (vs : List ColumnView)
    → i ≤ v.display_index
    → IsAscending i vs
    → IsAscending i (insert_view v vs)
unfolding insert_view
insert-IsAscending i v [] le h = (le, tt)
insert-IsAscending i v (w ∷ ws) le h = ground (arith, insert-IsAscending w.display_index v ws)

sort-IsAscending : (vs : List ColumnView) → IsAscending 0 (sort_views vs)
unfolding sort_views
sort-IsAscending [] = tt
sort-IsAscending (v ∷ vs) =
    insert-IsAscending 0 v (sort_views vs) (omega arith) (sort-IsAscending vs)

with_index-insert :
    (n : ℕ) (v : ColumnView) (vs : List ColumnView)
    → with_index n (insert_view v vs) ≡ with_index n (v ∷ vs)
unfolding with_index insert_view
with_index-insert n v [] = refl
with_index-insert n v (w ∷ ws) = ground (arith, with_index-insert n v ws)

with_index-sort : (n : ℕ) (vs : List ColumnView) → with_index n (sort_views vs) ≡ with_index n vs
unfolding with_index sort_views
with_index-sort n [] = refl
with_index-sort n (v ∷ vs) =
    with_index-insert n v (sort_views vs) ∙ ground (arith, with_index-sort n vs)

with_index-select :
    (n : ℕ) (vs : List ColumnView) → with_index n (select_visible vs) ≡ visible_with_index n vs
unfolding with_index visible_with_index select_visible
with_index-select n [] = refl
with_index-select n (v ∷ vs) = ground (arith, with_index-select n vs)

with_index-below :
    (n i : ℕ) (vs : List ColumnView) → n < i → IsAscending i vs → with_index n vs ≡ []
unfolding with_index
with_index-below n i [] lt h = refl
with_index-below n i (v ∷ vs) lt h = ground (arith, with_index-below n v.display_index vs)

with_index-tail :
    (n : ℕ) (x y : ColumnView) (xs ys : List ColumnView)
    → x ≡ y
    → with_index n (x ∷ xs) ≡ with_index n (y ∷ ys)
    → with_index n xs ≡ with_index n ys
unfolding with_index
with_index-tail n x y xs ys e h = ground arith

-- Of two lists in ascending order one starts with a view of its lowest index, if the other does.
with_index-head :
    (i j : ℕ) (x y : ColumnView) (xs ys : List ColumnView)
    → IsAscending i (x ∷ xs)
    → IsAscending j (y ∷ ys)
    → with_index x.display_index (x ∷ xs) ≡ with_index x.display_index (y ∷ ys)
    → with_index y.display_index (x ∷ xs) ≡ with_index y.display_index (y ∷ ys)
    → x ≡ y
unfolding with_index
with_index-head i j x y xs ys a b p q = ground (
  arith,
  with_index-below x.display_index y.display_index ys,
  with_index-below y.display_index x.display_index xs,
)

-- A list in ascending order is known from its views with each index.
ascending_unique :
    (i j : ℕ) (xs ys : List ColumnView)
    → IsAscending i xs
    → IsAscending j ys
    → ((n : ℕ) → with_index n xs ≡ with_index n ys)
    → xs ≡ ys
unfolding with_index
ascending_unique i j [] [] a b h = refl
ascending_unique i j [] (y ∷ ys) a b h = ground (arith, h y.display_index)
ascending_unique i j (x ∷ xs) [] a b h = ground (arith, h x.display_index)
ascending_unique i j (x ∷ xs) (y ∷ ys) a b h =
    let e = with_index-head i j x y xs ys a b (h x.display_index) (h y.display_index) in
    let rest =
      ascending_unique x.display_index y.display_index xs ys a.1 b.1
        (λ n. with_index-tail n x y xs ys e (h n)) in
    cc

pub sort_views_lem :
    (vs sorted : List ColumnView)
    → IsAscending 0 sorted
    → ((n : ℕ) → with_index n sorted ≡ with_index n vs)
    → sort_views vs ≡ sorted
sort_views_lem vs sorted h same =
    ascending_unique 0 0 (sort_views vs) sorted (sort-IsAscending vs) h
      (λ n. with_index-sort n vs ∙ sym (same n))

module _ {N : Type 0} where
  -- `visibleColumns` is in ascending order of the display index, and of the columns with any one display
  -- index it has exactly the visible ones, in the order of the store.
  pub visible_columns_lem :
      (s : ViewState N) (n : ℕ)
      → IsAscending 0 (visible_columns s)
        × (with_index n (visible_columns s) ≡ visible_with_index n s.column_views)
  unfolding visible_columns
  visible_columns_lem s n = (
    sort-IsAscending (select_visible s.column_views),
    with_index-sort n (select_visible s.column_views) ∙ with_index-select n s.column_views,
  )
