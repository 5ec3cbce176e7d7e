-- ===== src/ClientIndex/Order.antt =====
-- The order of the texts of a column in web/src/lib/client-index.ts, which buildSortedIndicesStr makes.
use tableverse.Prelude.{
  ℕ, zero, suc, ◌+◌, ◌≡◌, ◌<◌, ◌≤◌, refl, ◌∙◌, List, [], ◌∷◌, true, false, ◌||◌, ◌==◌, Text,
  text_key, length, arith, inl, inr, Bool-cases,
}
use tableverse.Prelude.Radix.{All, All-map}
use tableverse.ClientIndex.{text_less, rows_from, is_in}
use tableverse.ClientIndex.Sorted.{text_at, Ascending, text_less_trans}
use tableverse.ClientIndex.Rowwise.{IsOrder}
use tableverse.ClientIndex.Build.{insert_row, sort_by_text, build_sorted_indices_str}

text_less-asym : (a b : Text) → text_less a b ≡ true → text_less b a ≡ false
unfolding text_less
text_less-asym [] [] h = cc
text_less-asym [] (d ∷ t) h = refl
text_less-asym (c ∷ s) [] h = cc
text_less-asym (c ∷ s) (d ∷ t) h = ground (arith, text_less-asym s t)

All-insert_row :
    (P : ℕ → Type 0) (xs : List Text) (row : ℕ) (rows : List ℕ)
    → P row
    → All P rows
    → All P (insert_row xs row rows)
unfolding insert_row
All-insert_row P xs row [] h k = (h, tt)
All-insert_row P xs row (r ∷ rows) h k =
    elim (Bool-cases (text_less (text_at xs r) (text_at xs row))) [
      | inl e ↦ rw e (k.0, All-insert_row P xs row rows h k.1)
      | inr e ↦ rw e (h, k)
    ]

insert_row-Ascending :
    (xs : List Text) (row : ℕ) (rows : List ℕ)
    → Ascending xs rows
    → Ascending xs (insert_row xs row rows)
unfolding insert_row
insert_row-Ascending xs row [] h = (tt, tt)
insert_row-Ascending xs row (r ∷ rows) h =
    elim (Bool-cases (text_less (text_at xs r) (text_at xs row))) [
      | inl e ↦ rw e (
        All-insert_row (λ later. text_less (text_at xs later) (text_at xs r) ≡ false) xs row rows
            (text_less-asym (text_at xs r) (text_at xs row) e) h.0,
        insert_row-Ascending xs row rows h.1,
      )
      | inr e ↦ rw e (
        (
          e,
          All-map rows
              (λ later k. not_before_first (text_at xs later) (text_at xs r) (text_at xs row) k e)
              h.0,
        ),
        h,
      )
    ]
  where
    not_before_first :
        (l r s : Text) → text_less l r ≡ false → text_less r s ≡ false → text_less l s ≡ false
    not_before_first l r s h k = elim (Bool-cases (text_less l s)) [
      | inl e ↦ let also = text_less_trans r l s h e in cc
      | inr e ↦ e
    ]

is_in-insert_row :
    (xs : List Text) (i row : ℕ) (rows : List ℕ)
    → is_in i (insert_row xs row rows) ≡ (i == row || is_in i rows)
unfolding insert_row is_in
is_in-insert_row xs i row [] = ground arith
is_in-insert_row xs i row (r ∷ rows) = ground (arith, is_in-insert_row xs i row rows)

sort_by_text-Ascending : (xs : List Text) (rows : List ℕ) → Ascending xs (sort_by_text xs rows)
unfolding sort_by_text
sort_by_text-Ascending xs [] = tt
sort_by_text-Ascending xs (row ∷ rows) =
    insert_row-Ascending xs row (sort_by_text xs rows) (sort_by_text-Ascending xs rows)

is_in-sort_by_text :
    (xs : List Text) (i : ℕ) (rows : List ℕ) → is_in i (sort_by_text xs rows) ≡ is_in i rows
unfolding sort_by_text is_in
is_in-sort_by_text xs i [] = refl
is_in-sort_by_text xs i (row ∷ rows) =
    ground (arith, is_in-insert_row xs i row (sort_by_text xs rows), is_in-sort_by_text xs i rows)

All-sort_by_text :
    (P : ℕ → Type 0) (xs : List Text) (rows : List ℕ) → All P rows → All P (sort_by_text xs rows)
unfolding sort_by_text
All-sort_by_text P xs [] h = tt
All-sort_by_text P xs (row ∷ rows) h =
    All-insert_row P xs row (sort_by_text xs rows) h.0 (All-sort_by_text P xs rows h.1)

rows_from-InBounds : (k n total : ℕ) → k + n ≤ total → All (λ row. row < total) (rows_from k n)
unfolding rows_from
rows_from-InBounds k zero total h = tt
rows_from-InBounds k (suc n) total h =
    (omega arith, rows_from-InBounds (suc k) n total (omega arith))

is_in-rows_from : (i k n : ℕ) → k ≤ i → i < k + n → is_in i (rows_from k n) ≡ true
unfolding is_in rows_from
is_in-rows_from i k zero h l = absurd (omega arith)
is_in-rows_from i k (suc n) h l = ground (arith, is_in-rows_from i (suc k) n)

pub build_sorted_indices_str-IsOrder :
    (xs : List Text) → IsOrder xs (build_sorted_indices_str xs) (length xs)
unfolding build_sorted_indices_str
build_sorted_indices_str-IsOrder xs = record {
  inside =
      All-sort_by_text (λ row. row < length xs) xs (rows_from 0 (length xs))
        (rows_from-InBounds 0 (length xs) (length xs) (omega arith));
  ascending = sort_by_text-Ascending xs (rows_from 0 (length xs));
  complete = λ i h.
      is_in-sort_by_text xs i (rows_from 0 (length xs))
      ∙ is_in-rows_from i 0 (length xs) (omega arith) (omega arith);
}
