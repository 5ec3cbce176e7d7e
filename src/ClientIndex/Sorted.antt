-- ===== src/ClientIndex/Sorted.antt =====
-- The search for a text in the sorted rows of web/src/lib/client-index.ts finds exactly the rows that
-- hold it.
use tableverse.Prelude.{
  ℕ, zero, suc, ◌+◌, ◌-◌, ◌/◌, ◌≤◌, ◌<◌, ◌≡◌, refl, List, [], ◌∷◌, some, Bool, true, false, ltb,
  Text, length, get_elem?, arith, inl, inr, Bool-cases,
}
use tableverse.Prelude.Radix.{All}
use tableverse.ClientIndex.{text_less, text_equal, sorted_text, is_before, lower_bound}

pub text_less_trans :
    (a b v : Text) → text_less b a ≡ false → text_less b v ≡ true → text_less a v ≡ true
unfolding text_less
text_less_trans [] [] [] h k = cc
text_less_trans [] [] (c ∷ v) h k = refl
text_less_trans [] (b ∷ t) [] h k = cc
text_less_trans [] (b ∷ t) (c ∷ v) h k = refl
text_less_trans (a ∷ s) [] v h k = cc
text_less_trans (a ∷ s) (b ∷ t) [] h k = cc
text_less_trans (a ∷ s) (b ∷ t) (c ∷ v) h k = ground (arith, text_less_trans s t v)

pub text_less_or_equal :
    (a b : Text) → text_less a b ≡ false → text_equal a b ≡ false → text_less b a ≡ true
unfolding text_less text_equal
text_less_or_equal [] [] h k = cc
text_less_or_equal [] (b ∷ t) h k = cc
text_less_or_equal (a ∷ s) [] h k = refl
text_less_or_equal (a ∷ s) (b ∷ t) h k = ground (arith, text_less_or_equal s t)

pub text_equal→eq : (a b : Text) → text_equal a b ≡ true → a ≡ b
unfolding text_equal
text_equal→eq [] [] h = refl
text_equal→eq [] (b ∷ t) h = cc
text_equal→eq (a ∷ s) [] h = cc
text_equal→eq (a ∷ s) (b ∷ t) h = ground (arith, text_equal→eq s t)

pub text_less_irrefl : (a : Text) → text_less a a ≡ false
unfolding text_less
text_less_irrefl [] = refl
text_less_irrefl (a ∷ s) = ground (arith, text_less_irrefl s)

-- The text of a row, for rows in bounds.
unfoldable pub text_at : List Text → ℕ → Text
text_at [] row = []
text_at (x ∷ xs) zero = x
text_at (x ∷ xs) (suc row) = text_at xs row

pub get-text_at :
    (xs : List Text) (row : ℕ) → row < length xs → get_elem? xs row ≡ some (text_at xs row)
unfolding text_at
get-text_at [] row h = absurd (omega arith)
get-text_at (x ∷ xs) zero h = refl
get-text_at (x ∷ xs) (suc row) h = get-text_at xs row (omega arith)

-- No later row has a text before that of an earlier one.
abbrev pub Ascending : List Text → List ℕ → Type 0
Ascending xs [] = Unit
Ascending xs (row ∷ rows) =
    All (λ later. text_less (text_at xs later) (text_at xs row) ≡ false) rows × Ascending xs rows

abbrev pub InBounds : List Text → List ℕ → Type 0
InBounds xs rows = All (λ row. row < length xs) rows

-- Whether the text at a place is before the value.
abbrev pub before_at : List Text → List ℕ → Text → ℕ → Bool
before_at xs sorted value place = is_before (sorted_text xs sorted place) value

-- What the search finds: the places below it are before the value, and no other.
pub record IsBound (xs : List Text) (sorted : List ℕ) (value : Text) (r : ℕ) : Type 0 where
  pub below : (p : ℕ) → p < r → p < length sorted → before_at xs sorted value p ≡ true
  pub above : (p : ℕ) → r ≤ p → p < length sorted → before_at xs sorted value p ≡ false

pub lower_bound-IsBound :
    (fuel : ℕ) (xs : List Text) (sorted : List ℕ) (value : Text) (lo end : ℕ)
    → ((p q : ℕ)
        → p ≤ q
        → q < length sorted
        → before_at xs sorted value q ≡ true
        → before_at xs sorted value p ≡ true)
    → end ≤ lo + fuel
    → end ≤ length sorted
    → ((p : ℕ) → p < lo → p < length sorted → before_at xs sorted value p ≡ true)
    → ((p : ℕ) → end ≤ p → p < length sorted → before_at xs sorted value p ≡ false)
    → IsBound xs sorted value (lower_bound fuel xs sorted value lo end)
unfolding lower_bound
lower_bound-IsBound zero xs sorted value lo end mono enough inside below above = record {
  below = below;
  above = λ p h k. above p (omega arith) k;
}
lower_bound-IsBound (suc fuel) xs sorted value lo end mono enough inside below above =
    let middle = (lo + (end - 1)) / 2 in
    elim (Bool-cases (ltb lo end)) [
      | inr met ↦
          rw (lower_bound, met)
            (record { below = below; above = λ p h k. above p (ground arith) k })
      | inl more ↦ elim (Bool-cases (before_at xs sorted value middle)) [
        | inl low ↦
            rw (lower_bound, more, low)
              (lower_bound-IsBound fuel xs sorted value (middle + 1) end mono (ground arith) inside
                (λ p h k. mono p middle (omega arith) (ground arith) low) above)
        | inr high ↦
            rw (lower_bound, more, high)
              (lower_bound-IsBound fuel xs sorted value lo middle mono (ground arith) (ground arith)
                below
                (λ p h k. elim (Bool-cases (before_at xs sorted value p)) [
                  | inl low ↦ let also = mono middle p h k low in cc
                  | inr e ↦ e
                ]))
      ]
    ]
