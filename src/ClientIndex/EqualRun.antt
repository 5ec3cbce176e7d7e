-- ===== src/ClientIndex/EqualRun.antt =====
-- The rows that evalEq of web/src/lib/client-index.ts collects from the bound on are exactly those that
-- hold the text.
use tableverse.Prelude.{
  ℕ, zero, suc, ◌≤◌, ◌<◌, ◌≡◌, refl, sym, ◌∙◌, List, [], ◌∷◌, Bool, true, false, ◌&&◌, Text, length,
  take, drop, take-append-drop, arith, inl, inr, Bool-cases,
}
use tableverse.Prelude.Radix.{All, All-map}
use tableverse.ClientIndex.{
  text_less, text_equal, sorted_text, is_before, lower_bound, equal_run, sort_rows, is_in,
}
use tableverse.ClientIndex.Rows.{is_in-append, is_in-insert_all}
use tableverse.ClientIndex.Sorted.{
  text_less_trans, text_less_or_equal, text_equal→eq, text_less_irrefl, text_at, get-text_at,
  Ascending, InBounds, before_at, IsBound, lower_bound-IsBound,
}

-- Whether a row holds a text.
abbrev pub holds : List Text → Text → ℕ → Bool
holds xs value row = text_equal (text_at xs row) value

-- Rows that all are not the value have none that holds it.
none_holds :
    (xs : List Text) (value : Text) (i : ℕ) (rows : List ℕ)
    → All (λ row. holds xs value row ≡ false) rows
    → (is_in i rows && holds xs value i) ≡ false
unfolding is_in
none_holds xs value i [] h = refl
none_holds xs value i (row ∷ rows) h = ground (arith, h.0, none_holds xs value i rows h.1)

less_not_equal : (s t : Text) → text_less s t ≡ true → text_equal s t ≡ false
less_not_equal s t h = elim (Bool-cases (text_equal s t)) [
  | inl e ↦ let same = text_equal→eq s t e in let not_less = text_less_irrefl s in cc
  | inr e ↦ e
]

-- A text that is not before one behind the value is not the value.
greater_not_equal :
    (l r v : Text) → text_less l r ≡ false → text_less v r ≡ true → text_equal l v ≡ false
greater_not_equal l r v h k = elim (Bool-cases (text_equal l v)) [
  | inl e ↦ let same = text_equal→eq l v e in cc
  | inr e ↦ e
]

equal_run-holds :
    (xs : List Text) (value : Text) (i : ℕ) (rows : List ℕ)
    → InBounds xs rows
    → Ascending xs rows
    → All (λ row. text_less (text_at xs row) value ≡ false) rows
    → is_in i (equal_run xs rows value) ≡ (is_in i rows && holds xs value i)
unfolding equal_run is_in
equal_run-holds xs value i [] inside order above = refl
equal_run-holds xs value i (row ∷ rows) inside order above =
    let at = get-text_at xs row inside.0 in
    elim (Bool-cases (holds xs value row)) [
      | inl e ↦
          rw (equal_run, at, e)
            (ground (arith, e, equal_run-holds xs value i rows inside.1 order.1 above.1))
      | inr e ↦
          let behind = text_less_or_equal (text_at xs row) value above.0 e in
          rw (equal_run, at, e)
            (sym (
              none_holds xs value i (row ∷ rows) (
                e,
                All-map rows
                    (λ l h. greater_not_equal (text_at xs l) (text_at xs row) value h behind)
                    order.0,
              )))
    ]

before_at-first :
    (xs : List Text) (row : ℕ) (rows : List ℕ) (value : Text)
    → row < length xs
    → before_at xs (row ∷ rows) value 0 ≡ text_less (text_at xs row) value
unfolding sorted_text is_before
before_at-first xs row rows value h = rw (is_before, sorted_text, get-text_at xs row h) refl

-- The places below a bound and those from it on, as the rows at them.
All-take :
    (xs : List Text) (value : Text) (r : ℕ) (rows : List ℕ)
    → InBounds xs rows
    → ((p : ℕ) → p < r → p < length rows → before_at xs rows value p ≡ true)
    → All (λ row. text_less (text_at xs row) value ≡ true) (take r rows)
unfolding sorted_text is_before
All-take xs value zero rows inside h = tt
All-take xs value (suc r) [] inside h = tt
All-take xs value (suc r) (row ∷ rows) inside h = (
  sym (before_at-first xs row rows value inside.0) ∙ h 0 (omega arith) (omega arith),
  All-take xs value r rows inside.1 (λ p k l. h (suc p) (omega arith) (omega arith)),
)

All-drop :
    (xs : List Text) (value : Text) (r : ℕ) (rows : List ℕ)
    → InBounds xs rows
    → ((p : ℕ) → r ≤ p → p < length rows → before_at xs rows value p ≡ false)
    → All (λ row. text_less (text_at xs row) value ≡ false) (drop r rows)
unfolding sorted_text is_before
All-drop xs value zero [] inside h = tt
All-drop xs value zero (row ∷ rows) inside h = (
  sym (before_at-first xs row rows value inside.0) ∙ h 0 (omega arith) (omega arith),
  All-drop xs value zero rows inside.1 (λ p k l. h (suc p) (omega arith) (omega arith)),
)
All-drop xs value (suc r) [] inside h = tt
All-drop xs value (suc r) (row ∷ rows) inside h =
    All-drop xs value r rows inside.1 (λ p k l. h (suc p) (omega arith) (omega arith))

drop-Ascending :
    (xs : List Text) (r : ℕ) (rows : List ℕ) → Ascending xs rows → Ascending xs (drop r rows)
drop-Ascending xs zero rows h = h
drop-Ascending xs (suc r) [] h = tt
drop-Ascending xs (suc r) (row ∷ rows) h = drop-Ascending xs r rows h.1

drop-InBounds :
    (xs : List Text) (r : ℕ) (rows : List ℕ) → InBounds xs rows → InBounds xs (drop r rows)
drop-InBounds xs zero rows h = h
drop-InBounds xs (suc r) [] h = tt
drop-InBounds xs (suc r) (row ∷ rows) h = drop-InBounds xs r rows h.1

-- Among rows that are not before a text, one before the value shows that the text is.
before_at-later :
    (xs : List Text) (s value : Text) (q : ℕ) (rows : List ℕ)
    → InBounds xs rows
    → All (λ later. text_less (text_at xs later) s ≡ false) rows
    → q < length rows
    → before_at xs rows value q ≡ true
    → text_less s value ≡ true
unfolding sorted_text is_before
before_at-later xs s value q [] inside h k e = absurd (omega arith)
before_at-later xs s value zero (row ∷ rows) inside h k e =
    text_less_trans s (text_at xs row) value h.0
      (sym (before_at-first xs row rows value inside.0) ∙ e)
before_at-later xs s value (suc q) (row ∷ rows) inside h k e =
    before_at-later xs s value q rows inside.1 h.1 (omega arith) e

before_at_mono :
    (xs : List Text) (value : Text) (rows : List ℕ)
    → InBounds xs rows
    → Ascending xs rows
    → (p q : ℕ) → p ≤ q
    → q < length rows
    → before_at xs rows value q ≡ true
    → before_at xs rows value p ≡ true
unfolding sorted_text is_before
before_at_mono xs value [] inside order p q h k e = absurd (omega arith)
before_at_mono xs value (row ∷ rows) inside order zero zero h k e = e
before_at_mono xs value (row ∷ rows) inside order zero (suc q) h k e =
    before_at-first xs row rows value inside.0
    ∙ before_at-later xs (text_at xs row) value q rows inside.1 order.0 (omega arith) e
before_at_mono xs value (row ∷ rows) inside order (suc p) zero h k e = absurd (omega arith)
before_at_mono xs value (row ∷ rows) inside order (suc p) (suc q) h k e =
    before_at_mono xs value rows inside.1 order.1 p q (omega arith) (omega arith) e

run_from-holds :
    (xs : List Text) (value : Text) (i r : ℕ) (sorted : List ℕ)
    → InBounds xs sorted
    → Ascending xs sorted
    → IsBound xs sorted value r
    → is_in i (equal_run xs (drop r sorted) value) ≡ (is_in i sorted && holds xs value i)
run_from-holds xs value i r sorted inside order bound =
    let low = none_holds xs value i (take r sorted) (
      All-map (take r sorted) (λ l h. less_not_equal (text_at xs l) value h)
        (All-take xs value r sorted inside bound.below)) in
    let high =
      equal_run-holds xs value i (drop r sorted) (drop-InBounds xs r sorted inside)
        (drop-Ascending xs r sorted order) (All-drop xs value r sorted inside bound.above) in
    let both = is_in-append i (take r sorted) (drop r sorted) in
    high ∙ ground (arith, low, both, take-append-drop r sorted)

-- The search and the run find the rows of the order that hold the value, and the final sort keeps them.
pub search-holds :
    (xs : List Text) (value : Text) (i : ℕ) (sorted : List ℕ)
    → InBounds xs sorted
    → Ascending xs sorted
    → is_in i (
        sort_rows (
          equal_run xs
            (drop (lower_bound (length sorted) xs sorted value 0 (length sorted)) sorted)
            value))
      ≡ (is_in i sorted && holds xs value i)
unfolding sort_rows is_in
search-holds xs value i sorted inside order =
    let bound =
      lower_bound-IsBound (length sorted) xs sorted value 0 (length sorted)
        (before_at_mono xs value sorted inside order) (omega arith) (omega arith)
        (λ p h k. absurd (omega arith)) (λ p h k. absurd (omega arith)) in
    let r = lower_bound (length sorted) xs sorted value 0 (length sorted) in
    ground (
      arith,
      is_in-insert_all i (equal_run xs (drop r sorted) value) [],
      run_from-holds xs value i r sorted inside order bound,
    )
