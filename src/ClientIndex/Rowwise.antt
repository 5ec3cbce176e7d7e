-- ===== src/ClientIndex/Rowwise.antt =====
-- What the filters of web/src/lib/client-index.ts mean for one row of the index, with no sets of rows and
-- no sorted order.
use tableverse.Prelude.{
  ℕ, ◌≡◌, ◌<◌, List, [], ◌∷◌, Option, none, some, Bool, true, false, not, ◌&&◌, ◌||◌, Text,
  text_key, length, get_elem?,
}
use tableverse.Prelude.Dict
use tableverse.ViewExpr.{
  Literal, null, boolean, number, string, Predicate, Predicates, eq, ne, gt, gte, lt, lte, between,
  in_values, not_in, contains, starts_with, ends_with, regex, is_null, is_not_null, and, or, nil,
  cons,
}
use tableverse.ClientIndex.{
  ColData, floats, strings, Numbers, Comparison, cmp_gt, cmp_gte, cmp_lt, cmp_lte, ClientIndex,
  compare_with, text_equal, has_prefix, has_suffix, includes, is_empty, same, is_in, rows_or_none,
}
use tableverse.ClientIndex.Sorted.{Ascending, InBounds}

-- The cell at a row passes a test.
unfoldable pub passes : {A : Type 0} → (A → Bool) → List A → ℕ → Bool
passes test xs i = elim (get_elem? xs i) [ none ↦ false | some x ↦ test x ]

unfoldable pub col_length : {N : Type 0} → ColData N → ℕ
col_length (floats xs) = length xs
col_length (strings xs) = length xs

-- An order for a column of texts: every row, in bounds, by ascending texts.
pub record IsOrder (xs : List Text) (rows : List ℕ) (total : ℕ) : Type 0 where
  pub inside : InBounds xs rows
  pub ascending : Ascending xs rows
  pub complete : (i : ℕ) → i < total → is_in i rows ≡ true

-- Every column has as many cells as the index has rows, and a column of texts has an order.
pub record IsIndexed {N : Type 0} (index : ClientIndex N) : Type 0 where
  pub lengths :
      (c : Text) (d : ColData N) → Dict.get c index.cols ≡ some d → col_length d ≡ index.total_rows
  pub orders :
      (c : Text) (xs : List Text)
      → Dict.get c index.cols ≡ some (strings xs)
      → IsOrder xs (rows_or_none (Dict.get c index.sorted_idx)) index.total_rows

module _ {N : Type 0} (numbers : Numbers N) (new_regex : Text → Option (Text → Bool)) where
  unfoldable pub row_cmp : ClientIndex N → Text → Literal N → Comparison → ℕ → Bool
  unfolding passes
  row_cmp index c (number n) op i = elim (Dict.get c index.cols) [
    | none ↦ true
    | some d ↦ elim d [
      | floats xs ↦ passes (λ v. compare_with numbers new_regex op v n) xs i
      | strings xs ↦ true
    ]
  ]
  row_cmp index c null op i = true
  row_cmp index c (boolean b) op i = true
  row_cmp index c (string s) op i = true

  unfoldable pub row_eq : ClientIndex N → Text → Literal N → ℕ → Bool
  unfolding passes
  row_eq index c value i = elim (Dict.get c index.cols) [
    | none ↦ true
    | some d ↦ elim d [
      | floats xs ↦ elim value [
        | number n ↦ passes (λ v. numbers.equal v n) xs i
        | null ↦ true
        | boolean b ↦ true
        | string s ↦ true
      ]
      | strings xs ↦ elim value [
        | string s ↦ passes (λ t. text_equal t s) xs i
        | null ↦ true
        | boolean b ↦ true
        | number n ↦ true
      ]
    ]
  ]

  unfoldable pub row_eq_any : ClientIndex N → Text → List (Literal N) → ℕ → Bool
  unfolding row_eq
  row_eq_any index c [] i = false
  row_eq_any index c (v ∷ vs) i = row_eq index c v i || row_eq_any index c vs i

  unfoldable pub row_match : ClientIndex N → Text → (Text → Bool) → ℕ → Bool
  unfolding passes
  row_match index c test i = elim (Dict.get c index.cols) [
    | none ↦ true
    | some d ↦ elim d [ floats xs ↦ true | strings xs ↦ passes test xs i ]
  ]

  unfoldable pub row_regex : ClientIndex N → Text → Option (Text → Bool) → ℕ → Bool
  unfolding row_match
  row_regex index c none i = true
  row_regex index c (some test) i = row_match index c test i

  unfoldable pub row_null : ClientIndex N → Text → Bool → ℕ → Bool
  unfolding passes
  row_null index c want i = elim (Dict.get c index.cols) [
    | none ↦ true
    | some d ↦ elim d [
      | floats xs ↦ passes (λ v. same (numbers.is_nan v) want) xs i
      | strings xs ↦ passes (λ s. same (is_empty s) want) xs i
    ]
  ]

  unfoldable mutual
    unfolding row_cmp row_eq_any row_match row_null

    pub row_holds : ClientIndex N → Predicate N → ℕ → Bool
    row_holds index (eq c v) i = row_eq index c v i
    row_holds index (ne c v) i = not (row_eq index c v i)
    row_holds index (gt c v) i = row_cmp index c v cmp_gt i
    row_holds index (gte c v) i = row_cmp index c v cmp_gte i
    row_holds index (lt c v) i = row_cmp index c v cmp_lt i
    row_holds index (lte c v) i = row_cmp index c v cmp_lte i
    row_holds index (between c lo hi) i =
        row_cmp index c lo cmp_gte i && row_cmp index c hi cmp_lte i
    row_holds index (in_values c vs) i = row_eq_any index c vs i
    row_holds index (not_in c vs) i = not (row_eq_any index c vs i)
    row_holds index (contains c v) i = row_match index c (includes v) i
    row_holds index (starts_with c v) i = row_match index c (has_prefix v) i
    row_holds index (ends_with c v) i = row_match index c (has_suffix v) i
    row_holds index (regex c pattern) i = row_regex index c (new_regex pattern) i
    row_holds index (is_null c) i = row_null index c true i
    row_holds index (is_not_null c) i = row_null index c false i
    row_holds index (and es) i = all_hold index es i
    row_holds index (or es) i = any_holds index es i
    row_holds index (Predicate.not e) i = not (row_holds index e i)

    pub all_hold : ClientIndex N → Predicates N → ℕ → Bool
    all_hold index nil i = true
    all_hold index (cons e es) i = row_holds index e i && all_hold index es i

    pub any_holds : ClientIndex N → Predicates N → ℕ → Bool
    any_holds index nil i = false
    any_holds index (cons e es) i = row_holds index e i || any_holds index es i
