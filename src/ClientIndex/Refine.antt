-- ===== src/ClientIndex/Refine.antt =====
-- The filters of web/src/lib/client-index.ts select exactly the rows that hold.
use tableverse.Prelude.{
  ℕ, zero, suc, ◌+◌, ◌≡◌, ◌<◌, refl, sym, ◌∙◌, List, [], ◌∷◌, Option, none, some, Bool, true, false,
  not, ◌&&◌, Text, text_key, length, ltb, leb, arith, inl, inr, Option-cases,
}
use tableverse.Prelude.Dict
use tableverse.ViewExpr.{
  Literal, null, boolean, number, string, Predicate, Predicates, eq, ne, gt, gte, lt, lte, between,
  in_values, not_in, contains, starts_with, ends_with, regex, is_null, is_not_null, and, or, nil,
  cons,
}
use tableverse.ClientIndex.{
  floats, strings, Numbers, Comparison, cmp_gt, cmp_gte, cmp_lt, cmp_lte, ClientIndex, text_equal,
  has_prefix, has_suffix, includes, is_in, rows_or_none, matching_from, rows_from, all_rows,
  eval_cmp, eval_eq, eval_eqs, eval_str_match, eval_regex, eval_null, eval_pred, eval_and, eval_or,
  union, intersect, complement,
}
use tableverse.ClientIndex.Rows.{is_in-intersect, is_in-complement, is_in-union, in_any}
use tableverse.ClientIndex.Sorted.{text_at, get-text_at}
use tableverse.ClientIndex.EqualRun.{search-holds}
use tableverse.ClientIndex.Rowwise.{
  passes, col_length, IsIndexed, row_cmp, row_eq, row_eq_any, row_match, row_regex, row_null,
  row_holds, all_hold, any_holds,
}

matching_from-below :
    {A : Type 0} (test : A → Bool) (i k : ℕ) (xs : List A)
    → i < k
    → is_in i (matching_from test k xs) ≡ false
unfolding is_in matching_from
matching_from-below test i k [] h = refl
matching_from-below test i k (x ∷ xs) h = ground (arith, matching_from-below test i (suc k) xs)

is_in-matching_from :
    {A : Type 0} (test : A → Bool) (i k j : ℕ) (xs : List A)
    → i ≡ j + k
    → is_in i (matching_from test k xs) ≡ passes test xs j
unfolding is_in matching_from passes
is_in-matching_from test i k j [] h = refl
is_in-matching_from test i k zero (x ∷ xs) h =
    ground (arith, h, matching_from-below test i (suc k) xs (omega arith))
is_in-matching_from test i k (suc j) (x ∷ xs) h =
    ground (arith, h, is_in-matching_from test i (suc k) j xs (omega arith))

is_in-rows_from : (i k n : ℕ) → is_in i (rows_from k n) ≡ (leb k i && ltb i (k + n))
unfolding is_in rows_from
is_in-rows_from i k zero = ground arith
is_in-rows_from i k (suc n) = ground (arith, is_in-rows_from i (suc k) n)

passes-text_at :
    (s : Text) (xs : List Text) (i : ℕ)
    → i < length xs
    → passes (λ t. text_equal t s) xs i ≡ text_equal (text_at xs i) s
unfolding passes
passes-text_at s xs i h = rw (passes, get-text_at xs i h) refl

module _ {N : Type 0} (numbers : Numbers N) (new_regex : Text → Option (Text → Bool))
    (index : ClientIndex N) (i : ℕ) (inside : i < index.total_rows) where
  is_in-all_rows : is_in i (all_rows numbers new_regex index) ≡ true
  unfolding all_rows
  is_in-all_rows = ground (arith, is_in-rows_from i 0 index.total_rows)

  is_in-eval_cmp :
      (c : Text) (v : Literal N) (op : Comparison)
      → is_in i (eval_cmp numbers new_regex index c v op) ≡ row_cmp numbers new_regex index c v op i
  unfolding eval_cmp row_cmp
  is_in-eval_cmp c (number n) op = elim (Option-cases (Dict.get c index.cols)) [
    | inl out ↦ rw (eval_cmp, row_cmp, out) is_in-all_rows
    | inr (floats xs, here) ↦
        rw (eval_cmp, row_cmp, here) (is_in-matching_from _ i 0 i xs (omega arith))
    | inr (strings xs, here) ↦ rw (eval_cmp, row_cmp, here) is_in-all_rows
  ]
  is_in-eval_cmp c null op = is_in-all_rows
  is_in-eval_cmp c (boolean b) op = is_in-all_rows
  is_in-eval_cmp c (string s) op = is_in-all_rows

  is_in-eval_str_match :
      (c : Text) (test : Text → Bool)
      → is_in i (eval_str_match numbers new_regex index c test)
        ≡ row_match numbers new_regex index c test i
  unfolding eval_str_match row_match
  is_in-eval_str_match c test = elim (Option-cases (Dict.get c index.cols)) [
    | inl out ↦ rw (eval_str_match, row_match, out) is_in-all_rows
    | inr (floats xs, here) ↦ rw (eval_str_match, row_match, here) is_in-all_rows
    | inr (strings xs, here) ↦
        rw (eval_str_match, row_match, here) (is_in-matching_from _ i 0 i xs (omega arith))
  ]

  is_in-eval_null :
      (c : Text) (want : Bool)
      → is_in i (eval_null numbers new_regex index c want)
        ≡ row_null numbers new_regex index c want i
  unfolding eval_null row_null
  is_in-eval_null c want = elim (Option-cases (Dict.get c index.cols)) [
    | inl out ↦ rw (eval_null, row_null, out) is_in-all_rows
    | inr (floats xs, here) ↦
        rw (eval_null, row_null, here) (is_in-matching_from _ i 0 i xs (omega arith))
    | inr (strings xs, here) ↦
        rw (eval_null, row_null, here) (is_in-matching_from _ i 0 i xs (omega arith))
  ]

  is_in-eval_eq :
      IsIndexed index
      → (c : Text) (v : Literal N)
      → is_in i (eval_eq numbers new_regex index c v) ≡ row_eq numbers new_regex index c v i
  unfolding eval_eq row_eq col_length
  is_in-eval_eq h c (number n) = elim (Option-cases (Dict.get c index.cols)) [
    | inl out ↦ rw (eval_eq, row_eq, out) is_in-all_rows
    | inr (floats xs, here) ↦
        rw (eval_eq, row_eq, here) (is_in-matching_from _ i 0 i xs (omega arith))
    | inr (strings xs, here) ↦ rw (eval_eq, row_eq, here) is_in-all_rows
  ]
  is_in-eval_eq h c (string s) = elim (Option-cases (Dict.get c index.cols)) [
    | inl out ↦ rw (eval_eq, row_eq, out) is_in-all_rows
    | inr (floats xs, here) ↦ rw (eval_eq, row_eq, here) is_in-all_rows
    | inr (strings xs, here) ↦
        rw (eval_eq, row_eq, here)
          (let sorted = rows_or_none (Dict.get c index.sorted_idx) in
            let total : i < length xs = omega (arith, h.lengths c (strings xs) here) in
            search-holds xs s i sorted (h.orders c xs here).inside (h.orders c xs here).ascending
            ∙ rw ((h.orders c xs here).complete i inside) (sym (passes-text_at s xs i total)))
  ]
  is_in-eval_eq h c null = elim (Option-cases (Dict.get c index.cols)) [
    | inl out ↦ rw (eval_eq, row_eq, out) is_in-all_rows
    | inr (floats xs, here) ↦ rw (eval_eq, row_eq, here) is_in-all_rows
    | inr (strings xs, here) ↦ rw (eval_eq, row_eq, here) is_in-all_rows
  ]
  is_in-eval_eq h c (boolean b) = elim (Option-cases (Dict.get c index.cols)) [
    | inl out ↦ rw (eval_eq, row_eq, out) is_in-all_rows
    | inr (floats xs, here) ↦ rw (eval_eq, row_eq, here) is_in-all_rows
    | inr (strings xs, here) ↦ rw (eval_eq, row_eq, here) is_in-all_rows
  ]

  is_in-eval_regex :
      (c : Text) (o : Option (Text → Bool))
      → is_in i (eval_regex numbers new_regex index c o) ≡ row_regex numbers new_regex index c o i
  unfolding eval_regex row_regex
  is_in-eval_regex c none = is_in-all_rows
  is_in-eval_regex c (some test) = is_in-eval_str_match c test

  in_any-eval_eqs :
      IsIndexed index
      → (c : Text) (vs : List (Literal N))
      → in_any i (eval_eqs numbers new_regex index c vs) ≡ row_eq_any numbers new_regex index c vs i
  unfolding in_any eval_eqs row_eq_any
  in_any-eval_eqs h c [] = refl
  in_any-eval_eqs h c (v ∷ vs) = rw (is_in-eval_eq h c v, in_any-eval_eqs h c vs) refl

  in_values-row :
      IsIndexed index
      → (c : Text) (vs : List (Literal N))
      → is_in i (union (eval_eqs numbers new_regex index c vs))
        ≡ row_eq_any numbers new_regex index c vs i
  in_values-row h c vs =
      is_in-union i (eval_eqs numbers new_regex index c vs) ∙ in_any-eval_eqs h c vs

  -- The rows that are not selected.
  is_in-complement_row :
      (rows : List ℕ) (b : Bool)
      → is_in i rows ≡ b
      → is_in i (complement rows index.total_rows) ≡ not b
  is_in-complement_row rows b h = ground (arith, h, is_in-complement i rows index.total_rows)

  mutual
    unfolding eval_pred eval_and eval_or row_holds all_hold any_holds in_any

    is_in-eval_pred_row :
        IsIndexed index
        → (p : Predicate N)
        → is_in i (eval_pred numbers new_regex index p) ≡ row_holds numbers new_regex index p i
    is_in-eval_pred_row h (eq c v) = is_in-eval_eq h c v
    is_in-eval_pred_row h (ne c v) = is_in-complement_row _ _ (is_in-eval_eq h c v)
    is_in-eval_pred_row h (gt c v) = is_in-eval_cmp c v cmp_gt
    is_in-eval_pred_row h (gte c v) = is_in-eval_cmp c v cmp_gte
    is_in-eval_pred_row h (lt c v) = is_in-eval_cmp c v cmp_lt
    is_in-eval_pred_row h (lte c v) = is_in-eval_cmp c v cmp_lte
    is_in-eval_pred_row h (between c lo hi) =
        is_in-intersect i (eval_cmp numbers new_regex index c lo cmp_gte)
          (eval_cmp numbers new_regex index c hi cmp_lte)
        ∙ rw (is_in-eval_cmp c lo cmp_gte, is_in-eval_cmp c hi cmp_lte) refl
    is_in-eval_pred_row h (in_values c vs) = in_values-row h c vs
    is_in-eval_pred_row h (not_in c vs) = is_in-complement_row _ _ (in_values-row h c vs)
    is_in-eval_pred_row h (contains c v) = is_in-eval_str_match c (includes v)
    is_in-eval_pred_row h (starts_with c v) = is_in-eval_str_match c (has_prefix v)
    is_in-eval_pred_row h (ends_with c v) = is_in-eval_str_match c (has_suffix v)
    is_in-eval_pred_row h (regex c pattern) = is_in-eval_regex c (new_regex pattern)
    is_in-eval_pred_row h (is_null c) = is_in-eval_null c true
    is_in-eval_pred_row h (is_not_null c) = is_in-eval_null c false
    is_in-eval_pred_row h (and es) =
        is_in-eval_and h (all_rows numbers new_regex index) es ∙ rw is_in-all_rows refl
    is_in-eval_pred_row h (or es) =
        is_in-union i (eval_or numbers new_regex index es) ∙ in_any-eval_or h es
    is_in-eval_pred_row h (Predicate.not e) = is_in-complement_row _ _ (is_in-eval_pred_row h e)

    is_in-eval_and :
        IsIndexed index
        → (r : List ℕ) (es : Predicates N)
        → is_in i (eval_and numbers new_regex index r es)
          ≡ (is_in i r && all_hold numbers new_regex index es i)
    is_in-eval_and h r nil = ground arith
    is_in-eval_and h r (cons e es) =
        is_in-eval_and h (intersect r (eval_pred numbers new_regex index e)) es
        ∙ ground (
          arith,
          is_in-intersect i r (eval_pred numbers new_regex index e),
          is_in-eval_pred_row h e,
        )

    in_any-eval_or :
        IsIndexed index
        → (es : Predicates N)
        → in_any i (eval_or numbers new_regex index es) ≡ any_holds numbers new_regex index es i
    in_any-eval_or h nil = refl
    in_any-eval_or h (cons e es) = rw (is_in-eval_pred_row h e, in_any-eval_or h es) refl

-- On an index whose columns are complete and whose orders are sorted, a filter selects a row of the
-- index exactly if the row passes the predicate by itself.
pub is_in-eval_pred :
    {N : Type 0} (numbers : Numbers N) (new_regex : Text → Option (Text → Bool))
    (index : ClientIndex N) (p : Predicate N) (i : ℕ)
    → IsIndexed index
    → i < index.total_rows
    → is_in i (eval_pred numbers new_regex index p) ≡ row_holds numbers new_regex index p i
is_in-eval_pred numbers new_regex index p i h inside =
    is_in-eval_pred_row numbers new_regex index i inside h p
