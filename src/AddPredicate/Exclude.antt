-- ===== src/AddPredicate/Exclude.antt =====
-- `appendNotIn` of web/src/lib/addPredicate.ts.
use mathlib.Core.Logic.{if_pos, if_neg}
use tableverse.Prelude.{
  ◌≡◌, ◌≢◌, refl, sym, ap, ◌∙◌, List, [], ◌∷◌, ◌++◌, none, some, Text, text_key, ◌≟◌, In, inl, inr,
}
use tableverse.ViewExpr.{Literal, Predicate, ViewOp, not_in, column_of}
use tableverse.AddPredicate.{
  active_predicates, predicates_for_column, find_not_in, append_not_in, remove_predicate,
}
use tableverse.AddPredicate.Column.{predicates_for_column-add_predicate}

module _ {N : Type 0} (column : Text) where
  -- No predicate of a list excludes values from the column.
  abbrev pub NoneExcluded : List (Predicate N) → Type 0
  NoneExcluded ps = (values : List (Literal N)) → ¬ In (not_in column values) ps

  -- The values that the first exclusion on the column in a list has: none where there is no exclusion.
  pub data FirstExcluded (ps : List (Predicate N)) (values : List (Literal N)) : Type 0 where
    no_exclusion : NoneExcluded ps → values ≡ [] → FirstExcluded ps values
    first :
        (pre post : List (Predicate N))
        → NoneExcluded pre
        → ps ≡ pre ++ not_in column values ∷ post
        → FirstExcluded ps values

  find_not_in-none : (ps : List (Predicate N)) → NoneExcluded ps → find_not_in column ps ≡ none
  unfolding find_not_in
  find_not_in-none [] h = refl
  find_not_in-none (not_in c values ∷ ps) h = elim (c ≟ column) [
    | yes e ↦ absurd (h values (inl (ap (λ d. not_in d values) (sym e))))
    | no e ↦ if_neg (c ≟ column) e _ _ ∙ find_not_in-none ps (λ v m. h v (inr m))
  ]
  find_not_in-none (p ∷ ps) h = find_not_in-none ps (λ v m. h v (inr m))

  find_not_in-first :
      (pre post : List (Predicate N)) (values : List (Literal N))
      → NoneExcluded pre
      → find_not_in column (pre ++ not_in column values ∷ post) ≡ some values
  unfolding find_not_in
  find_not_in-first [] post values h = if_pos (column ≟ column) refl _ _
  find_not_in-first (not_in c old ∷ pre) post values h = elim (c ≟ column) [
    | yes e ↦ absurd (h old (inl (ap (λ d. not_in d old) (sym e))))
    | no e ↦ if_neg (c ≟ column) e _ _ ∙ find_not_in-first pre post values (λ v m. h v (inr m))
  ]
  find_not_in-first (p ∷ pre) post values h = find_not_in-first pre post values (λ v m. h v (inr m))

  -- Let `old` be the values of the first active predicate that excludes values from the column itself,
  -- or no values if there is none. After one more value of the named column is excluded, the only active
  -- predicate directly on the column excludes the old values and then the new one.
  pub predicates_for_column-append_not_in :
      (ops : List (ViewOp N)) (value : Literal N) (old : List (Literal N))
      → column ≢ []
      → FirstExcluded (active_predicates ops) old
      → predicates_for_column (append_not_in ops column value) column
        ≡ not_in column (old ++ value ∷ []) ∷ []
  unfolding append_not_in column_of
  predicates_for_column-append_not_in ops value old ne (no_exclusion fresh is) =
      rw (find_not_in-none (active_predicates ops) fresh, append_not_in, is)
        (predicates_for_column-add_predicate (remove_predicate ops column) _ column refl ne)
  predicates_for_column-append_not_in ops value old ne (first pre post fresh is) =
      rw (ap (find_not_in column) is ∙ find_not_in-first pre post old fresh, append_not_in)
        (predicates_for_column-add_predicate (remove_predicate ops column) _ column refl ne)
