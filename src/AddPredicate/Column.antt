-- ===== src/AddPredicate/Column.antt =====
-- What web/src/lib/addPredicate.ts does to the predicates of a column.
use mathlib.Core.List.{append-nil}
use tableverse.Prelude.{
  ℕ, zero, suc, ◌≡◌, ◌≢◌, refl, ap, true, false, List, [], ◌∷◌, ◌++◌, Option, none, some, Text,
  text_key, ◌≟◌, ite, set, arith, Option-cases, inl, inr,
}
use tableverse.ViewExpr.{Predicate, Predicates, ViewOp, filter, and, nil, cons, column_of}
use tableverse.AddPredicate.{
  is_single_column, incoming_column, snoc, without_column, to_list, merge_predicate, find_filter,
  add_predicate, conjuncts, later, active_predicates, select_column, predicates_for_column,
}

module _ {N : Type 0} where
  select-to_list-snoc :
      (column : Text) (es : Predicates N) (p : Predicate N)
      → select_column column (to_list (snoc es p))
        ≡ select_column column (to_list es) ++ select_column column (p ∷ [])
  unfolding select_column to_list snoc
  select-to_list-snoc column nil p = refl
  select-to_list-snoc column (cons e es) p = ground (arith, select-to_list-snoc column es p)

  select-without_self :
      (column : Text) (es : Predicates N)
      → select_column column (to_list (without_column column es)) ≡ []
  unfolding select_column to_list without_column
  select-without_self column nil = refl
  select-without_self column (cons e es) = ground (arith, select-without_self column es)

  is_single_column-of :
      (p : Predicate N) (c d : Text)
      → column_of p ≡ some c
      → is_single_column p d ≡ ite (c ≟ d) true false
  unfolding is_single_column
  is_single_column-of p c d h = rw (h, is_single_column)

  single_unique :
      (p : Predicate N) (c d : Text)
      → is_single_column p c ≡ true
      → is_single_column p d ≡ true
      → c ≡ d
  unfolding is_single_column
  single_unique p c d h k = ground arith

  select-without_ne :
      (c d : Text) (es : Predicates N)
      → c ≢ d
      → select_column d (to_list (without_column c es)) ≡ select_column d (to_list es)
  unfolding select_column to_list without_column
  select-without_ne c d nil h = refl
  select-without_ne c d (cons e es) h =
      ground (arith, select-without_ne c d es h, single_unique e c d)

  pub conjuncts_leaf : (p : Predicate N) (c : Text) → column_of p ≡ some c → conjuncts p ≡ p ∷ []
  unfolding conjuncts column_of
  conjuncts_leaf (and es) c h = cc
  conjuncts_leaf p c h = refl

  -- The merged filter has the incoming predicate as its only one on the column.
  select-merge_self :
      (existing p : Predicate N) (c : Text)
      → column_of p ≡ some c
      → c ≢ []
      → select_column c (conjuncts (merge_predicate existing p)) ≡ p ∷ []
  unfolding merge_predicate conjuncts incoming_column select_column to_list
  select-merge_self (and es) p c h ne = ground (
    arith,
    select-to_list-snoc c (without_column c es) p,
    select-without_self c es,
    is_single_column-of p c c h,
  )
  select-merge_self existing p c h ne =
      ground (arith, is_single_column-of p c c h, conjuncts_leaf p c h)

  -- It leaves the predicates on another column.
  select-merge_ne :
      (existing p : Predicate N) (c d : Text)
      → column_of p ≡ some c
      → c ≢ d
      → select_column d (conjuncts (merge_predicate existing p))
        ≡ select_column d (conjuncts existing)
  unfolding merge_predicate conjuncts incoming_column select_column to_list
  select-merge_ne (and es) p c d h ne = ground (
    arith,
    append-nil (select_column d (to_list es)),
    select-to_list-snoc d (without_column c es) p,
    select-to_list-snoc d es p,
    select-without_ne c d es ne,
    is_single_column-of p c d h,
  )
  select-merge_ne existing p c d h ne =
      ground (arith, is_single_column-of p c d h, conjuncts_leaf p c h, single_unique existing c d)

  later-eq-some :
      (o : Option (ℕ × Predicate N)) (j : ℕ) (e : Predicate N)
      → later o ≡ some (j, e)
      → (i : ℕ) × (j ≡ suc i) × (o ≡ some (i, e))
  unfolding later
  later-eq-some none j e h = cc
  later-eq-some (some (i, p)) j e h = (i, ground arith, ground arith)

  find_filter-set :
      (ops : List (ViewOp N)) (i : ℕ) (e q : Predicate N)
      → find_filter ops ≡ some (i, e)
      → find_filter (set ops i (filter q)) ≡ some (i, q)
  unfolding find_filter
  find_filter-set [] i e q h = cc
  find_filter-set (filter p ∷ ops) zero e q h = refl
  find_filter-set (filter p ∷ ops) (suc i) e q h = absurd (ground arith)
  find_filter-set (op ∷ ops) zero e q h =
      let (j, impossible, found) = later-eq-some _ _ _ h in absurd (omega arith)
  find_filter-set (op ∷ ops) (suc i) e q h =
      let (j, same, found) = later-eq-some _ _ _ h in
      ap later (find_filter-set ops i e q (rw found (ground arith)))

  pub active_of_some :
      (ops : List (ViewOp N)) {i : ℕ} {p : Predicate N}
      → find_filter ops ≡ some (i, p)
      → active_predicates ops ≡ conjuncts p
  unfolding active_predicates
  active_of_some ops h = rw (h, active_predicates)

  pub active_of_none : (ops : List (ViewOp N)) → find_filter ops ≡ none → active_predicates ops ≡ []
  unfolding active_predicates
  active_of_none ops h = rw (h, active_predicates)

  pub add_of_none :
      (ops : List (ViewOp N)) (p : Predicate N)
      → find_filter ops ≡ none
      → add_predicate ops p ≡ filter p ∷ ops
  unfolding add_predicate
  add_of_none ops p h = rw (h, add_predicate)

  pub add_of_some :
      (ops : List (ViewOp N)) (p : Predicate N) {i : ℕ} {existing : Predicate N}
      → find_filter ops ≡ some (i, existing)
      → add_predicate ops p ≡ set ops i (filter (merge_predicate existing p))
  unfolding add_predicate
  add_of_some ops p h = rw (h, add_predicate)

  active-add_fresh :
      (ops : List (ViewOp N)) (p : Predicate N)
      → find_filter ops ≡ none
      → active_predicates (add_predicate ops p) ≡ conjuncts p
  unfolding find_filter
  active-add_fresh ops p h = rw (add_of_none ops p h) (active_of_some (filter p ∷ ops) {i = 0} refl)

  active-add :
      (ops : List (ViewOp N)) (p : Predicate N) {i : ℕ} (existing : Predicate N)
      → find_filter ops ≡ some (i, existing)
      → active_predicates (add_predicate ops p) ≡ conjuncts (merge_predicate existing p)
  active-add ops p {i} existing h =
      rw (add_of_some ops p h)
        (active_of_some _ {i = i} (find_filter-set ops i existing (merge_predicate existing p) h))

  -- After a predicate on a named column is added, it is the only active one that is directly on the
  -- column.
  pub predicates_for_column-add_predicate :
      (ops : List (ViewOp N)) (p : Predicate N) (c : Text)
      → column_of p ≡ some c
      → c ≢ []
      → predicates_for_column (add_predicate ops p) c ≡ p ∷ []
  unfolding predicates_for_column select_column
  predicates_for_column-add_predicate ops p c h ne = elim (Option-cases (find_filter ops)) [
    | inl fresh ↦
        rw (active-add_fresh ops p fresh, conjuncts_leaf p c h)
          (ground (arith, is_single_column-of p c c h))
    | inr ((i, existing), found) ↦
        rw (active-add ops p existing found) (select-merge_self existing p c h ne)
  ]

  -- Adding a predicate on one column leaves the active predicates on any other column as they are.
  pub predicates_for_column-add_predicate_ne :
      (ops : List (ViewOp N)) (p : Predicate N) (c d : Text)
      → column_of p ≡ some c
      → c ≢ d
      → predicates_for_column (add_predicate ops p) d ≡ predicates_for_column ops d
  unfolding predicates_for_column select_column
  predicates_for_column-add_predicate_ne ops p c d h ne = elim (Option-cases (find_filter ops)) [
    | inl fresh ↦
        rw (active-add_fresh ops p fresh, conjuncts_leaf p c h, active_of_none ops fresh)
          (ground (arith, is_single_column-of p c d h))
    | inr ((i, existing), found) ↦
        rw (active-add ops p existing found, active_of_some ops found)
          (select-merge_ne existing p c d h ne)
  ]
