-- ===== src/AddPredicate/Prune.antt =====
-- What `pruneColumn` and `removePredicate` of web/src/lib/addPredicate.ts leave.
use mathlib.Core.Option
use mathlib.Core.Path.{subst}
use mathlib.Core.Option.{some-injective}
use mathlib.Core.List.{append-nil}
use tableverse.Prelude.{
  Bool, ◌≡◌, refl, sym, ap, ◌∙◌, List, [], ◌∷◌, ◌++◌, Option, none, some, Text, text_key, ◌≟◌, ite,
  arith, Option-cases, inl, inr, if◌then◌else◌,
}
use tableverse.ViewExpr.{
  Predicate, Predicates, ViewOp, filter, and, or, not, nil, cons, column_of, columns_of_leaf,
  predicate_columns, predicates_columns,
}
use tableverse.AddPredicate.{
  is_single_column, collapse, cons_some, prune_column, prune_all, cons_filter, remove_predicate,
}

-- A list of names without one name.
unfoldable pub without : Text → List Text → List Text
without c [] = []
without c (d ∷ ds) = let rest = without c ds in ite (d ≟ c) rest (d ∷ rest)

without-append :
    (c : Text) (ds es : List Text) → without c (ds ++ es) ≡ without c ds ++ without c es
unfolding without
without-append c [] es = refl
without-append c (d ∷ ds) es = ground (arith, without-append c ds es)

-- The columns of a predicate that may be absent.
unfoldable pub columns_left : {N : Type 0} → Option (Predicate N) → List Text
columns_left none = []
columns_left (some p) = predicate_columns p

module _ {N : Type 0} where
  columns-cons_some :
      (o : Option (Predicate N)) (ps : Predicates N)
      → predicates_columns (cons_some o ps) ≡ columns_left o ++ predicates_columns ps
  unfolding cons_some columns_left predicates_columns
  columns-cons_some none ps = refl
  columns-cons_some (some p) ps = refl

  columns-collapse_and :
      (ps : Predicates N) → columns_left (collapse and ps) ≡ predicates_columns ps
  unfolding collapse columns_left predicates_columns predicate_columns
  columns-collapse_and nil = refl
  columns-collapse_and (cons p nil) = sym (append-nil (predicate_columns p))
  columns-collapse_and (cons p (cons q ps)) = refl

  columns-collapse_or : (ps : Predicates N) → columns_left (collapse or ps) ≡ predicates_columns ps
  unfolding collapse columns_left predicates_columns predicate_columns
  columns-collapse_or nil = refl
  columns-collapse_or (cons p nil) = sym (append-nil (predicate_columns p))
  columns-collapse_or (cons p (cons q ps)) = refl

  columns-map_not : (o : Option (Predicate N)) → columns_left (Option.map not o) ≡ columns_left o
  unfolding columns_left predicate_columns
  columns-map_not none = refl
  columns-map_not (some p) = refl

mutual
  unfolding prune_column prune_all predicate_columns predicates_columns columns_left without
      is_single_column column_of columns_of_leaf

  columns-prune :
      {N : Type 0} (c : Text) (p : Predicate N)
      → columns_left (prune_column c p) ≡ without c (predicate_columns p)
  columns-prune c (and ps) = columns-collapse_and (prune_all c ps) ∙ columns-prune_all c ps
  columns-prune c (or ps) = columns-collapse_or (prune_all c ps) ∙ columns-prune_all c ps
  columns-prune c (not p) = columns-map_not (prune_column c p) ∙ columns-prune c p
  columns-prune c p = ground arith

  columns-prune_all :
      {N : Type 0} (c : Text) (ps : Predicates N)
      → predicates_columns (prune_all c ps) ≡ without c (predicates_columns ps)
  columns-prune_all c nil = refl
  columns-prune_all c (cons p ps) =
      columns-cons_some (prune_column c p) (prune_all c ps)
      ∙ rw (columns-prune c p, columns-prune_all c ps, without-append)

-- Pruning what was pruned changes nothing.
module _ {N : Type 0} where
  collapse_again :
      (join : Predicates N → Predicate N) (c : Text) (ps : Predicates N)
      → ((qs : Predicates N) → prune_column c (join qs) ≡ collapse join (prune_all c qs))
      → prune_all c ps ≡ ps
      → (q : Predicate N) → collapse join ps ≡ some q
      → prune_column c q ≡ some q
  unfolding collapse prune_all cons_some
  collapse_again join c nil fold same q h = cc
  collapse_again join c (cons p nil) fold same q h = elim (Option-cases (prune_column c p)) [
    | inl gone ↦ absurd (ground arith)
    | inr (r, left) ↦ ground arith
  ]
  collapse_again join c (cons p (cons p' ps)) fold same q h =
      subst (λ r. prune_column c r ≡ some r) (some-injective _ _ h)
        (fold _ ∙ ap (collapse join) same)

  all_again :
      (c : Text) (o : Option (Predicate N)) (ps : Predicates N)
      → ((q : Predicate N) → o ≡ some q → prune_column c q ≡ some q)
      → prune_all c ps ≡ ps
      → prune_all c (cons_some o ps) ≡ cons_some o ps
  unfolding prune_all cons_some
  all_again c none ps h same = same
  all_again c (some p) ps h same = rw (h p refl, same)

  kept_whole : (b : Bool) (p q : Predicate N) → (if b then none else some p) ≡ some q → p ≡ q
  kept_whole b p q h = ground arith

  not_again :
      (c : Text) (o : Option (Predicate N))
      → ((q : Predicate N) → o ≡ some q → prune_column c q ≡ some q)
      → (q : Predicate N) → Option.map not o ≡ some q
      → prune_column c q ≡ some q
  unfolding prune_column
  not_again c none h q e = cc
  not_again c (some p) h q e =
      subst (λ r. prune_column c r ≡ some r) (some-injective _ _ e) (ap (Option.map not) (h p refl))

mutual
  unfolding prune_column prune_all is_single_column column_of

  prune_again :
      {N : Type 0} (c : Text) (p q : Predicate N)
      → prune_column c p ≡ some q
      → prune_column c q ≡ some q
  prune_again c (and ps) q h =
      collapse_again and c (prune_all c ps) (λ qs. refl) (prune_all_again c ps) q h
  prune_again c (or ps) q h =
      collapse_again or c (prune_all c ps) (λ qs. refl) (prune_all_again c ps) q h
  prune_again c (not p) q h = not_again c (prune_column c p) (prune_again c p) q h
  prune_again c p q h = let same = kept_whole _ p q h in rw (← same) (rw (← same) at h)

  prune_all_again :
      {N : Type 0} (c : Text) (ps : Predicates N) → prune_all c (prune_all c ps) ≡ prune_all c ps
  prune_all_again c nil = refl
  prune_all_again c (cons p ps) =
      all_again c (prune_column c p) (prune_all c ps) (prune_again c p) (prune_all_again c ps)

-- The columns that the filters of a view mention, in order.
unfoldable pub filter_columns : {N : Type 0} → List (ViewOp N) → List Text
filter_columns [] = []
filter_columns (filter p ∷ ops) = predicate_columns p ++ filter_columns ops
filter_columns (op ∷ ops) = filter_columns ops

-- The operations that are no filters, in order.
unfoldable pub other_ops : {N : Type 0} → List (ViewOp N) → List (ViewOp N)
other_ops [] = []
other_ops (filter p ∷ ops) = other_ops ops
other_ops (op ∷ ops) = op ∷ other_ops ops

module _ {N : Type 0} where
  -- Of a pruned predicate the columns are left that are not the given one, in order and as often;
  -- nothing is left only where no other column was mentioned.
  pub predicate_columns-prune_column :
      (c : Text) (p : Predicate N)
      → columns_left (prune_column c p) ≡ without c (predicate_columns p)
  predicate_columns-prune_column c p = columns-prune c p

  -- Pruning the same column again changes nothing.
  pub prune_column_idempotent :
      (c : Text) (p q : Predicate N) → prune_column c p ≡ some q → prune_column c q ≡ some q
  prune_column_idempotent c p q h = prune_again c p q h

  pub filter_columns-cons_left :
      (o : Option (Predicate N)) (ops : List (ViewOp N)) (c : Text)
      → filter_columns (cons_filter o ops) ≡ columns_left o ++ filter_columns ops
  unfolding filter_columns cons_filter columns_left
  filter_columns-cons_left none ops c = refl
  filter_columns-cons_left (some p) ops c = refl

  -- `removePredicate` takes exactly the mentions of the column out of the filters, whatever the
  -- nesting, and keeps the mentions of other columns in order.
  pub filter_columns-remove_predicate :
      (ops : List (ViewOp N)) (c : Text)
      → filter_columns (remove_predicate ops c) ≡ without c (filter_columns ops)
  unfolding filter_columns remove_predicate without
  filter_columns-remove_predicate [] c = refl
  filter_columns-remove_predicate (filter p ∷ ops) c =
      filter_columns-cons_left (prune_column c p) (remove_predicate ops c) c
      ∙ rw (columns-prune c p, filter_columns-remove_predicate ops c, without-append)
  filter_columns-remove_predicate (op ∷ ops) c = filter_columns-remove_predicate ops c

  other_ops-cons_filter :
      (o : Option (Predicate N)) (ops : List (ViewOp N))
      → other_ops (cons_filter o ops) ≡ other_ops ops
  unfolding other_ops cons_filter
  other_ops-cons_filter none ops = refl
  other_ops-cons_filter (some p) ops = refl

  -- It leaves the operations that are no filters as they are.
  pub other_ops-remove_predicate :
      (ops : List (ViewOp N)) (c : Text) → other_ops (remove_predicate ops c) ≡ other_ops ops
  unfolding other_ops remove_predicate
  other_ops-remove_predicate [] c = refl
  other_ops-remove_predicate (filter p ∷ ops) c =
      other_ops-cons_filter (prune_column c p) (remove_predicate ops c)
      ∙ other_ops-remove_predicate ops c
  other_ops-remove_predicate (op ∷ ops) c = ap (◌∷◌ op) (other_ops-remove_predicate ops c)
