-- ===== src/AddPredicate.antt =====
-- web/src/lib/addPredicate.ts: predicates joined to and removed from the filters of a view.
pub mod Column
pub mod Prune
pub mod Exclude
use mathlib.Core.Option
use tableverse.Prelude.{
  ℕ, zero, suc, ◌≡◌, Bool, true, false, List, [], ◌∷◌, ◌++◌, Option, none, some, Text, text_key,
  ◌≟◌, ite, if◌then◌else◌, set,
}
use tableverse.ViewExpr.{
  Literal, Predicate, Predicates, ViewOp, filter, and, or, not, not_in, nil, cons, column_of,
}

module _ {N : Type 0} where
  -- `isSingleColumn`
  unfoldable pub is_single_column : Predicate N → Text → Bool
  is_single_column pred column = elim (column_of pred) [
    | none ↦ false
    | some c ↦ ite (c ≟ column) true false
  ]

  -- `const col = incomingColumn(incoming); if (col) …`: the empty name counts as none.
  unfoldable pub incoming_column : Predicate N → Option Text
  incoming_column pred = elim (column_of pred) [ none ↦ none | some c ↦ ite (c ≟ []) none (some c) ]

  -- `[...exprs, incoming]`
  unfoldable pub snoc : Predicates N → Predicate N → Predicates N
  snoc nil p = cons p nil
  snoc (cons e es) p = cons e (snoc es p)

  -- `exprs.filter((e) => !isSingleColumn(e, col))`
  unfoldable pub without_column : Text → Predicates N → Predicates N
  without_column column nil = nil
  without_column column (cons e es) =
      let rest = without_column column es in if is_single_column e column then rest else cons e rest

  unfoldable pub to_list : Predicates N → List (Predicate N)
  to_list nil = []
  to_list (cons e es) = e ∷ to_list es

  -- `mergePredicate`, whose two branches on the incoming column are one on what they keep.
  unfoldable pub merge_predicate : Predicate N → Predicate N → Predicate N
  merge_predicate (and exprs) incoming = elim (incoming_column incoming) [
    | some column ↦ and (snoc (without_column column exprs) incoming)
    | none ↦ and (snoc exprs incoming)
  ]
  merge_predicate existing incoming =
      let both = and (cons existing (cons incoming nil)) in
      elim (incoming_column incoming) [
        | some column ↦ if is_single_column existing column then incoming else both
        | none ↦ both
      ]

  -- One place later in the list.
  unfoldable pub later : Option (ℕ × Predicate N) → Option (ℕ × Predicate N)
  later none = none
  later (some (i, p)) = some (suc i, p)

  -- `ops.findIndex((op) => op.type === "filter")` with the predicate found there.
  unfoldable pub find_filter : List (ViewOp N) → Option (ℕ × Predicate N)
  unfolding later
  find_filter [] = none
  find_filter (filter p ∷ ops) = some (0, p)
  find_filter (op ∷ ops) = later (find_filter ops)

  unfoldable pub add_predicate : List (ViewOp N) → Predicate N → List (ViewOp N)
  add_predicate ops pred = elim (find_filter ops) [
    | none ↦ filter pred ∷ ops
    | some (i, existing) ↦ set ops i (filter (merge_predicate existing pred))
  ]

  -- `pred.op === "and" ? pred.exprs : [pred]`
  unfoldable pub conjuncts : Predicate N → List (Predicate N)
  conjuncts (and exprs) = to_list exprs
  conjuncts p = p ∷ []

  unfoldable pub active_predicates : List (ViewOp N) → List (Predicate N)
  active_predicates ops = elim (find_filter ops) [ none ↦ [] | some (i, p) ↦ conjuncts p ]

  -- `preds.filter((p) => isSingleColumn(p, column))`
  unfoldable pub select_column : Text → List (Predicate N) → List (Predicate N)
  select_column column [] = []
  select_column column (p ∷ ps) =
      let rest = select_column column ps in if is_single_column p column then p ∷ rest else rest

  unfoldable pub predicates_for_column : List (ViewOp N) → Text → List (Predicate N)
  predicates_for_column ops column = select_column column (active_predicates ops)

  -- The end of both list branches of `pruneColumn`.
  unfoldable pub collapse : (Predicates N → Predicate N) → Predicates N → Option (Predicate N)
  collapse join nil = none
  collapse join (cons p nil) = some p
  collapse join (cons p (cons q ps)) = some (join (cons p (cons q ps)))

  -- `.filter((e) => e !== null)`, one element at a time.
  unfoldable pub cons_some : Option (Predicate N) → Predicates N → Predicates N
  cons_some none ps = ps
  cons_some (some p) ps = cons p ps

-- `pruneColumn`, and its map over a list.
unfoldable mutual
  pub prune_column : {N : Type 0} → Text → Predicate N → Option (Predicate N)
  prune_column column (and exprs) = collapse and (prune_all column exprs)
  prune_column column (or exprs) = collapse or (prune_all column exprs)
  prune_column column (not expr) = Option.map not (prune_column column expr)
  prune_column column p = if is_single_column p column then none else some p

  pub prune_all : {N : Type 0} → Text → Predicates N → Predicates N
  prune_all column nil = nil
  prune_all column (cons p ps) = cons_some (prune_column column p) (prune_all column ps)

module _ {N : Type 0} where
  -- A filter with its pruned predicate, or no filter.
  unfoldable pub cons_filter : Option (Predicate N) → List (ViewOp N) → List (ViewOp N)
  cons_filter none ops = ops
  cons_filter (some p) ops = filter p ∷ ops

  -- `removePredicate`: a filter that is pruned away goes, and any other operation stays.
  unfoldable pub remove_predicate : List (ViewOp N) → Text → List (ViewOp N)
  remove_predicate [] column = []
  remove_predicate (filter p ∷ ops) column =
      cons_filter (prune_column column p) (remove_predicate ops column)
  remove_predicate (op ∷ ops) column = op ∷ remove_predicate ops column

  -- The values of the first `not_in` on the column.
  unfoldable pub find_not_in : Text → List (Predicate N) → Option (List (Literal N))
  find_not_in column [] = none
  find_not_in column (not_in c values ∷ ps) =
      let rest = find_not_in column ps in ite (c ≟ column) (some values) rest
  find_not_in column (p ∷ ps) = find_not_in column ps

  unfoldable pub append_not_in : List (ViewOp N) → Text → Literal N → List (ViewOp N)
  append_not_in ops column value =
      let next_pred : Predicate N = elim (find_not_in column (active_predicates ops)) [
        | some values ↦ not_in column (values ++ value ∷ [])
        | none ↦ not_in column (value ∷ [])
      ] in
      add_predicate (remove_predicate ops column) next_pred
