-- ===== src/ViewStore/Search.antt =====
-- The search filter of web/src/stores/view.ts.
use tableverse.Prelude.{
  ◌≡◌, ◌≢◌, ℕ, refl, ap, List, [], ◌∷◌, ◌++◌, Text, some, true, Bool-cases, inl, inr, arith,
  text_key,
}
use tableverse.ViewExpr.{ViewOp, Predicate, filter, contains, and, cons, nil, column_of}
use tableverse.AddPredicate
use tableverse.ViewStore.{
  ViewState, without_search, append_filter, search_predicate, search_exprs, all_contain, is_search,
  with_ops,
}
use tableverse.ViewStore.Actions.{set_search, clear_search, add_predicate}

module _ (N : Type 0) where
  all_contain-search_exprs :
      (query : Text) (columns : List Text) → all_contain {N = N} (search_exprs query columns) ≡ true
  unfolding all_contain search_exprs
  all_contain-search_exprs query [] = refl
  all_contain-search_exprs query (c ∷ cs) = all_contain-search_exprs query cs

module _ {N : Type 0} where
  without_search-twice :
      (ops : List (ViewOp N)) → without_search (without_search ops) ≡ without_search ops
  unfolding without_search
  without_search-twice [] = refl
  without_search-twice (filter p ∷ ops) = elim (Bool-cases (is_search p)) [
    | inl e ↦ rw e (without_search-twice ops)
    | inr e ↦ rw (e, e) (ap (◌∷◌ (filter p)) (without_search-twice ops))
  ]
  without_search-twice (op ∷ ops) = ap (◌∷◌ op) (without_search-twice ops)

  without_search-append :
      (ops : List (ViewOp N)) (p : Predicate N)
      → is_search p ≡ true
      → without_search (without_search ops ++ filter p ∷ []) ≡ without_search ops
  unfolding without_search
  without_search-append [] p h = rw h
  without_search-append (filter q ∷ ops) p h = elim (Bool-cases (is_search q)) [
    | inl e ↦ rw e (without_search-append ops p h)
    | inr e ↦ rw (e, e) (ap (◌∷◌ (filter q)) (without_search-append ops p h))
  ]
  without_search-append (op ∷ ops) p h = ap (◌∷◌ op) (without_search-append ops p h)

  without_search-set :
      (ops : List (ViewOp N)) (query : Text) (columns : List Text)
      → without_search (append_filter (without_search ops) (search_predicate query columns))
        ≡ without_search ops
  unfolding append_filter search_predicate is_search
  without_search-set ops [] columns = without_search-twice ops
  without_search-set ops (c ∷ query) [] = without_search-twice ops
  without_search-set ops (c ∷ query) (column ∷ []) = without_search-append ops _ refl
  without_search-set ops (c ∷ query) (column ∷ column' ∷ columns) =
      without_search-append ops _
        (all_contain-search_exprs N (c ∷ query) (column ∷ column' ∷ columns))

  module _ (stringify : List (ViewOp N) → Text) (s : ViewState N) where
    -- A later search replaces an earlier one, and clearing takes it away, whatever the columns.
    pub last_search_wins :
        (query query' : Text) (columns columns' : List Text)
        → (set_search stringify (set_search stringify s query columns) query' columns'
            ≡ set_search stringify s query' columns')
          × (clear_search stringify (set_search stringify s query columns)
              ≡ clear_search stringify s)
    unfolding set_search clear_search with_ops
    last_search_wins query query' columns columns' =
        (rw (without_search-set s.ops query columns), rw (without_search-set s.ops query columns))

    -- A predicate on another named column that is added while a search is the only filter is merged
    -- into the filter of the search, which clearing the search then leaves in force.
    pub clear_search-add_predicate :
        (c : ℕ) (query column column' : Text) (p : Predicate N)
        → s.ops ≡ []
        → column_of p ≡ some column'
        → column' ≢ []
        → column ≢ column'
        → (clear_search stringify
            (add_predicate stringify (set_search stringify s (c ∷ query) (column ∷ [])) p)).ops
          ≡ filter (and (cons (contains column (c ∷ query)) (cons p nil))) ∷ []
    unfolding set_search clear_search add_predicate with_ops without_search append_filter
        search_predicate AddPredicate.add_predicate AddPredicate.find_filter
        AddPredicate.merge_predicate AddPredicate.incoming_column AddPredicate.is_single_column
        column_of is_search
    clear_search-add_predicate c query column column' p empty on named other =
        rw empty (ground arith)
