-- ===== src/ViewStore/Single.antt =====
-- The operations that a view of web/src/stores/view.ts has once: the last setting wins.
use tableverse.Prelude.{◌≡◌, refl, ap, List, [], ◌∷◌, ◌++◌, Text}
use tableverse.ViewExpr.{ViewOp, SortKey, AggExpr, sort, group_by, rename, limit}
use tableverse.ViewStore.{
  ViewState, without_sort, without_group, without_rename, without_limit, append_sort, with_ops,
  with_renamed_ops,
}
use tableverse.ViewStore.Actions.{
  set_sort, clear_sort, set_group_by, clear_group_by, set_rename, clear_rename, set_limit,
  clear_limit,
}

module _ {N : Type 0} where
  without_sort-append_sort :
      (ops : List (ViewOp N)) (keys : List SortKey)
      → without_sort (append_sort (without_sort ops) keys) ≡ without_sort ops
  unfolding without_sort append_sort
  without_sort-append_sort [] [] = refl
  without_sort-append_sort [] (k ∷ keys) = refl
  without_sort-append_sort (sort ks ∷ ops) keys = without_sort-append_sort ops keys
  without_sort-append_sort (op ∷ ops) [] = ap (◌∷◌ op) (without_sort-append_sort ops [])
  without_sort-append_sort (op ∷ ops) (k ∷ keys) =
      ap (◌∷◌ op) (without_sort-append_sort ops (k ∷ keys))

  without_group-append :
      (ops : List (ViewOp N)) (keys : List Text) (aggs : List (AggExpr N))
      → without_group (without_group ops ++ group_by keys aggs ∷ []) ≡ without_group ops
  unfolding without_group
  without_group-append [] keys aggs = refl
  without_group-append (group_by ks aggs' ∷ ops) keys aggs = without_group-append ops keys aggs
  without_group-append (op ∷ ops) keys aggs = ap (◌∷◌ op) (without_group-append ops keys aggs)

  without_rename-append :
      (ops : List (ViewOp N)) (mappings : List (Text × Text))
      → without_rename (without_rename ops ++ rename mappings ∷ []) ≡ without_rename ops
  unfolding without_rename
  without_rename-append [] mappings = refl
  without_rename-append (rename ms ∷ ops) mappings = without_rename-append ops mappings
  without_rename-append (op ∷ ops) mappings = ap (◌∷◌ op) (without_rename-append ops mappings)

  without_limit-append :
      (ops : List (ViewOp N)) (n : N)
      → without_limit (without_limit ops ++ limit n ∷ []) ≡ without_limit ops
  unfolding without_limit
  without_limit-append [] n = refl
  without_limit-append (limit m ∷ ops) n = without_limit-append ops n
  without_limit-append (op ∷ ops) n = ap (◌∷◌ op) (without_limit-append ops n)

  -- A later `setSort`, `setGroupBy`, `setRename` or `setLimit` replaces an earlier one of its kind,
  -- as if the earlier had not been made.
  pub last_setting_wins :
      (stringify : List (ViewOp N) → Text) (s : ViewState N) (sorts sorts' : List SortKey)
      (groups groups' : List Text) (aggs aggs' : List (AggExpr N))
      (names names' : List (Text × Text)) (n n' : N)
      → (set_sort stringify (set_sort stringify s sorts) sorts' ≡ set_sort stringify s sorts')
        × (set_group_by stringify (set_group_by stringify s groups aggs) groups' aggs'
            ≡ set_group_by stringify s groups' aggs')
        × (set_rename stringify (set_rename stringify s names) names'
            ≡ set_rename stringify s names')
        × (set_limit stringify (set_limit stringify s n) n' ≡ set_limit stringify s n')
  unfolding set_sort set_group_by set_rename set_limit with_ops with_renamed_ops
  last_setting_wins stringify s sorts sorts' groups groups' aggs aggs' names names' n n' = (
    rw (without_sort-append_sort s.ops sorts),
    rw (without_group-append s.ops groups aggs),
    rw (without_rename-append s.ops names),
    rw (without_limit-append s.ops n),
  )

  -- Clearing after a setting is clearing without it.
  pub clear_after_setting :
      (stringify : List (ViewOp N) → Text) (s : ViewState N) (sorts : List SortKey)
      (groups : List Text) (aggs : List (AggExpr N)) (names : List (Text × Text)) (n : N)
      → (clear_sort stringify (set_sort stringify s sorts) ≡ clear_sort stringify s)
        × (clear_group_by stringify (set_group_by stringify s groups aggs)
            ≡ clear_group_by stringify s)
        × (clear_rename stringify (set_rename stringify s names) ≡ clear_rename stringify s)
        × (clear_limit stringify (set_limit stringify s n) ≡ clear_limit stringify s)
  unfolding set_sort set_group_by set_rename set_limit clear_sort clear_group_by clear_rename
      clear_limit with_ops with_renamed_ops
  clear_after_setting stringify s sorts groups aggs names n = (
    rw (without_sort-append_sort s.ops sorts),
    rw (without_group-append s.ops groups aggs),
    rw (without_rename-append s.ops names),
    rw (without_limit-append s.ops n),
  )
