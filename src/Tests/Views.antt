-- ===== src/Tests/Views.antt =====
-- The predicates, operations and columns of web/src/lib/addPredicate.ts and web/src/stores/view.ts on
-- small views, with numbers for the numbers of the program.
use tableverse.Prelude.{
  ℕ, ◌≡◌, ◌≢◌, refl, ap, Bool, map, inl, inr, List, [], ◌∷◌, none, some, text, Text, text_key,
  arith, true, false, List-discrete, ℕ_discrete,
}
use tableverse.ViewExpr.{
  Predicate, ViewOp, SortKey, number, eq, gt, is_null, or, and, not, not_in, contains, nil, cons,
  filter, limit, predicate_columns, column_of,
}
use tableverse.AddPredicate
use tableverse.AddPredicate.{
  prune_column, add_predicate, remove_predicate, append_not_in, predicates_for_column,
}
use tableverse.AddPredicate.Column.{
  predicates_for_column-add_predicate, predicates_for_column-add_predicate_ne,
}
use tableverse.AddPredicate.Prune.{
  without, columns_left, filter_columns, predicate_columns-prune_column,
  filter_columns-remove_predicate,
}
use tableverse.AddPredicate.Exclude.{first, predicates_for_column-append_not_in}
use tableverse.ViewStore.{ViewState, ColumnInfo, ColumnView}
use tableverse.ViewStore.Actions
use tableverse.ViewStore.Single.{last_setting_wins, clear_after_setting}
use tableverse.ViewStore.Search.{last_search_wins, clear_search-add_predicate}
use tableverse.ViewStore.Hash.{Action, source, sort as sort_action, run, IsHashed, run-IsHashed}
use tableverse.ViewStore.Columns.{visible_columns, reorder_column}
use tableverse.ViewStore.Columns.Order.{
  IsPlaced, init, toggle, reorder, run_columns, run_columns-IsPlaced,
}
use tableverse.ViewStore.Columns.Sorted.{
  IsAscending, with_index, visible_with_index, visible_columns_lem,
}
use tableverse.ViewStore.Columns.Moved.{face, reorder_column_lem}

predicates : Unit {0}
unfolding AddPredicate.prune_column AddPredicate.prune_all AddPredicate.collapse
    AddPredicate.cons_some AddPredicate.is_single_column AddPredicate.add_predicate
    AddPredicate.remove_predicate AddPredicate.append_not_in AddPredicate.predicates_for_column
    AddPredicate.find_filter AddPredicate.find_not_in AddPredicate.active_predicates
    AddPredicate.merge_predicate AddPredicate.incoming_column AddPredicate.snoc
    AddPredicate.without_column AddPredicate.to_list AddPredicate.conjuncts
    AddPredicate.select_column AddPredicate.cons_filter column_of List-discrete ℕ_discrete
predicates = tt

abbrev a : Text
a = text "a"

abbrev b : Text
b = text "b"

abbrev a_above : Predicate ℕ
a_above = gt a (number 3)

abbrev nested : Predicate ℕ
nested = and (cons (or (cons a_above (cons (is_null b) nil))) (cons (not (eq a (number 9))) nil))

abbrev ops : List (ViewOp ℕ)
ops = limit 10 ∷ filter (and (cons a_above (cons (is_null b) nil))) ∷ []

pruned : prune_column a nested ≡ some (is_null b)
unfolding predicates
pruned = refl

added :
    add_predicate ops (eq a (number 5))
    ≡ limit 10 ∷ filter (and (cons (is_null b) (cons (eq a (number 5)) nil))) ∷ []
unfolding predicates
added = refl

excluded_twice :
    append_not_in (append_not_in ops a (number 1)) a (number 2)
    ≡ limit 10
      ∷ filter (and (cons (is_null b) (cons (not_in a (number 1 ∷ number 2 ∷ [])) nil)))
      ∷ []
unfolding predicates
excluded_twice = refl

a-ne-nil : a ≢ []
a-ne-nil = λ e. cc

abbrev first_unit : Text → ℕ
first_unit [] = 0
first_unit (c ∷ s) = c

a-ne-b : a ≢ b
a-ne-b = λ e. absurd (omega (arith, ap first_unit e))

predicates_for_column-add_predicate_example :
    predicates_for_column (add_predicate ops (eq a (number 5))) a ≡ eq a (number 5) ∷ []
unfolding column_of
predicates_for_column-add_predicate_example =
    predicates_for_column-add_predicate ops (eq a (number 5)) a refl a-ne-nil

predicates_for_column-add_predicate_ne_example :
    predicates_for_column (add_predicate ops (eq a (number 5))) b ≡ predicates_for_column ops b
unfolding column_of
predicates_for_column-add_predicate_ne_example =
    predicates_for_column-add_predicate_ne ops (eq a (number 5)) a b refl a-ne-b

predicate_columns-prune_column_example :
    columns_left (prune_column a nested) ≡ without a (predicate_columns nested)
predicate_columns-prune_column_example = predicate_columns-prune_column a nested

filter_columns-remove_predicate_example :
    filter_columns (remove_predicate ops a) ≡ without a (filter_columns ops)
filter_columns-remove_predicate_example = filter_columns-remove_predicate ops a

-- The second exclusion on the column is dropped.
abbrev excluding : List (ViewOp ℕ)
excluding =
    filter (
      and
        (cons (is_null b) (cons (not_in a (number 1 ∷ [])) (cons (not_in a (number 2 ∷ [])) nil))))
    ∷ []

predicates_for_column-append_not_in_example :
    predicates_for_column (append_not_in excluding a (number 3)) a
    ≡ not_in a (number 1 ∷ number 3 ∷ []) ∷ []
unfolding predicates
predicates_for_column-append_not_in_example =
    predicates_for_column-append_not_in a excluding (number 3) (number 1 ∷ []) a-ne-nil (
      first (is_null b ∷ []) (not_in a (number 2 ∷ []) ∷ [])
        (λ values m. elim m [ inl e ↦ absurd (ground (arith, e)) | inr out ↦ out ]) refl)

abbrev stringify : List (ViewOp ℕ) → Text
stringify _ = text "[]"

abbrev state : ViewState ℕ
state = record {
  source_id = some (text "s");
  ops = ops;
  view_hash = [];
  virtual_row_count = some 7;
  virtual_schema = none;
  column_views = [];
}

abbrev by : Text → SortKey
by column = record { column = column; descending = true; nulls_last = false }

last_setting_wins_example :
    (Actions.set_sort stringify (Actions.set_sort stringify state (by a ∷ [])) (by b ∷ [])
      ≡ Actions.set_sort stringify state (by b ∷ []))
    × (Actions.set_group_by stringify (Actions.set_group_by stringify state (a ∷ []) []) (b ∷ []) []
        ≡ Actions.set_group_by stringify state (b ∷ []) [])
    × (Actions.set_rename stringify (Actions.set_rename stringify state ((a, b) ∷ [])) []
        ≡ Actions.set_rename stringify state [])
    × (Actions.set_limit stringify (Actions.set_limit stringify state 5) 6
        ≡ Actions.set_limit stringify state 6)
last_setting_wins_example =
    last_setting_wins stringify state (by a ∷ []) (by b ∷ []) (a ∷ []) (b ∷ []) [] [] ((a, b) ∷ [])
      [] 5 6

clear_after_setting_example :
    (Actions.clear_sort stringify (Actions.set_sort stringify state (by a ∷ []))
      ≡ Actions.clear_sort stringify state)
    × (Actions.clear_group_by stringify (Actions.set_group_by stringify state (a ∷ []) [])
        ≡ Actions.clear_group_by stringify state)
    × (Actions.clear_rename stringify (Actions.set_rename stringify state ((a, b) ∷ []))
        ≡ Actions.clear_rename stringify state)
    × (Actions.clear_limit stringify (Actions.set_limit stringify state 5)
        ≡ Actions.clear_limit stringify state)
clear_after_setting_example =
    clear_after_setting stringify state (by a ∷ []) (a ∷ []) [] ((a, b) ∷ []) 5

last_search_wins_example :
    (Actions.set_search stringify
        (Actions.set_search stringify state (text "x") (a ∷ b ∷ []))
        (text "y")
        (b ∷ [])
      ≡ Actions.set_search stringify state (text "y") (b ∷ []))
    × (Actions.clear_search stringify (Actions.set_search stringify state (text "x") (a ∷ b ∷ []))
        ≡ Actions.clear_search stringify state)
last_search_wins_example =
    last_search_wins stringify state (text "x") (text "y") (a ∷ b ∷ []) (b ∷ [])

clear_search-add_predicate_example :
    (Actions.clear_search stringify (
      Actions.add_predicate stringify
        (Actions.set_search stringify (record state { ops = [] }) (text "x") (a ∷ []))
        (is_null b))).ops
    ≡ filter (and (cons (contains a (text "x")) (cons (is_null b) nil))) ∷ []
unfolding column_of
clear_search-add_predicate_example =
    clear_search-add_predicate stringify (record state { ops = [] }) 120 [] a b (is_null b) refl
      refl (λ e. cc) a-ne-b

run-IsHashed_example : IsHashed stringify (
    run stringify state
      (source (some a) ∷ sort_action (by a ∷ []) ∷ Action.row_count (some 3) ∷ []))
run-IsHashed_example =
    run-IsHashed stringify state (some a) (sort_action (by a ∷ []) ∷ Action.row_count (some 3) ∷ [])

abbrev info : ℕ → Text → ColumnInfo
info i name = record { index = i; name = name; data_type = text "text"; nullable = true }

run_columns-IsPlaced_example :
    IsPlaced 0
      (run_columns state
        (init (info 0 a ∷ info 1 b ∷ []) ∷ reorder 0 1 ∷ toggle a ∷ [])).column_views
run_columns-IsPlaced_example =
    run_columns-IsPlaced state (init (info 0 a ∷ info 1 b ∷ []) ∷ reorder 0 1 ∷ toggle a ∷ []) refl

-- The columns b, a and hidden c, stored in another order than they are shown in.
abbrev view_of : Text → Bool → ℕ → ColumnView
view_of name visible i = record { name = name; visible = visible; pinned = none; display_index = i }

abbrev mixed : ViewState ℕ
mixed = record state {
  column_views = view_of (text "c") false 7 ∷ view_of a true 5 ∷ view_of b true 2 ∷ [];
}

mixed-with_index :
    (n : ℕ)
    → with_index n (view_of b true 2 ∷ view_of a true 5 ∷ view_of (text "c") false 7 ∷ [])
      ≡ with_index n mixed.column_views
unfolding with_index
mixed-with_index n = ground arith

reorder_column_lem_example :
    (map face (reorder_column mixed 0 2).column_views
      ≡ map face (view_of a true 5 ∷ view_of (text "c") false 7 ∷ view_of b true 2 ∷ []))
    × IsPlaced 0 (reorder_column mixed 0 2).column_views
reorder_column_lem_example =
    reorder_column_lem mixed [] (view_of a true 5 ∷ view_of (text "c") false 7 ∷ [])
      (view_of a true 5 ∷ view_of (text "c") false 7 ∷ []) [] (view_of b true 2) (omega arith)
      mixed-with_index refl

visible_columns_lem_example :
    IsAscending 0 (visible_columns mixed)
    × (with_index 5 (visible_columns mixed) ≡ visible_with_index 5 mixed.column_views)
visible_columns_lem_example = visible_columns_lem mixed 5
