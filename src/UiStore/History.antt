-- ===== src/UiStore/History.antt =====
-- The navigation history of web/src/stores/ui.ts.
use tableverse.Prelude.{
  ℕ, zero, suc, ◌-◌, ◌≤◌, ◌<◌, ◌≡◌, refl, ap, sym, ◌∙◌, List, [], ◌∷◌, ◌++◌, some, arith, true,
  length, take, drop, get_elem?, length-append, length-take, length-drop, Bool-cases, inl, inr,
}
use tableverse.Prelude.Int.{ℤ, pos, negsuc, ltb_ℤ, ◌+ℤ◌, ◌-ℤ◌}
use tableverse.UiStore.{UiState, NavHistoryEntry, nav_history_max, Page, initial_ui}
use tableverse.UiStore.Actions.{
  push_nav_history, nav_history_back, nav_history_forward, elem_at, slice_to,
}

pub data NavAction : Type 0 where
  push : NavHistoryEntry → NavAction
  back : NavAction
  forward : NavAction

-- At most 64 entries, and the index is that of one of them, or -1 where there is none.
abbrev pub AtEntry : ℤ → ℕ → Type 0
AtEntry (pos i) n = i < n
AtEntry (negsuc i) n = (i ≡ 0) × (n ≡ 0)

back_step : (i : ℤ) (n : ℕ) → AtEntry i n → ltb_ℤ (pos 0) i ≡ true → AtEntry (i -ℤ pos 1) n
unfolding ◌-ℤ◌
back_step (pos i) n h k = ground arith
back_step (negsuc i) n h k = ground arith

forward_step :
    (i : ℤ) (n : ℕ) → AtEntry i n → ltb_ℤ i (pos n -ℤ pos 1) ≡ true → AtEntry (i +ℤ pos 1) n
unfolding ◌-ℤ◌ ◌+ℤ◌
forward_step (pos i) zero h k = ground arith
forward_step (pos i) (suc n) h k = ground arith
forward_step (negsuc i) zero h k = ground arith
forward_step (negsuc i) (suc n) h k = ground arith

last_entry : (n : ℕ) → 0 < n → AtEntry (pos n -ℤ pos 1) n
unfolding ◌-ℤ◌
last_entry n h = ground arith

-- The last 64 of a list with one more entry.
length-last :
    {A : Type 0} (xs : List A) (x : A)
    → (0 < length (drop (length (xs ++ x ∷ []) - nav_history_max) (xs ++ x ∷ [])))
      × (length (drop (length (xs ++ x ∷ []) - nav_history_max) (xs ++ x ∷ [])) ≤ nav_history_max)
length-last xs x =
    let at = length-append xs (x ∷ []) in
    let left = length-drop (length (xs ++ x ∷ []) - nav_history_max) (xs ++ x ∷ []) in
    (omega (arith, at, left), omega (arith, at, left))

before_suc : (i : ℕ) → pos (suc i) -ℤ pos 1 ≡ pos i
unfolding ◌-ℤ◌
before_suc i = ground arith

above_zero : (i : ℕ) → ltb_ℤ (pos 0) (pos (suc i)) ≡ true
above_zero i = ground arith

after : (i : ℕ) → pos i +ℤ pos 1 ≡ pos (suc i)
unfolding ◌+ℤ◌
after i = ground arith

before_last : (i n : ℕ) → suc i < n → ltb_ℤ (pos i) (pos n -ℤ pos 1) ≡ true
unfolding ◌-ℤ◌
before_last i n h = ground arith

in_bounds : {A : Type 0} (xs : List A) (i : ℕ) (x : A) → get_elem? xs i ≡ some x → i < length xs
in_bounds [] i x h = cc
in_bounds (y ∷ xs) zero x h = omega arith
in_bounds (y ∷ xs) (suc i) x h = let bound = in_bounds xs i x h in omega (arith, bound)

length-pushed :
    {A : Type 0} (xs : List A) (i : ℕ) (x : A)
    → i < length xs
    → length (take (suc i) xs ++ x ∷ []) ≡ suc (suc i)
length-pushed xs i x h =
    omega (arith, length-take (suc i) xs, length-append (take (suc i) xs) (x ∷ []))

sub_eq_zero : (n k : ℕ) → n ≤ k → n - k ≡ 0
sub_eq_zero n k h = omega arith

get_elem?-take :
    {A : Type 0} (xs : List A) (i : ℕ) (ys : List A) (x : A)
    → get_elem? xs i ≡ some x
    → get_elem? (take (suc i) xs ++ ys) i ≡ some x
get_elem?-take [] i ys x h = cc
get_elem?-take (y ∷ xs) zero ys x h = h
get_elem?-take (y ∷ xs) (suc i) ys x h = get_elem?-take xs i ys x h

module _ {Value : Type 0} where
  pub record IsNavValid (s : UiState Value) : Type 0 where
    pub short : length s.nav_history ≤ nav_history_max
    pub placed : AtEntry s.nav_history_idx (length s.nav_history)

  unfoldable pub act_nav : UiState Value → NavAction → UiState Value
  act_nav s (push position) = push_nav_history s position
  act_nav s back = (nav_history_back s).0
  act_nav s forward = (nav_history_forward s).0

  unfoldable pub run_nav : UiState Value → List NavAction → UiState Value
  run_nav s [] = s
  run_nav s (a ∷ actions) = run_nav (act_nav s a) actions

  push-IsNavValid :
      (s : UiState Value) (position : NavHistoryEntry)
      → IsNavValid s
      → IsNavValid (push_nav_history s position)
  unfolding push_nav_history
  push-IsNavValid s position v =
      let (some_entry, short) =
        length-last (slice_to (s.nav_history_idx +ℤ pos 1) s.nav_history) position in
      record { short = short; placed = last_entry _ some_entry }

  act_nav-IsNavValid : (s : UiState Value) (a : NavAction) → IsNavValid s → IsNavValid (act_nav s a)
  unfolding act_nav nav_history_back nav_history_forward
  act_nav-IsNavValid s (push position) v = push-IsNavValid s position v
  act_nav-IsNavValid s back v = elim (Bool-cases (ltb_ℤ (pos 0) s.nav_history_idx)) [
    | inl more ↦
        rw (more, act_nav, nav_history_back, nav_history_forward)
          (record { short = v.short; placed = back_step s.nav_history_idx _ v.placed more })
    | inr start ↦ rw (start, act_nav, nav_history_back) v
  ]
  act_nav-IsNavValid s forward v =
      elim (Bool-cases (ltb_ℤ s.nav_history_idx (pos (length s.nav_history) -ℤ pos 1))) [
        | inl more ↦
            rw (more, act_nav, nav_history_back, nav_history_forward)
              (record { short = v.short; placed = forward_step s.nav_history_idx _ v.placed more })
        | inr end_reached ↦ rw (end_reached, act_nav, nav_history_forward) v
      ]

  run_nav-IsNavValid_from :
      (s : UiState Value) (actions : List NavAction) → IsNavValid s → IsNavValid (run_nav s actions)
  unfolding run_nav
  run_nav-IsNavValid_from s [] v = v
  run_nav-IsNavValid_from s (a ∷ actions) v =
      run_nav-IsNavValid_from (act_nav s a) actions (act_nav-IsNavValid s a v)

  -- After any pushes and moves from the first state, the history has at most 64 entries, and the
  -- index is that of one of them, or -1 where there is none.
  pub run_nav-IsNavValid :
      (page : Page) (actions : List NavAction)
      → IsNavValid (run_nav (initial_ui {Value = Value} page) actions)
  unfolding initial_ui
  run_nav-IsNavValid page actions =
      run_nav-IsNavValid_from (initial_ui page) actions
        (record { short = omega arith; placed = (refl, refl) })

  back_lem :
      (s : UiState Value) (i : ℕ)
      → s.nav_history_idx ≡ pos (suc i)
      → nav_history_back s ≡ (record s { nav_history_idx = pos i }, get_elem? s.nav_history i)
  unfolding nav_history_back elem_at
  back_lem s i at = rw (at, before_suc i, above_zero i) refl

  forward_lem :
      (s : UiState Value) (i : ℕ)
      → s.nav_history_idx ≡ pos i
      → suc i < length s.nav_history
      → nav_history_forward s
        ≡ (record s { nav_history_idx = pos (suc i) }, get_elem? s.nav_history (suc i))
  unfolding nav_history_forward elem_at
  forward_lem s i at more = rw (at, after i, before_last i (length s.nav_history) more) refl

  -- Forward from where back went is the state and the entry that were left.
  pub forward-back :
      (s : UiState Value) (i : ℕ) (here : NavHistoryEntry)
      → s.nav_history_idx ≡ pos (suc i)
      → get_elem? s.nav_history (suc i) ≡ some here
      → nav_history_forward (nav_history_back s).0 ≡ (s, some here)
  forward-back s i here at shown =
      ap (λ r. nav_history_forward r.0) (back_lem s i at)
      ∙ forward_lem (record s { nav_history_idx = pos i }) i refl
          (in_bounds s.nav_history (suc i) here shown)
      ∙ ap (λ o. (record s { nav_history_idx = pos (suc i) }, o)) shown
      ∙ ap (λ j. (record s { nav_history_idx = j }, some here)) (sym at)

  -- Below 64 entries a push keeps what is up to the current entry and moves behind it.
  push_lem :
      (s : UiState Value) (i : ℕ) (position : NavHistoryEntry)
      → s.nav_history_idx ≡ pos i
      → i < length s.nav_history
      → suc (suc i) ≤ nav_history_max
      → push_nav_history s position ≡ record s {
        nav_history = take (suc i) s.nav_history ++ position ∷ [];
        nav_history_idx = pos (suc i);
      }
  unfolding push_nav_history slice_to
  push_lem s i position at bound room =
      let all = length-pushed s.nav_history i position bound in
      rw (at, after i, all, sub_eq_zero (suc (suc i)) nav_history_max room, all, before_suc (suc i))
        refl

  -- Back after a push shows the entry that was current, where the history before it is not full.
  pub back-push :
      (s : UiState Value) (i : ℕ) (here position : NavHistoryEntry)
      → s.nav_history_idx ≡ pos i
      → suc (suc i) ≤ nav_history_max
      → get_elem? s.nav_history i ≡ some here
      → (nav_history_back (push_nav_history s position)).1 ≡ some here
  back-push s i here position at room shown =
      ap (λ r. (nav_history_back r).1)
        (push_lem s i position at (in_bounds s.nav_history i here shown) room)
      ∙ ap (λ r. r.1) (back_lem _ i refl)
      ∙ get_elem?-take s.nav_history i (position ∷ []) here shown
