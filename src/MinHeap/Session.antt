-- ===== src/MinHeap/Session.antt =====
-- A heap of web/src/lib/min-heap.ts in use.
use mathlib.Core.Path.{subst}
use tableverse.Prelude.{ℕ, ◌≡◌, List, [], ◌∷◌, some, get_elem?, arith, refl}
use tableverse.Prelude.Int.{ℤ, ◌≤ℤ◌}
use tableverse.MinHeap.{Scored, push, pop, clear}
use tableverse.MinHeap.Order.{key, IsHeap, push-IsHeap, key-get, get-bound}
use tableverse.MinHeap.Sink.{pop-IsHeap, root-least}

pub data HeapAction (A : Type 0) : Type 0 where
  push_item : ℤ → A → HeapAction A
  pop_item : HeapAction A
  clear_items : HeapAction A

module _ {A : Type 0} where
  unfoldable pub act_heap : List (Scored A) → HeapAction A → List (Scored A)
  unfolding push pop clear
  act_heap d (push_item score item) = push score item d
  act_heap d pop_item = (pop d).1
  act_heap d clear_items = clear d

  unfoldable pub run_heap : List (Scored A) → List (HeapAction A) → List (Scored A)
  unfolding act_heap
  run_heap d [] = d
  run_heap d (a ∷ actions) = run_heap (act_heap d a) actions

  act_heap-IsHeap : (d : List (Scored A)) (a : HeapAction A) → IsHeap d → IsHeap (act_heap d a)
  unfolding act_heap clear
  act_heap-IsHeap d (push_item score item) h = push-IsHeap score item d h
  act_heap-IsHeap d pop_item h = pop-IsHeap d h
  act_heap-IsHeap d clear_items h = λ c p q. absurd (omega arith)

  run_heap-IsHeap :
      (d : List (Scored A)) (actions : List (HeapAction A)) → IsHeap d → IsHeap (run_heap d actions)
  unfolding run_heap
  run_heap-IsHeap d [] h = h
  run_heap-IsHeap d (a ∷ actions) h = run_heap-IsHeap (act_heap d a) actions (act_heap-IsHeap d a h)

  -- What pop returns, after any pushes, pops and clears on an empty heap that left a first entry, is the
  -- item of that entry, and no entry has a lower score than it.
  pub pop-run_heap :
      (actions : List (HeapAction A)) (x : Scored A) (xs : List (Scored A))
      → run_heap [] actions ≡ x ∷ xs
      → ((pop (x ∷ xs)).0 ≡ some x.item)
        × ((i : ℕ) (y : Scored A) → get_elem? (x ∷ xs) i ≡ some y → x.score ≤ℤ y.score)
  unfolding pop key
  pop-run_heap actions x xs e =
      let ordered : IsHeap (x ∷ xs) =
        subst IsHeap e (run_heap-IsHeap [] actions (λ c p q. absurd (omega arith))) in
      (
        refl,
        λ i y at. ground (
          arith,
          root-least (x ∷ xs) i ordered,
          key-get (x ∷ xs) i y at,
          get-bound (x ∷ xs) i y at,
        ),
      )
