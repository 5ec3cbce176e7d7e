-- ===== src/MinHeap/Sink.antt =====
-- What sinkDown and pop of web/src/lib/min-heap.ts keep of the order, and that the first entry is the
-- least.
use tableverse.Prelude.{
  ℕ, zero, suc, ◌+◌, ◌*◌, ◌<◌, ◌≤◌, ◌≡◌, ◌≢◌, refl, List, [], ◌∷◌, true, ◌==◌, length, set, arith,
  length-set, Bool-cases, inl, inr, ◌⊎◌,
}
use tableverse.Prelude.Int.{◌≤ℤ◌, ltb_ℤ}
use tableverse.MinHeap.{Scored, swap, smallest_of, sink_down, pop_last, pop}
use tableverse.MinHeap.Order.{
  parent, key, key-set, key-swap, less-key, length-swap, IsHeap, IsBridged,
}

module _ {A : Type 0} where
  -- Only the edges below an entry may be out of order.
  record IsHeapAbove (d : List (Scored A)) (i : ℕ) : Type 0 where
    edges : (c : ℕ) → 0 < c → c < length d → parent c ≢ i → key d (parent c) ≤ℤ key d c
    bridged : IsBridged d i

  -- A child of an entry with a score below it, and none less among the children.
  record IsLeastChild (d : List (Scored A)) (i m : ℕ) : Type 0 where
    inside : m < length d
    child : (m ≡ 2 * i + 1) ⊎ (m ≡ 2 * i + 2)
    below : ltb_ℤ (key d m) (key d i) ≡ true
    least : (c : ℕ) → 0 < c → c < length d → parent c ≡ i → key d m ≤ℤ key d c

  smallest_of-same :
      (d : List (Scored A)) (i : ℕ)
      → i < length d
      → smallest_of d i ≡ i
      → (c : ℕ) → 0 < c
      → c < length d
      → parent c ≡ i
      → key d i ≤ℤ key d c
  unfolding smallest_of
  smallest_of-same d i inside e c p q r = ground (
    arith,
    e,
    less-key d (2 * i + 1) i,
    less-key d (2 * i + 2) i,
    less-key d (2 * i + 2) (2 * i + 1),
  )

  smallest_of-IsLeastChild :
      (d : List (Scored A)) (i : ℕ)
      → i < length d
      → smallest_of d i ≢ i
      → IsLeastChild d i (smallest_of d i)
  unfolding smallest_of
  smallest_of-IsLeastChild d i inside e =
      let left = less-key d (2 * i + 1) i in
      let right = less-key d (2 * i + 2) i in
      let between = less-key d (2 * i + 2) (2 * i + 1) in
      record {
        inside = ground (arith, e, left, right, between);
        child = ground (arith, e, left, right, between);
        below = ground (arith, e, left, right, between);
        least = λ c p q r. ground (arith, e, left, right, between);
      }

  swap-IsHeapAbove :
      (d : List (Scored A)) (i m : ℕ)
      → i < length d
      → IsHeapAbove d i
      → IsLeastChild d i m
      → IsHeapAbove (swap d m i) m
  swap-IsHeapAbove d i m inside h l =
      let size = length-swap d m i in
      let at = λ (k : ℕ). key-swap d m i k l.inside inside in
      record {
        edges = λ c p q r.
            ground (
              arith,
              size,
              at c,
              at (parent c),
              h.edges c,
              h.bridged m,
              l.child,
              l.below,
              l.least c,
            );
        bridged = λ c p q r t. ground (arith, size, at c, at (parent m), h.edges c, l.child);
      }

  sink_down-IsHeap :
      (fuel i : ℕ) (d : List (Scored A))
      → i < length d
      → length d ≤ fuel + i
      → IsHeapAbove d i
      → IsHeap (sink_down fuel i d)
  unfolding sink_down
  sink_down-IsHeap zero i d inside enough h = absurd (omega arith)
  sink_down-IsHeap (suc fuel) i d inside enough h = elim (Bool-cases (smallest_of d i == i)) [
    | inl stay ↦
        rw (stay, sink_down)
          (λ c p q. ground (arith, h.edges c, smallest_of-same d i inside (ground (arith, stay)) c))
    | inr down ↦
        let l = smallest_of-IsLeastChild d i inside (ground (arith, down)) in
        rw (down, sink_down)
          (sink_down-IsHeap fuel (smallest_of d i) (swap d (smallest_of d i) i)
            (rw (length-swap d (smallest_of d i) i) l.inside)
            (omega (arith, length-swap d (smallest_of d i) i, l.child))
            (swap-IsHeapAbove d i (smallest_of d i) inside h l))
  ]

  pop_last-length : (x : Scored A) (xs : List (Scored A)) → length (pop_last x xs).0 ≡ length xs
  unfolding pop_last
  pop_last-length x [] = refl
  pop_last-length x (y ∷ ys) = ground (arith, pop_last-length y ys)

  key-pop_last :
      (x : Scored A) (xs : List (Scored A)) (i : ℕ)
      → i < length xs
      → key (pop_last x xs).0 i ≡ key (x ∷ xs) i
  unfolding pop_last key
  key-pop_last x [] i h = absurd (omega arith)
  key-pop_last x (y ∷ ys) zero h = refl
  key-pop_last x (y ∷ ys) (suc i) h = key-pop_last y ys i (omega arith)

  -- A pop keeps the order.
  pub pop-IsHeap : (d : List (Scored A)) → IsHeap d → IsHeap (pop d).1
  unfolding pop pop_last sink_down
  pop-IsHeap [] h = λ c p q. absurd (omega arith)
  pop-IsHeap (x ∷ []) h = λ c p q. absurd (omega arith)
  pop-IsHeap (x ∷ y ∷ ys) h =
      let rest = (pop_last x (y ∷ ys)).0 in
      let last = (pop_last x (y ∷ ys)).1 in
      let size = length-set rest 0 last in
      let count = pop_last-length x (y ∷ ys) in
      let at = λ (k : ℕ). key-set rest 0 k last (omega (arith, count)) in
      sink_down-IsHeap (length rest) 0 (set rest 0 last) (omega (arith, size, count))
        (omega (arith, size))
        (record {
          edges = λ c p q r. ground (
            arith,
            size,
            count,
            at c,
            at (parent c),
            key-pop_last x (y ∷ ys) c,
            key-pop_last x (y ∷ ys) (parent c),
            h c,
          );
          bridged = λ c p q r t. absurd (omega arith);
        })

  root_least_below :
      (fuel : ℕ) (d : List (Scored A)) (i : ℕ)
      → IsHeap d
      → i < fuel
      → i < length d
      → key d 0 ≤ℤ key d i
  root_least_below zero d i h f p = absurd (omega arith)
  root_least_below (suc fuel) d i h f p = ground (arith, h i, root_least_below fuel d (parent i) h)

  -- The first entry has the least score.
  pub root-least : (d : List (Scored A)) (i : ℕ) → IsHeap d → i < length d → key d 0 ≤ℤ key d i
  root-least d i h p = root_least_below (suc i) d i h (omega arith) p
