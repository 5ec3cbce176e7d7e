-- ===== src/MinHeap/Weight.antt =====
-- What web/src/lib/min-heap.ts keeps: a sum over the items, for any weight.
use tableverse.Prelude.{
  ℕ, zero, suc, ◌+◌, ◌-◌, ◌/◌, ◌≡◌, refl, List, [], ◌∷◌, ◌++◌, some, ◌&&◌, ltb, ◌==◌, length,
  get_elem?, set, arith, Option-cases, Bool-cases, inl, inr, ◌∙◌,
}
use tableverse.Prelude.Int.{ℤ}
use tableverse.MinHeap.{Scored, less, swap, bubble_up, smallest_of, sink_down, push, pop_last, pop}

module _ {A : Type 0} (f : A → ℕ) where
  unfoldable pub weight : List (Scored A) → ℕ
  weight [] = 0
  weight (x ∷ xs) = f x.item + weight xs

  weight-append : (xs ys : List (Scored A)) → weight (xs ++ ys) ≡ weight xs + weight ys
  unfolding weight
  weight-append [] ys = omega arith
  weight-append (x ∷ xs) ys = omega (arith, weight-append xs ys)

  weight-set :
      (xs : List (Scored A)) (i : ℕ) (a v : Scored A)
      → get_elem? xs i ≡ some a
      → weight (set xs i v) + f a.item ≡ weight xs + f v.item
  unfolding weight
  weight-set [] i a v h = cc
  weight-set (x ∷ xs) zero a v h = ground arith
  weight-set (x ∷ xs) (suc i) a v h = omega (arith, weight-set xs i a v h)

  get-set :
      (xs : List (Scored A)) (i j : ℕ) (b : Scored A)
      → get_elem? xs j ≡ some b
      → get_elem? (set xs i b) j ≡ some b
  get-set [] i j b h = h
  get-set (x ∷ xs) zero zero b h = refl
  get-set (x ∷ xs) zero (suc j) b h = h
  get-set (x ∷ xs) (suc i) zero b h = h
  get-set (x ∷ xs) (suc i) (suc j) b h = get-set xs i j b h

  weight-swap : (d : List (Scored A)) (i j : ℕ) → weight (swap d i j) ≡ weight d
  unfolding swap
  weight-swap d i j = elim (Option-cases (get_elem? d i)) [
    | inl out ↦ rw (swap, out) refl
    | inr (a, at_i) ↦ elim (Option-cases (get_elem? d j)) [
      | inl out ↦ rw (swap, at_i, out) refl
      | inr (b, at_j) ↦
          rw (swap, at_i, at_j)
            (omega
              (arith, weight-set d i a b at_i, weight-set (set d i b) j b a (get-set d i j b at_j)))
    ]
  ]

  weight-bubble_up : (fuel i : ℕ) (d : List (Scored A)) → weight (bubble_up fuel i d) ≡ weight d
  unfolding bubble_up
  weight-bubble_up zero i d = refl
  weight-bubble_up (suc fuel) i d = elim (Bool-cases (ltb 0 i && less d i ((i - 1) / 2))) [
    | inl up ↦
        rw (up, bubble_up)
          (weight-bubble_up fuel ((i - 1) / 2) (swap d ((i - 1) / 2) i) ∙ weight-swap d _ _)
    | inr stay ↦ rw (stay, bubble_up) refl
  ]

  weight-sink_down : (fuel i : ℕ) (d : List (Scored A)) → weight (sink_down fuel i d) ≡ weight d
  unfolding sink_down
  weight-sink_down zero i d = refl
  weight-sink_down (suc fuel) i d = elim (Bool-cases (smallest_of d i == i)) [
    | inl stay ↦ rw (stay, sink_down) refl
    | inr down ↦
        rw (down, sink_down)
          (weight-sink_down fuel (smallest_of d i) (swap d (smallest_of d i) i) ∙ weight-swap d _ _)
  ]

  weight-pop_last :
      (x : Scored A) (xs : List (Scored A))
      → weight (pop_last x xs).0 + f (pop_last x xs).1.item ≡ f x.item + weight xs
  unfolding pop_last weight
  weight-pop_last x [] = omega arith
  weight-pop_last x (y ∷ ys) = omega (arith, weight-pop_last y ys)

  -- Putting the last entry in the place of the first.
  weight-put_last :
      (x : Scored A) (xs : List (Scored A))
      → weight (set (pop_last x xs).0 0 (pop_last x xs).1) ≡ weight xs
  unfolding pop_last weight
  weight-put_last x [] = refl
  weight-put_last x (y ∷ ys) = omega (arith, weight-pop_last y ys)

  -- A push adds the item and keeps the others, for any weight of items.
  pub weight-push :
      (score : ℤ) (item : A) (d : List (Scored A)) → weight (push score item d) ≡ weight d + f item
  unfolding push weight
  weight-push score item d = omega (
    arith,
    weight-bubble_up (length d) (length d) (d ++ record { score = score; item = item } ∷ []),
    weight-append d (record { score = score; item = item } ∷ []),
  )

  -- A pop takes off the item that it returns, and keeps the others, for any weight of items.
  pub weight-pop :
      (x : Scored A) (xs : List (Scored A)) → f x.item + weight (pop (x ∷ xs)).1 ≡ weight (x ∷ xs)
  unfolding pop weight
  weight-pop x xs = omega (
    arith,
    weight-sink_down (length (pop_last x xs).0) 0 (set (pop_last x xs).0 0 (pop_last x xs).1),
    weight-put_last x xs,
  )
