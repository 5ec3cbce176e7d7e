-- ===== src/MinHeap/Order.antt =====
-- The order of web/src/lib/min-heap.ts: a parent's score is at most that of its children, which bubbleUp
-- and push keep.
use tableverse.Prelude.{
  ℕ, zero, suc, ◌-◌, ◌/◌, ◌<◌, ◌≤◌, ◌≡◌, ◌≢◌, refl, List, [], ◌∷◌, ◌++◌, some, true, ◌&&◌, ltb,
  ◌==◌, if◌then◌else◌, length, get_elem?, set, arith, length-set, length-append, Option-cases,
  Bool-cases, inl, inr, ◌∙◌,
}
use tableverse.Prelude.Int.{ℤ, pos, ◌≤ℤ◌, ltb_ℤ}
use tableverse.MinHeap.{Scored, less, swap, bubble_up, push}

abbrev pub parent : ℕ → ℕ
parent c = (c - 1) / 2

module _ {A : Type 0} where
  -- The score at an index, 0 out of bounds.
  unfoldable pub key : List (Scored A) → ℕ → ℤ
  key [] i = pos 0
  key (x ∷ xs) zero = x.score
  key (x ∷ xs) (suc i) = key xs i

  pub key-get :
      (d : List (Scored A)) (i : ℕ) (a : Scored A) → get_elem? d i ≡ some a → key d i ≡ a.score
  unfolding key
  key-get [] i a h = cc
  key-get (x ∷ xs) zero a h = cc
  key-get (x ∷ xs) (suc i) a h = key-get xs i a h

  pub get-bound :
      (d : List (Scored A)) (i : ℕ) (a : Scored A) → get_elem? d i ≡ some a → i < length d
  get-bound [] i a h = cc
  get-bound (x ∷ xs) zero a h = omega arith
  get-bound (x ∷ xs) (suc i) a h = ground (arith, get-bound xs i a h)

  get-inside :
      (d : List (Scored A)) (i : ℕ) → i < length d → (a : Scored A) × (get_elem? d i ≡ some a)
  get-inside [] i h = absurd (omega arith)
  get-inside (x ∷ xs) zero h = (x, refl)
  get-inside (x ∷ xs) (suc i) h = get-inside xs i (omega arith)

  pub key-set :
      (d : List (Scored A)) (i k : ℕ) (v : Scored A)
      → i < length d
      → key (set d i v) k ≡ (if k == i then v.score else key d k)
  unfolding key
  key-set [] i k v h = absurd (omega arith)
  key-set (x ∷ xs) zero zero v h = refl
  key-set (x ∷ xs) zero (suc k) v h = ground arith
  key-set (x ∷ xs) (suc i) zero v h = ground arith
  key-set (x ∷ xs) (suc i) (suc k) v h = ground (arith, key-set xs i k v (omega arith))

  pub less-key :
      (d : List (Scored A)) (i j : ℕ)
      → i < length d
      → j < length d
      → less d i j ≡ ltb_ℤ (key d i) (key d j)
  unfolding less
  less-key d i j hi hj =
      let (a, at_i) = get-inside d i hi in
      let (b, at_j) = get-inside d j hj in
      rw (less, at_i, at_j, key-get d i a at_i, key-get d j b at_j) refl

  pub length-swap : (d : List (Scored A)) (i j : ℕ) → length (swap d i j) ≡ length d
  unfolding swap
  length-swap d i j = elim (Option-cases (get_elem? d i)) [
    | inl out ↦ rw (swap, out) refl
    | inr (a, at_i) ↦ elim (Option-cases (get_elem? d j)) [
      | inl out ↦ rw (swap, at_i, out) refl
      | inr (b, at_j) ↦ rw (swap, at_i, at_j) (length-set (set d i b) j a ∙ length-set d i b)
    ]
  ]

  pub key-swap :
      (d : List (Scored A)) (i j k : ℕ)
      → i < length d
      → j < length d
      → key (swap d i j) k ≡ (if k == j then key d i else if k == i then key d j else key d k)
  unfolding swap key
  key-swap d i j k hi hj =
      let (a, at_i) = get-inside d i hi in
      let (b, at_j) = get-inside d j hj in
      rw (swap, at_i, at_j)
        (rw (
          key-set (set d i b) j k a (omega (arith, length-set d i b)),
          key-set d i k b hi,
          key-get d i a at_i,
          key-get d j b at_j,
        ))

  -- Every parent is at most its child.
  abbrev pub IsHeap : List (Scored A) → Type 0
  IsHeap d = (c : ℕ) → 0 < c → c < length d → key d (parent c) ≤ℤ key d c

  -- The edges past an entry, from its parent to its children.
  abbrev pub IsBridged : List (Scored A) → ℕ → Type 0
  IsBridged d i =
      (c : ℕ) → 0 < c → c < length d → parent c ≡ i → 0 < i → key d (parent i) ≤ℤ key d c

  -- Only the edge above an entry may be out of order.
  record IsHeapBut (d : List (Scored A)) (i : ℕ) : Type 0 where
    inside : i < length d
    edges : (c : ℕ) → 0 < c → c < length d → c ≢ i → key d (parent c) ≤ℤ key d c
    bridged : IsBridged d i

  swap-IsHeapBut :
      (d : List (Scored A)) (i : ℕ)
      → IsHeapBut d i
      → 0 < i
      → ltb_ℤ (key d i) (key d (parent i)) ≡ true
      → IsHeapBut (swap d (parent i) i) (parent i)
  swap-IsHeapBut d i h up below =
      let above : parent i < length d = ground (arith, h.inside) in
      let size = length-swap d (parent i) i in
      let at = λ (k : ℕ). key-swap d (parent i) i k above h.inside in
      record {
        inside = rw size above;
        edges =
            λ c p q r. ground (arith, size, at c, at (parent c), h.edges c, h.edges i, h.bridged c);
        bridged = λ c p q r t.
            ground (arith, size, at c, at (parent (parent i)), h.edges c, h.edges (parent i));
      }

  bubble_up-IsHeap :
      (fuel i : ℕ) (d : List (Scored A)) → i ≤ fuel → IsHeapBut d i → IsHeap (bubble_up fuel i d)
  unfolding bubble_up
  bubble_up-IsHeap zero i d enough h = λ c p q. h.edges c p q (omega arith)
  bubble_up-IsHeap (suc fuel) i d enough h =
      let above : parent i < length d = ground (arith, h.inside) in
      let test = less-key d i (parent i) h.inside above in
      elim (Bool-cases (ltb 0 i && less d i (parent i))) [
        | inl up ↦
            rw (up, bubble_up)
              (bubble_up-IsHeap fuel (parent i) (swap d (parent i) i) (ground arith)
                (swap-IsHeapBut d i h (ground arith) (ground (arith, test))))
        | inr stay ↦ rw (stay, bubble_up) (λ c p q. ground (arith, test, h.edges c))
      ]

  key-append :
      (d : List (Scored A)) (x : Scored A) (i : ℕ) → i < length d → key (d ++ x ∷ []) i ≡ key d i
  unfolding key
  key-append [] x i h = absurd (omega arith)
  key-append (y ∷ d) x zero h = refl
  key-append (y ∷ d) x (suc i) h = key-append d x i (omega arith)

  -- A push keeps the order.
  pub push-IsHeap :
      (score : ℤ) (item : A) (d : List (Scored A)) → IsHeap d → IsHeap (push score item d)
  unfolding push
  push-IsHeap score item d h =
      let x : Scored A = record { score = score; item = item } in
      let size = length-append d (x ∷ []) in
      bubble_up-IsHeap (length d) (length d) (d ++ x ∷ []) (omega arith) (record {
        inside = ground (arith, size);
        edges = λ c p q r. ground (arith, size, key-append d x c, key-append d x (parent c), h c);
        bridged = λ c p q r t. absurd (omega (arith, size));
      })
