-- ===== src/MinHeap.antt =====
-- web/src/lib/min-heap.ts: class MinHeap, a binary heap in an array. Scores are integers of a unit that
-- the client chooses, and none is NaN.
pub mod Weight
mod Order
mod Sink
pub mod Session
use tableverse.Prelude.{
  ℕ, zero, suc, ◌+◌, ◌-◌, ◌*◌, ◌/◌, List, [], ◌∷◌, ◌++◌, Option, none, some, Bool, true, false,
  ◌&&◌, ltb, ◌==◌, if◌then◌else◌, length, get_elem?, set,
}
use tableverse.Prelude.Int.{ℤ, ltb_ℤ}

pub record Scored (A : Type 0) : Type 0 where
  pub score : ℤ
  pub item : A

module _ {A : Type 0} where
  -- `data[i]!.score < data[j]!.score`, for indices in bounds.
  unfoldable pub less : List (Scored A) → ℕ → ℕ → Bool
  less d i j = elim (get_elem? d i) [
    | none ↦ false
    | some a ↦ elim (get_elem? d j) [ none ↦ false | some b ↦ ltb_ℤ a.score b.score ]
  ]

  -- `[data[i], data[j]] = [data[j]!, data[i]!]`, for indices in bounds.
  unfoldable pub swap : List (Scored A) → ℕ → ℕ → List (Scored A)
  swap d i j = elim (get_elem? d i) [
    | none ↦ d
    | some a ↦ elim (get_elem? d j) [ none ↦ d | some b ↦ set (set d i b) j a ]
  ]

  -- A parent has the smaller index, so as many rounds as the index are enough.
  unfoldable pub bubble_up : ℕ → ℕ → List (Scored A) → List (Scored A)
  bubble_up zero i d = d
  bubble_up (suc fuel) i d =
      let parent = (i - 1) / 2 in
      elim (ltb 0 i && less d i parent) [
        | true ↦ bubble_up fuel parent (swap d parent i)
        | false ↦ d
      ]

  unfoldable pub smallest_of : List (Scored A) → ℕ → ℕ
  smallest_of d i =
      let l = 2 * i + 1 in
      let r = 2 * i + 2 in
      let smallest = if ltb l (length d) && less d l i then l else i in
      if ltb r (length d) && less d r smallest then r else smallest

  -- The index grows, so as many rounds as entries are enough.
  unfoldable pub sink_down : ℕ → ℕ → List (Scored A) → List (Scored A)
  sink_down zero i d = d
  sink_down (suc fuel) i d =
      let smallest = smallest_of d i in
      elim (smallest == i) [ true ↦ d | false ↦ sink_down fuel smallest (swap d smallest i) ]

  unfoldable pub push : ℤ → A → List (Scored A) → List (Scored A)
  push score item d =
      bubble_up (length d) (length d) (d ++ record { score = score; item = item } ∷ [])

  -- The entries but the last, and the last, of a list with a first entry.
  unfoldable pub pop_last : Scored A → List (Scored A) → List (Scored A) × Scored A
  pop_last x [] = ([], x)
  pop_last x (y ∷ ys) = let (rest, last) = pop_last y ys in (x ∷ rest, last)

  unfoldable pub pop : List (Scored A) → Option A × List (Scored A)
  unfolding pop_last sink_down
  pop [] = (none, [])
  pop (x ∷ xs) =
      let (rest, last) = pop_last x xs in (some x.item, sink_down (length rest) 0 (set rest 0 last))

  unfoldable pub peek : List (Scored A) → Option A
  peek [] = none
  peek (x ∷ xs) = some x.item

  unfoldable pub size : List (Scored A) → ℕ
  size d = length d

  unfoldable pub clear : List (Scored A) → List (Scored A)
  clear d = []
