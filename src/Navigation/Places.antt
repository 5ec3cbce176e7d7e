-- ===== src/Navigation/Places.antt =====
-- Where the keys of web/src/hooks/useKeyboard.ts that move should lead, and what the handler finds of the
-- landmarks.
use Prim.Native.Nat.{min}
use tableverse.Prelude.{
  ℕ, ◌+◌, ◌-◌, ◌*◌, ◌≤◌, ◌<◌, ◌≡◌, refl, ap, ◌⊎◌, List, [], ◌∷◌, ◌++◌, none, some, Bool, true,
  false, ltb, if◌then◌else◌, arith, inl, inr, Bool-cases,
}
use tableverse.Prelude.Radix.{All}
use tableverse.Navigation.Keyboard.{
  Key, next_row, prev_row, arrow_right, arrow_left, arrow_down, arrow_up, home, end, page_down,
  page_up,
}

-- The keys that move: arrows, Home, End and the pages.
pub data IsMove : Key → Type 0 where
  right : IsMove arrow_right
  left : IsMove arrow_left
  down : IsMove arrow_down
  up : IsMove arrow_up
  first : IsMove home
  last : IsMove end
  next : IsMove page_down
  previous : IsMove page_up

-- A position and what is around it: the size of a cell, the height of the window, the last position that
-- navigateTo leads to, the last one for the whole window, and the rows with landmarks.
pub record Place : Type 0 where
  pub x : ℕ
  pub y : ℕ
  pub cell_w : ℕ
  pub cell_h : ℕ
  pub height : ℕ
  pub last_x : ℕ
  pub last_y : ℕ
  pub end_x : ℕ
  pub end_y : ℕ
  pub landmarks : List ℕ

-- The first landmark that is more than a row below, at `r`, leads to `y`; without one the position stays.
abbrev pub LeadsDown : Place → ℕ → Type 0
LeadsDown p y =
    (All (λ q. q * p.cell_h ≤ p.y + p.cell_h) p.landmarks × (y ≡ p.y))
    ⊎ ((r : ℕ) × (before : List ℕ) × (after : List ℕ) × (p.landmarks ≡ before ++ r ∷ after)
        × All (λ q. q * p.cell_h ≤ p.y + p.cell_h) before
        × (p.y + p.cell_h < r * p.cell_h)
        × (y ≡ min p.last_y (r * p.cell_h)))

-- The last landmark that is more than a row above, at `r`, is where the position goes.
abbrev pub LeadsUp : Place → ℕ → Type 0
LeadsUp p y =
    (All (λ q. p.y ≤ q * p.cell_h + p.cell_h) p.landmarks × (y ≡ p.y))
    ⊎ ((r : ℕ) × (before : List ℕ) × (after : List ℕ) × (p.landmarks ≡ before ++ r ∷ after)
        × All (λ q. p.y ≤ q * p.cell_h + p.cell_h) after
        × (r * p.cell_h + p.cell_h < p.y)
        × (y ≡ r * p.cell_h))

-- Where a key leads, by the keys that are held: control or command, and shift.
abbrev pub Leads : Place → Key → Bool → Bool → ℕ → ℕ → Type 0
Leads p arrow_right held shift x y =
    (x ≡ min p.end_x (p.x + (if held then 10 else 1) * p.cell_w)) × (y ≡ p.y)
Leads p arrow_left held shift x y = (x ≡ p.x - (if held then 10 else 1) * p.cell_w) × (y ≡ p.y)
Leads p arrow_down true shift x y = (x ≡ p.x) × LeadsDown p y
Leads p arrow_down false shift x y = (x ≡ p.x) × (y ≡ min p.last_y (min p.end_y (p.y + p.cell_h)))
Leads p arrow_up true shift x y = (x ≡ p.x) × LeadsUp p y
Leads p arrow_up false shift x y = (x ≡ p.x) × (y ≡ p.y - p.cell_h)
Leads p home held shift x y = (x ≡ 0) × (y ≡ (if held then 0 else p.y))
Leads p end held shift x y = (x ≡ p.end_x) × (y ≡ (if held then min p.last_y p.end_y else p.y))
Leads p page_down held shift x y =
    (x ≡ p.x) × (y ≡ min p.last_y (min p.end_y (p.y + (if shift then 10 else 1) * p.height)))
Leads p page_up held shift x y = (x ≡ p.x) × (y ≡ p.y - (if shift then 10 else 1) * p.height)
Leads p other held shift x y = Unit

-- What `find` returns of the landmarks.
pub next_row_lem :
    (rows : List ℕ) (h y : ℕ)
    → ((next_row rows h y ≡ none) × All (λ q. q * h ≤ y + h) rows)
      ⊎ ((r : ℕ) × (before : List ℕ) × (after : List ℕ) × (next_row rows h y ≡ some r)
          × (rows ≡ before ++ r ∷ after)
          × All (λ q. q * h ≤ y + h) before
          × (y + h < r * h))
unfolding next_row
next_row_lem [] h y = inl (refl, tt)
next_row_lem (q ∷ rows) h y = elim (Bool-cases (ltb (y + h) (q * h))) [
  | inl below ↦ inr (q, [], rows, rw below refl, refl, tt, ground (arith, below))
  | inr above ↦ elim (next_row_lem rows h y) [
    | inl (out, all) ↦ inl (rw above out, (ground (arith, above), all))
    | inr (r, before, after, found, is, all, far) ↦
        inr (r, q ∷ before, after, rw above found, ap (q ∷◌) is, (ground (arith, above), all), far)
  ]
]

pub prev_row_lem :
    (rows : List ℕ) (h y : ℕ)
    → ((prev_row rows h y ≡ none) × All (λ q. y ≤ q * h + h) rows)
      ⊎ ((r : ℕ) × (before : List ℕ) × (after : List ℕ) × (prev_row rows h y ≡ some r)
          × (rows ≡ before ++ r ∷ after)
          × All (λ q. y ≤ q * h + h) after
          × (r * h + h < y))
unfolding prev_row
prev_row_lem [] h y = inl (refl, tt)
prev_row_lem (q ∷ rows) h y = elim (prev_row_lem rows h y) [
  | inr (r, before, after, found, is, all, far) ↦
      inr (r, q ∷ before, after, rw found refl, ap (q ∷◌) is, all, far)
  | inl (out, all) ↦ elim (Bool-cases (ltb (q * h + h) y)) [
    | inl above ↦ inr (q, [], rows, rw (out, above) refl, refl, all, ground (arith, above))
    | inr below ↦ inl (rw (out, below) refl, (ground (arith, below), all))
  ]
]
