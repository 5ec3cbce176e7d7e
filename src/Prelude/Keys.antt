-- ===== src/Prelude/Keys.antt =====
-- Texts, as the lists of their UTF-16 code units, and the decisions on keys.
use Prim.Native.Nat.{ℕ}
use Prim.Native.Char.{code}
use Prim.Native.String.{String}
use mathlib.Core.Path.{◌≡◌, refl, ap₂}
use mathlib.Core.List.{List, [], ◌∷◌}
use mathlib.Core.Logic.{◌⊎◌, inl, inr}
use native.Mathlib.Decide.{ℕ_discrete}

-- A JavaScript string.
abbrev pub Text : Type 0
Text = List ℕ

-- The code units of a literal (the literals of the program are within the basic plane).
abbrev pub text : String → Text
text String.[] = []
text (String.◌∷◌ c s) = code c ∷ text s

-- What `===` decides on a type of keys.
pub record Key {ℓ} (A : Type ℓ) : Type ℓ where
  pub dec : Discrete A

infix 50 ◌≟◌
abbrev pub ◌≟◌ {ℓ} : {A : Type ℓ} ⦃k : Key A⦄ (a b : A) → Dec (a ≡ b)
◌≟◌ ⦃k⦄ = k.dec

unfoldable pub List-discrete {ℓ} : {A : Type ℓ} → Discrete A → Discrete (List A)
List-discrete d [] [] = yes refl
List-discrete d [] (y ∷ ys) = no (λ e. cc)
List-discrete d (x ∷ xs) [] = no (λ e. cc)
List-discrete d (x ∷ xs) (y ∷ ys) = elim (d x y) [
  | yes p ↦ elim (List-discrete d xs ys) [ yes q ↦ yes (ap₂ ◌∷◌ p q) | no q ↦ no (λ e. q (cc)) ]
  | no p ↦ no (λ e. p (cc))
]

instance abbrev pub nat_key : Key ℕ
nat_key = record { dec = ℕ_discrete }

instance abbrev pub text_key : Key Text
text_key = record { dec = List-discrete ℕ_discrete }

pub Dec-cases {ℓ} : {P : Type ℓ} → Dec P → P ⊎ (¬ P)
Dec-cases (yes p) = inl p
Dec-cases (no p) = inr p

-- Two literals with other code units are other texts.
test_eq : text "ab" ≡ 97 ∷ 98 ∷ []
test_eq = refl
