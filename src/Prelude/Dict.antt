-- ===== src/Prelude/Dict.antt =====
-- The JavaScript `Map` and `Set`: the entries in insertion order. A `set` of a present key keeps its
-- place, and a new key goes to the end.
use mathlib.Core.Logic.{if_pos}
use tableverse.Prelude.{
  ℕ, ◌+◌, ◌≡◌, ◌≢◌, refl, ite, List, [], ◌∷◌, ◌++◌, Option, none, some, Bool, true, false, arith,
  Key, ◌≟◌, length,
}

module _ {ℓ} {K V : Type ℓ} where
  -- The sum of a weight over the entries.
  unfoldable pub total : (V → ℕ) → List (K × V) → ℕ
  total f [] = 0
  total f ((b, v) ∷ m) = f v + total f m

module _ {ℓ} {K V : Type ℓ} ⦃k : Key K⦄ where
  unfoldable pub get : K → List (K × V) → Option V
  get a [] = none
  get a ((b, v) ∷ m) = ite (a ≟ b) (some v) (get a m)

  unfoldable pub has : K → List (K × V) → Bool
  has a [] = false
  has a ((b, v) ∷ m) = ite (a ≟ b) true (has a m)

  unfoldable pub set : K → V → List (K × V) → List (K × V)
  set a v [] = (a, v) ∷ []
  set a v ((b, w) ∷ m) = ite (a ≟ b) ((b, v) ∷ m) ((b, w) ∷ set a v m)

  unfoldable pub delete : K → List (K × V) → List (K × V)
  delete a [] = []
  delete a ((b, w) ∷ m) = ite (a ≟ b) m ((b, w) ∷ delete a m)

  -- No key twice, which every `Map` keeps.
  abbrev pub Distinct : List (K × V) → Type ℓ
  Distinct [] = Unit
  Distinct ((b, v) ∷ m) = (get b m ≡ none) × Distinct m

  pub get-set_self : (a : K) (v : V) (m : List (K × V)) → get a (set a v m) ≡ some v
  unfolding get set
  get-set_self a v [] = if_pos (a ≟ a) refl _ _
  get-set_self a v ((b, w) ∷ m) = ground (arith, get-set_self a v m)

  pub get-set_ne : (a b : K) (v : V) (m : List (K × V)) → a ≢ b → get a (set b v m) ≡ get a m
  unfolding get set
  get-set_ne a b v [] h = ground arith
  get-set_ne a b v ((c, w) ∷ m) h = ground (arith, get-set_ne a b v m h)

  pub get-delete_ne : (a b : K) (m : List (K × V)) → a ≢ b → get a (delete b m) ≡ get a m
  unfolding get delete
  get-delete_ne a b [] h = refl
  get-delete_ne a b ((c, w) ∷ m) h = ground (arith, get-delete_ne a b m h)

  pub get-delete_self : (a : K) (m : List (K × V)) → Distinct m → get a (delete a m) ≡ none
  unfolding get delete
  get-delete_self a [] d = refl
  get-delete_self a ((c, w) ∷ m) d = ground (arith, get-delete_self a m d.1)

  -- Deleting keeps absent keys absent.
  pub get-delete_absent : (a b : K) (m : List (K × V)) → get a m ≡ none → get a (delete b m) ≡ none
  unfolding get delete
  get-delete_absent a b [] h = refl
  get-delete_absent a b ((c, w) ∷ m) h = ground (arith, get-delete_absent a b m)

  pub delete-Distinct : (a : K) (m : List (K × V)) → Distinct m → Distinct (delete a m)
  unfolding delete
  delete-Distinct a [] d = tt
  delete-Distinct a ((c, w) ∷ m) d =
      ground (arith, delete-Distinct a m d.1, get-delete_absent c a m d.0)

  pub set-Distinct : (a : K) (v : V) (m : List (K × V)) → Distinct m → Distinct (set a v m)
  unfolding set get
  set-Distinct a v [] d = (refl, tt)
  set-Distinct a v ((c, w) ∷ m) d = ground (arith, set-Distinct a v m d.1, get-set_ne c a v m)

  pub delete_absent : (a : K) (m : List (K × V)) → get a m ≡ none → delete a m ≡ m
  unfolding get delete
  delete_absent a [] h = refl
  delete_absent a ((c, w) ∷ m) h = ground (arith, delete_absent a m)

  pub length-delete :
      (a : K) (m : List (K × V)) (v : V) → get a m ≡ some v → length (delete a m) + 1 ≡ length m
  unfolding get delete
  length-delete a [] v h = cc
  length-delete a ((c, w) ∷ m) v h = ground (arith, length-delete a m v)

  pub total-delete :
      (f : V → ℕ) (a : K) (m : List (K × V)) (v : V)
      → get a m ≡ some v
      → total f (delete a m) + f v ≡ total f m
  unfolding get delete total
  total-delete f a [] v h = cc
  total-delete f a ((c, w) ∷ m) v h = ground (arith, total-delete f a m v)

  pub total-set :
      (f : V → ℕ) (a : K) (v : V) (m : List (K × V))
      → get a m ≡ none
      → total f (set a v m) ≡ total f m + f v
  unfolding get set total
  total-set f a v [] h = ground arith
  total-set f a v ((c, w) ∷ m) h = ground (arith, total-set f a v m)

-- Presence is a successful read.
module _ {K V : Type 0} ⦃k : Key K⦄ where
  pub has-of_none : (a : K) (m : List (K × V)) → get a m ≡ none → has a m ≡ false
  unfolding has get
  has-of_none a [] h = refl
  has-of_none a ((c, w) ∷ m) h = ground (arith, has-of_none a m)

  pub has-of_some : (a : K) (m : List (K × V)) (v : V) → get a m ≡ some v → has a m ≡ true
  unfolding has get
  has-of_some a [] v h = cc
  has-of_some a ((c, w) ∷ m) v h = ground (arith, has-of_some a m v)

-- A key that the whole map does not have, its tail does not have.
module _ {K V : Type 0} ⦃k : Key K⦄ where
  pub get-tail : (a b : K) (v : V) (m : List (K × V)) → get a ((b, v) ∷ m) ≡ none → get a m ≡ none
  unfolding get
  get-tail a b v m h = ground arith

module _ {ℓ} {K V : Type ℓ} ⦃k : Key K⦄ where
  -- A new key goes to the end.
  pub set_absent :
      (a : K) (v : V) (m : List (K × V)) → get a m ≡ none → set a v m ≡ m ++ (a, v) ∷ []
  unfolding get set
  set_absent a v [] h = refl
  set_absent a v ((c, w) ∷ m) h = ground (arith, set_absent a v m)
