-- ===== src/Prelude/Radix.antt =====
-- `Number.prototype.toString(radix)` and `BigInt.prototype.toString(radix)` on a non-negative
-- integer, `padStart`, and what the texts say of the number.
use native.Mathlib.Nat.{div-add-mod, div-lt_self}
use tableverse.Prelude.{
  ℕ, zero, suc, ◌+◌, ◌-◌, ◌*◌, ◌/◌, ◌%◌, ◌≤◌, ◌<◌, ◌≡◌, ◌≢◌, refl, sym, ap, ◌∙◌, List, [], ◌∷◌,
  ◌++◌, arith, ltb, Text, text, if◌then◌else◌, length, replicate, inl, inr, Bool-cases,
}

-- The code unit of a digit: `0` to `9`, then `a` to `z`.
unfoldable pub digit : ℕ → ℕ
digit d = if ltb d 10 then 48 + d else 87 + d

unfoldable pub digit_value : ℕ → ℕ
digit_value c = if ltb c 58 then c - 48 else c - 87

-- The digits of `n` in front of those at hand. A number below the fuel has rounds enough.
unfoldable pub digits_loop : ℕ → ℕ → ℕ → Text → Text
digits_loop radix zero n acc = acc
digits_loop radix (suc fuel) n acc =
    let rest = digits_loop radix fuel (n / radix) (digit (n % radix) ∷ acc) in
    if ltb n radix then digit n ∷ acc else rest

unfoldable pub to_string : ℕ → ℕ → Text
unfolding digits_loop digit
to_string radix n = digits_loop radix (n + 1) n []

-- `s.padStart(width, c)`
unfoldable pub pad_start : ℕ → ℕ → Text → Text
pad_start width c s = replicate (width - length s) c ++ s

-- The number that a text of digits stands for.
unfoldable pub value_from : ℕ → ℕ → Text → ℕ
value_from radix acc [] = acc
value_from radix acc (c ∷ s) = value_from radix (acc * radix + digit_value c) s

digit_value-digit : (d : ℕ) → digit_value (digit d) ≡ d
unfolding digit digit_value
digit_value-digit d = ground arith

value_from-digits_loop :
    (radix fuel n : ℕ) (s : Text)
    → 1 < radix
    → n < fuel
    → value_from radix 0 (digits_loop radix fuel n s) ≡ value_from radix n s
unfolding value_from digits_loop
value_from-digits_loop radix zero n s big lt = absurd (omega arith)
value_from-digits_loop radix (suc fuel) n s big lt = elim (Bool-cases (ltb n radix)) [
  | inl last ↦ rw last (ap (λ m. value_from radix m s) (omega (arith, digit_value-digit n)))
  | inr more ↦ rw more (
      value_from-digits_loop radix fuel (n / radix) (digit (n % radix) ∷ s) big
        (omega (arith, div-lt_self {n = n} {k = radix} (ground arith) big))
      ∙ ap (λ m. value_from radix m s)
          (omega (arith, digit_value-digit (n % radix), div-add-mod n radix)))
]

-- The digits read back as the number.
pub value_from-to_string : (radix n : ℕ) → 1 < radix → value_from radix 0 (to_string radix n) ≡ n
unfolding to_string value_from
value_from-to_string radix n big = value_from-digits_loop radix (n + 1) n [] big (omega arith)

pub to_string-injective :
    (radix m n : ℕ) → 1 < radix → to_string radix m ≡ to_string radix n → m ≡ n
to_string-injective radix m n big e =
    sym (value_from-to_string radix m big)
    ∙ ap (value_from radix 0) e
    ∙ value_from-to_string radix n big

abbrev pub All {ℓ κ} : {A : Type ℓ} → (A → Type κ) → List A → Type κ
All P [] = Unit
All P (x ∷ xs) = P x × All P xs

-- A code unit that a digit of a radix up to 36 can have: no `:`, no `,`, no `-` and no `|`.
abbrev pub IsDigit : ℕ → Type 0
IsDigit c = (48 ≤ c) × (c ≤ 122) × (58 ≢ c)

digit-IsDigit : (d : ℕ) → d < 36 → IsDigit (digit d)
unfolding digit
digit-IsDigit d h = ground arith

digits_loop-IsDigit :
    (radix fuel n : ℕ) (s : Text)
    → 0 < radix
    → radix ≤ 36
    → All IsDigit s
    → All IsDigit (digits_loop radix fuel n s)
unfolding digits_loop
digits_loop-IsDigit radix zero n s pos small h = h
digits_loop-IsDigit radix (suc fuel) n s pos small h = elim (Bool-cases (ltb n radix)) [
  | inl last ↦ rw last (digit-IsDigit n (ground arith), h)
  | inr more ↦ rw more (
      digits_loop-IsDigit radix fuel (n / radix) (digit (n % radix) ∷ s) pos small
        (digit-IsDigit (n % radix) (grind arith), h))
]

pub to_string-IsDigit : (radix n : ℕ) → 0 < radix → radix ≤ 36 → All IsDigit (to_string radix n)
unfolding to_string
to_string-IsDigit radix n pos small = digits_loop-IsDigit radix (n + 1) n [] pos small tt

-- Two texts that are cut at the first separator are equal part by part.
pub cut-injective :
    (separator : ℕ) (a b x y : Text)
    → All (λ c. separator ≢ c) a
    → All (λ c. separator ≢ c) b
    → a ++ separator ∷ x ≡ b ++ separator ∷ y
    → (a ≡ b) × (x ≡ y)
cut-injective separator [] [] x y p q e = (refl, cc)
cut-injective separator [] (c ∷ b) x y p q e = absurd (q.0 (cc))
cut-injective separator (c ∷ a) [] x y p q e = absurd (p.0 (cc))
cut-injective separator (c ∷ a) (d ∷ b) x y p q e =
    let (same, rest) = cut-injective separator a b x y p.1 q.1 (cc) in (cc, rest)

pub All-map {ℓ κ} :
    {A : Type ℓ} {P Q : A → Type κ} (xs : List A) → ((a : A) → P a → Q a) → All P xs → All Q xs
All-map [] f h = tt
All-map (x ∷ xs) f h = (f x h.0, All-map xs f h.1)

pub All-append {ℓ κ} :
    {A : Type ℓ} (P : A → Type κ) (xs ys : List A) → All P xs → All P ys → All P (xs ++ ys)
All-append P [] ys h k = k
All-append P (x ∷ xs) ys h k = (h.0, All-append P xs ys h.1 k)

pub All-replicate {ℓ κ} :
    {A : Type ℓ} (P : A → Type κ) (n : ℕ) (a : A) → P a → All P (replicate n a)
All-replicate P zero a h = tt
All-replicate P (suc n) a h = (h, All-replicate P n a h)

test_to_string : (to_string 10 2048 ≡ text "2048") × (to_string 16 48879 ≡ text "beef")
unfolding to_string
test_to_string = (refl, refl)
