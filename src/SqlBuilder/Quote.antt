-- ===== src/SqlBuilder/Quote.antt =====
-- A quoted name reads back as the name.
use tableverse.Prelude.{
  ℕ, ◌≡◌, ◌≢◌, refl, ap, ◌∙◌, Option, none, some, [], ◌∷◌, ◌++◌, true, false, Text, arith, ◌==◌,
  if◌then◌else◌, inl, inr, Bool-cases,
}
use tableverse.SqlBuilder.{replace_char, q, quote_text}
use tableverse.SqlBuilder.Lex.{append_assoc}

-- How SQL reads a quoted part behind its opening quote: a doubled quote is a quote, a single one ends
-- the part. It gives the part and the text behind it.
unfoldable mutual
  pub read_quoted : ℕ → Text → Text × Text
  read_quoted c [] = ([], [])
  read_quoted c (x ∷ s) = elim (x == c) [
    | true ↦ read_after_quote c s
    | false ↦ (x ∷ (read_quoted c s).0, (read_quoted c s).1)
  ]

  pub read_after_quote : ℕ → Text → Text × Text
  read_after_quote c [] = ([], [])
  read_after_quote c (x ∷ s) = elim (x == c) [
    | true ↦ (c ∷ (read_quoted c s).0, (read_quoted c s).1)
    | false ↦ ([], x ∷ s)
  ]

-- What stands behind a quoted part does not continue it.
unfoldable pub Ends : ℕ → Text → Type 0
Ends c [] = Unit
Ends c (x ∷ s) = x ≢ c

read_after_quote-Ends : (c : ℕ) (s : Text) → Ends c s → read_after_quote c s ≡ ([], s)
unfolding read_after_quote Ends
read_after_quote-Ends c [] h = refl
read_after_quote-Ends c (x ∷ s) h = ground arith

==_self : (c : ℕ) → (c == c) ≡ true
==_self c = ground arith

read_quoted-quote : (c : ℕ) (s : Text) → read_quoted c (c ∷ s) ≡ read_after_quote c s
unfolding read_quoted
read_quoted-quote c s = ground arith

read_quoted-doubled :
    (c : ℕ) (s : Text) → read_quoted c (c ∷ c ∷ s) ≡ (c ∷ (read_quoted c s).0, (read_quoted c s).1)
unfolding read_after_quote
read_quoted-doubled c s = read_quoted-quote c (c ∷ s) ∙ rw (read_after_quote, ==_self c)

read_quoted-other :
    (c x : ℕ) (s : Text)
    → (x == c) ≡ false
    → read_quoted c (x ∷ s) ≡ (x ∷ (read_quoted c s).0, (read_quoted c s).1)
unfolding read_quoted
read_quoted-other c x s h = rw (read_quoted, h)

read_quoted-replace_char :
    (c : ℕ) (s rest : Text)
    → Ends c rest
    → read_quoted c (replace_char c (c ∷ c ∷ []) s ++ c ∷ rest) ≡ (s, rest)
unfolding replace_char
read_quoted-replace_char c [] rest h = read_quoted-quote c rest ∙ read_after_quote-Ends c rest h
read_quoted-replace_char c (x ∷ s) rest h = elim (Bool-cases (x == c)) [
  | inl quote ↦ rw quote (
      read_quoted-doubled c _
      ∙ rw (read_quoted-replace_char c s rest h) (ap (λ y. (y ∷ s, rest)) (ground (arith, quote))))
  | inr other ↦ rw other (read_quoted-other c x _ other ∙ rw (read_quoted-replace_char c s rest h))
]

-- A quoted part with its opening quote.
unfoldable pub read_part : ℕ → Text → Option (Text × Text)
unfolding read_quoted read_after_quote
read_part c [] = none
read_part c (x ∷ s) = if x == c then some (read_quoted c s) else none

-- SQL reads a quoted name and a quoted text value back as they are, where the next code unit is not the
-- quote.
pub read_part-q :
    (s rest : Text)
    → (Ends 34 rest → read_part 34 (q s ++ rest) ≡ some (s, rest))
      × (Ends 39 rest → read_part 39 (quote_text s ++ rest) ≡ some (s, rest))
unfolding read_part q quote_text
read_part-q s rest = (
  λ h.
      rw (append_assoc (replace_char 34 (34 ∷ 34 ∷ []) s) (34 ∷ []) rest)
        (ap some (read_quoted-replace_char 34 s rest h)),
  λ h.
      rw (append_assoc (replace_char 39 (39 ∷ 39 ∷ []) s) (39 ∷ []) rest)
        (ap some (read_quoted-replace_char 39 s rest h)),
)
