-- ===== src/SqlBuilder/Lex.antt =====
-- How SQL reads quotes: what of a text stands outside of names and string literals. A doubled quote
-- leaves its literal and enters it again, with nothing between.
use tableverse.Prelude.{
  ℕ, ◌≡◌, ◌≢◌, refl, sym, ap, ◌∙◌, List, [], ◌∷◌, ◌++◌, map, Text, arith, ◌==◌, if◌then◌else◌, inl,
  inr, Bool-cases,
}
use tableverse.Prelude.Radix.{All}
use tableverse.SqlBuilder.{replace_char, q, quote_text, escape_like, join}

pub data Mode : Type 0 where
  code name string : Mode

unfoldable pub next : Mode → ℕ → Mode
next code c = if c == 34 then name else if c == 39 then string else code
next name c = if c == 34 then code else name
next string c = if c == 39 then code else string

-- A code unit outside of quotes, which is not a quote.
unfoldable pub emitted : Mode → ℕ → Text
emitted code c = if c == 34 then [] else if c == 39 then [] else c ∷ []
emitted name c = []
emitted string c = []

unfoldable pub outside : Mode → Text → Text
unfolding next emitted
outside m [] = []
outside m (c ∷ s) = emitted m c ++ outside (next m c) s

-- The mode at the end of a text.
unfoldable pub after : Mode → Text → Mode
unfolding next
after m [] = m
after m (c ∷ s) = after (next m c) s

pub append_assoc : (xs ys zs : Text) → (xs ++ ys) ++ zs ≡ xs ++ (ys ++ zs)
append_assoc [] ys zs = refl
append_assoc (x ∷ xs) ys zs = ap (x ∷◌) (append_assoc xs ys zs)

pub after-append : (m : Mode) (s t : Text) → after m (s ++ t) ≡ after (after m s) t
unfolding after
after-append m [] t = refl
after-append m (c ∷ s) t = after-append (next m c) s t

pub outside-append :
    (m : Mode) (s t : Text) → outside m (s ++ t) ≡ outside m s ++ outside (after m s) t
unfolding outside after
outside-append m [] t = refl
outside-append m (c ∷ s) t =
    ap (λ r. emitted m c ++ r) (outside-append (next m c) s t)
    ∙ sym (append_assoc (emitted m c) (outside (next m c) s) (outside (after (next m c) s) t))

-- Two texts with their quotes closed and the same code outside of quotes.
pub record Same (s t : Text) : Type 0 where
  pub same_code : outside code s ≡ outside code t
  pub closed_left : after code s ≡ code
  pub closed_right : after code t ≡ code

pub Same-append : {s t : Text} {u v : Text} → Same s t → Same u v → Same (s ++ u) (t ++ v)
Same-append {s = s} {t = t} {u = u} {v = v} a b = record {
  same_code = rw (
    outside-append code s u,
    outside-append code t v,
    a.closed_left,
    a.closed_right,
    a.same_code,
    b.same_code,
  );
  closed_left = rw (after-append code s u, a.closed_left, b.closed_left);
  closed_right = rw (after-append code t v, a.closed_right, b.closed_right);
}

-- A text that closes its quotes.
pub Same-refl : (s : Text) → after code s ≡ code → Same s s
Same-refl s h = record { same_code = refl; closed_left = h; closed_right = h }

-- A text that stays in a mode and gives no code.
pub record Inert (m : Mode) (s : Text) : Type 0 where
  pub no_code : outside m s ≡ []
  pub stays : after m s ≡ m

pub Same-Inert :
    (m : Mode) (a b behind s t : Text)
    → outside code a ≡ outside code b
    → after code a ≡ m
    → after code b ≡ m
    → after m behind ≡ code
    → Inert m s
    → Inert m t
    → Same (a ++ s ++ behind) (b ++ t ++ behind)
Same-Inert m a b behind s t before left right leaves p r = record {
  same_code = rw (
    outside-append code (a ++ s) behind,
    outside-append code (b ++ t) behind,
    outside-append code a s,
    outside-append code b t,
    after-append code a s,
    after-append code b t,
    left,
    right,
    p.stays,
    r.stays,
    p.no_code,
    r.no_code,
    before,
  );
  closed_left =
      rw (after-append code (a ++ s) behind, after-append code a s, left, p.stays, leaves);
  closed_right =
      rw (after-append code (b ++ t) behind, after-append code b t, right, r.stays, leaves);
}

Inert-next :
    (m : Mode) (c : ℕ) (s : Text) → emitted m c ≡ [] → next m c ≡ m → Inert m s → Inert m (c ∷ s)
unfolding outside after
Inert-next m c s e n h = record { no_code = rw (e, n, h.no_code); stays = rw (n, h.stays) }

replace_name-Inert : (s : Text) → Inert name (replace_char 34 (34 ∷ 34 ∷ []) s)
unfolding replace_char outside after next
replace_name-Inert [] = record { no_code = refl; stays = refl }
replace_name-Inert (c ∷ s) = elim (Bool-cases (c == 34)) [
  | inl quote ↦
      rw quote
        (record { no_code = (replace_name-Inert s).no_code; stays = (replace_name-Inert s).stays })
  | inr other ↦ rw other (Inert-next name c _ refl (rw (other) refl) (replace_name-Inert s))
]

replace_string-Inert : (s : Text) → Inert string (replace_char 39 (39 ∷ 39 ∷ []) s)
unfolding replace_char outside after next
replace_string-Inert [] = record { no_code = refl; stays = refl }
replace_string-Inert (c ∷ s) = elim (Bool-cases (c == 39)) [
  | inl quote ↦ rw quote (record {
    no_code = (replace_string-Inert s).no_code;
    stays = (replace_string-Inert s).stays;
  })
  | inr other ↦ rw other (Inert-next string c _ refl (rw (other) refl) (replace_string-Inert s))
]

-- A value of LIKE, where it has no single quote.
pub escape_like-Inert : (s : Text) → All (λ c. 39 ≢ c) s → Inert string (escape_like s)
unfolding escape_like next outside after
escape_like-Inert [] h = record { no_code = refl; stays = refl }
escape_like-Inert (c ∷ s) h =
    let rest = escape_like-Inert s h.1 in
    let kept = Inert-next string c (escape_like s) refl (ground arith) rest in
    let behind_backslash = Inert-next string 92 (c ∷ escape_like s) refl refl kept in
    elim (Bool-cases (c == 92)) [
      | inl a ↦ rw a behind_backslash
      | inr a ↦ elim (Bool-cases (c == 37)) [
        | inl b ↦ rw (a, b) behind_backslash
        | inr b ↦ elim (Bool-cases (c == 95)) [
          | inl d ↦ rw (a, b, d) behind_backslash
          | inr d ↦ rw (a, b, d) kept
        ]
      ]
    ]

-- Names between double quotes, whatever they are.
pub q-Same : (s t : Text) → Same (q s) (q t)
unfolding q after
q-Same s t =
    Same-Inert name (34 ∷ []) (34 ∷ []) (34 ∷ []) _ _ refl refl refl refl (replace_name-Inert s)
      (replace_name-Inert t)

pub quote_text-Same : (s t : Text) → Same (quote_text s) (quote_text t)
unfolding quote_text after
quote_text-Same s t =
    Same-Inert string (39 ∷ []) (39 ∷ []) (39 ∷ []) _ _ refl refl refl refl (replace_string-Inert s)
      (replace_string-Inert t)

-- The SQL of a template, part by part.
infixl 55 ◌⊕◌
abbrev pub ◌⊕◌ : {s t : Text} {u v : Text} → Same s t → Same u v → Same (s ++ u) (t ++ v)
a ⊕ b = Same-append a b

pub Same-sym : {s t : Text} → Same s t → Same t s
Same-sym h = record {
  same_code = sym h.same_code;
  closed_left = h.closed_right;
  closed_right = h.closed_left;
}

-- A list of parts, each the same but for what is quoted.
abbrev pub AllSame : List Text → List Text → Type 0
AllSame [] [] = Unit
AllSame [] (y ∷ ys) = ⊥
AllSame (x ∷ xs) [] = ⊥
AllSame (x ∷ xs) (y ∷ ys) = Same x y × AllSame xs ys

pub join-Same :
    (separator : Text) (xs ys : List Text)
    → Same separator separator
    → AllSame xs ys
    → Same (join separator xs) (join separator ys)
unfolding join after
join-Same separator [] [] h k = Same-refl [] refl
join-Same separator [] (y ∷ ys) h k = absurd k
join-Same separator (x ∷ xs) [] h k = absurd k
join-Same separator (x ∷ []) (y ∷ []) h k = k.0
join-Same separator (x ∷ []) (y ∷ z ∷ ys) h k = absurd k.1
join-Same separator (x ∷ w ∷ xs) (y ∷ []) h k = absurd k.1
join-Same separator (x ∷ w ∷ xs) (y ∷ z ∷ ys) h k =
    k.0 ⊕ h ⊕ join-Same separator (w ∷ xs) (z ∷ ys) h k.1

pub map-AllSame {ℓ} :
    {A : Type ℓ} (f : A → Text) (g : A → A) (xs : List A)
    → ((a : A) → Same (f a) (f (g a)))
    → AllSame (map f xs) (map f (map g xs))
map-AllSame f g [] h = tt
map-AllSame f g (x ∷ xs) h = (h x, map-AllSame f g xs h)
