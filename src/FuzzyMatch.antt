-- ===== src/FuzzyMatch.antt =====
-- web/src/lib/fuzzyMatch.ts: fuzzyMatch. `lower` is toLowerCase; a score is a numerator and a
-- denominator, which is 0 where the source divides by the length of an empty text.
use tableverse.Prelude.{ℕ, ◌+◌, [], ◌∷◌, Bool, true, ◌==◌, if◌then◌else◌, length, Text}
use tableverse.ClientIndex.{includes}

pub record Match : Type 0 where
  pub score : ℕ × ℕ
  pub matched : Bool

-- The loop: how many units of the query stand in the text, in order.
unfoldable pub in_order : Text → Text → ℕ
in_order [] t = 0
in_order (c ∷ q) [] = 0
in_order (c ∷ q) (d ∷ t) =
    let found = in_order q t in
    let passed = in_order (c ∷ q) t in if c == d then found + 1 else passed

unfoldable pub fuzzy_match : (Text → Text) → Text → Text → Match
unfolding in_order
fuzzy_match lower [] text = record { score = (1, 1); matched = true }
fuzzy_match lower (c ∷ query) text =
    let q = lower (c ∷ query) in
    let t = lower text in
    if includes q t
    then record { score = (length q + length t, length t); matched = true }
    else record { score = (in_order q t, length text); matched = in_order q t == length q }
