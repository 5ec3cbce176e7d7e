-- ===== src/Navigation/Words.antt =====
-- The tests and the parsers of texts that web/src/hooks/useNavigationBar.ts uses.
use tableverse.Prelude.{
  ℕ, zero, suc, ◌-◌, [], ◌∷◌, Option, none, some, Bool, true, false, ◌&&◌, ◌||◌, leb, ◌==◌,
  if◌then◌else◌, Text, text_key, length, take,
}
use tableverse.Prelude.Int.{ℤ, pos, negsuc}
use tableverse.Prelude.Radix.{value_from}

-- The white space of `trim`.
unfoldable pub is_space : ℕ → Bool
is_space c =
    (leb 9 c && leb c 13)
    || c == 32
    || c == 160
    || c == 5760
    || (leb 8192 c && leb c 8202)
    || c == 8232
    || c == 8233
    || c == 8239
    || c == 8287
    || c == 12288
    || c == 65279

unfoldable pub trim_start : Text → Text
trim_start [] = []
trim_start (c ∷ s) = let rest = trim_start s in if is_space c then rest else c ∷ s

unfoldable pub trim_end : Text → Text
trim_end [] = []
trim_end (c ∷ s) = elim (trim_end s) [
  | [] ↦ if is_space c then [] else c ∷ []
  | d ∷ rest ↦ c ∷ d ∷ rest
]

unfoldable pub trim : Text → Text
unfolding trim_start trim_end
trim s = trim_end (trim_start s)

unfoldable pub is_digit : ℕ → Bool
is_digit c = leb 48 c && leb c 57

-- `/^\d*$/`
unfoldable pub all_digits : Text → Bool
unfolding is_digit
all_digits [] = true
all_digits (c ∷ s) = is_digit c && all_digits s

-- `/^\d+$/`
unfoldable pub is_number : Text → Bool
unfolding all_digits
is_number [] = false
is_number (c ∷ s) = all_digits (c ∷ s)

-- The digits in front.
unfoldable pub digits_of : Text → Text
unfolding is_digit
digits_of [] = []
digits_of (c ∷ s) = let rest = digits_of s in if is_digit c then c ∷ rest else []

unfoldable pub number_of : Text → Option ℕ
number_of [] = none
number_of (c ∷ s) = some (value_from 10 0 (c ∷ s))

unfoldable pub negate : Option ℕ → Option ℤ
negate none = none
negate (some zero) = some (pos 0)
negate (some (suc n)) = some (negsuc n)

-- `parseInt(s, 10)` of a trimmed text, `none` for NaN.
unfoldable pub parse_int : Text → Option ℤ
unfolding digits_of number_of negate
parse_int [] = none
parse_int (c ∷ s) =
    if c == 45
    then negate (number_of (digits_of s))
    else if c == 43
    then elim (number_of (digits_of s)) [ none ↦ none | some n ↦ some (pos n) ]
    else elim (number_of (digits_of (c ∷ s))) [ none ↦ none | some n ↦ some (pos n) ]

-- `s.endsWith("%")`
unfoldable pub ends_percent : Text → Bool
ends_percent [] = false
ends_percent (c ∷ []) = c == 37
ends_percent (c ∷ d ∷ s) = ends_percent (d ∷ s)

-- `/^\d+%$/`
unfoldable pub is_percent : Text → Bool
unfolding is_number ends_percent
is_percent s = ends_percent s && is_number (take (length s - 1) s)

-- The part before the first colon and the part behind it up to the next, if there is a colon.
unfoldable pub before_colon : Text → Text
before_colon [] = []
before_colon (c ∷ s) = let rest = before_colon s in if c == 58 then [] else c ∷ rest

unfoldable pub split_colon : Text → Option (Text × Text)
unfolding before_colon
split_colon [] = none
split_colon (c ∷ s) =
    let rest = split_colon s in
    if c == 58
    then some ([], before_colon s)
    else elim rest [ none ↦ none | some parts ↦ some (c ∷ parts.0, parts.1) ]
