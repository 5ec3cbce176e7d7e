-- ===== src/ColorScales.antt =====
-- web/src/lib/color-scales.ts: the hash of texts and the colours of categories, and the colours of
-- bookmarks in web/src/stores/bookmarkStore.ts, which rest on them.
use Prim.Native.Nat.{bit_xor}
use tableverse.Prelude.{
  ℕ, ◌*◌, ◌%◌, ◌^◌, List, [], ◌∷◌, ◌++◌, Option, none, some, Text, text, get_elem?, map,
}
use tableverse.Prelude.Radix.{to_string}
use tableverse.Stores.Bookmarks.{to_hex}

pub record Color : Type 0 where
  pub r : ℕ
  pub g : ℕ
  pub b : ℕ

abbrev pub color : ℕ → ℕ → ℕ → Color
color r g b = record { r = r; g = g; b = b }

abbrev pub okabe_ito : List Color
okabe_ito =
    color 230 159 0
    ∷ color 86 180 233
    ∷ color 0 158 115
    ∷ color 240 228 66
    ∷ color 0 114 178
    ∷ color 213 94 0
    ∷ color 204 121 167
    ∷ color 0 0 0
    ∷ color 153 153 153
    ∷ color 230 25 75
    ∷ color 60 180 75
    ∷ color 67 99 216
    ∷ []

-- `OKABE_ITO[Math.abs(hash) % 12]!`, of a hash that is not negative.
unfoldable pub categorical_color : ℕ → Option Color
categorical_color hash = get_elem? okabe_ito (hash % 12)

-- `(h << 5) + h` on 32 bits is `h * 33` modulo 2^32; the mask leaves 31 of them.
unfoldable pub djb2_loop : ℕ → Text → ℕ
djb2_loop h [] = h
djb2_loop h (c ∷ s) = djb2_loop (bit_xor (h * 33 % 2 ^ 32) c % 2 ^ 31) s

unfoldable pub djb2 : Text → ℕ
unfolding djb2_loop
djb2 s = djb2_loop 5381 s

unfoldable pub hex_of : Option Color → Text
hex_of none = []
hex_of (some c) = to_hex c.r c.g c.b

unfoldable pub bookmark_color : ℕ → Text
unfolding hex_of categorical_color djb2
bookmark_color i = hex_of (categorical_color (djb2 (text "bm" ++ to_string 10 i)))

unfoldable pub bookmark_colors : List Text
unfolding bookmark_color
bookmark_colors = map bookmark_color (0 ∷ 1 ∷ 2 ∷ 3 ∷ 4 ∷ 5 ∷ 6 ∷ 7 ∷ [])
