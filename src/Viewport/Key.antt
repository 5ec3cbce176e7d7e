-- ===== src/Viewport/Key.antt =====
-- Tile keys of web/src/lib/viewport.ts.
use tableverse.Prelude.{ℕ, ◌≡◌, ◌≢◌, Text, arith}
use tableverse.Prelude.Radix.{
  to_string, to_string-injective, to_string-IsDigit, cut-injective, All, All-map, IsDigit,
}
use tableverse.Viewport.{tile_key, pos_key}

pub digits_no_colon : (s : Text) → All IsDigit s → All (λ c. 58 ≢ c) s
digits_no_colon s h = All-map s (λ c d. d.2) h

decimal_no_colon : (n : ℕ) → All (λ c. 58 ≢ c) (to_string 10 n)
decimal_no_colon n = digits_no_colon _ (to_string-IsDigit 10 n (omega arith) (omega arith))

pub pos_key-injective : (r c r' c' : ℕ) → pos_key r c ≡ pos_key r' c' → (r ≡ r') × (c ≡ c')
unfolding pos_key
pos_key-injective r c r' c' e =
    let (rows, cols) = cut-injective 58 _ _ _ _ (decimal_no_colon r) (decimal_no_colon r') e in
    (to_string-injective 10 r r' (omega arith) rows, to_string-injective 10 c c' (omega arith) cols)

-- Two tiles have one key only if they are one tile of one view, for view hashes without a colon.
pub tile_key-injective :
    (r c r' c' : ℕ) (h h' : Text)
    → All IsDigit h
    → All IsDigit h'
    → tile_key r c h ≡ tile_key r' c' h'
    → (r ≡ r') × (c ≡ c') × (h ≡ h')
unfolding tile_key
tile_key-injective r c r' c' h h' p q e =
    let (hashes, positions) =
      cut-injective 58 h h' _ _ (digits_no_colon h p) (digits_no_colon h' q) e in
    let (rows, cols) = pos_key-injective r c r' c' positions in (rows, cols, hashes)
