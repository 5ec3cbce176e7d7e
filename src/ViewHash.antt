-- ===== src/ViewHash.antt =====
-- web/src/lib/viewHash.ts: the FNV-1a hash of a view in 16 hexadecimal digits.
use Prim.Native.Nat.{bit_xor}
use native.Mathlib.Nat.{pow-suc}
use tableverse.Prelude.{
  ℕ, zero, suc, ◌+◌, ◌-◌, ◌*◌, ◌/◌, ◌%◌, ◌^◌, ◌≤◌, ◌<◌, ◌≡◌, List, [], ◌∷◌, ◌++◌, Option, none,
  some, Text, length, length-append, length-replicate, replicate, arith,
}
use tableverse.Prelude.Radix.{
  to_string, pad_start, digits_loop, digit, All, IsDigit, to_string-IsDigit, All-append,
  All-replicate,
}

-- The loop over the code units; `BigInt.asUintN(64, x)` is `x % 2 ^ 64`.
unfoldable pub hash_loop : ℕ → Text → ℕ
hash_loop hash [] = hash
hash_loop hash (c ∷ s) = hash_loop (bit_xor hash c * 0x100000001b3 % 2 ^ 64) s

-- `sourceId ?? ""`
unfoldable pub source_text : Option Text → Text
source_text none = []
source_text (some id) = id

-- The operations enter by their JSON text, which `JSON.stringify` gives.
module _ {Op : Type 0} (stringify : List Op → Text) where
  unfoldable pub compute_view_hash : List Op → Option Text → Text
  compute_view_hash ops source_id =
      let canonical = source_text source_id ++ 0 ∷ stringify ops in
      pad_start 16 48 (to_string 16 (hash_loop 0xcbf29ce484222325 canonical))

hash_loop-lt : (s : Text) (hash : ℕ) → hash < 2 ^ 64 → hash_loop hash s < 2 ^ 64
unfolding hash_loop
hash_loop-lt [] hash h = h
hash_loop-lt (c ∷ s) hash h = hash_loop-lt s _ (omega arith)

length-digits_loop-le :
    (k fuel n : ℕ) (s : Text) → n < 16 ^ suc k → length (digits_loop 16 fuel n s) ≤ suc k + length s
unfolding digits_loop
length-digits_loop-le k zero n s lt = omega arith
length-digits_loop-le zero (suc fuel) n s lt = ground arith
length-digits_loop-le (suc k) (suc fuel) n s lt = ground (
  arith,
  length-digits_loop-le k fuel (n / 16) (digit (n % 16) ∷ s) (omega (arith, pow-suc 16 (suc k))),
)

module _ {Op : Type 0} (stringify : List Op → Text) (ops : List Op) (source_id : Option Text) where
  -- A view hash has exactly 16 code units.
  pub length-compute_view_hash : length (compute_view_hash stringify ops source_id) ≡ 16
  unfolding compute_view_hash pad_start to_string
  length-compute_view_hash =
      let canonical = source_text source_id ++ 0 ∷ stringify ops in
      let hash = hash_loop 0xcbf29ce484222325 canonical in
      let small = hash_loop-lt canonical 0xcbf29ce484222325 (omega arith) in
      omega (
        arith,
        length-append (replicate (16 - length (digits_loop 16 (hash + 1) hash [])) 48)
            (digits_loop 16 (hash + 1) hash []),
        length-replicate {A = ℕ} (16 - length (digits_loop 16 (hash + 1) hash [])) 48,
        length-digits_loop-le 15 (hash + 1) hash [] small,
      )

  -- All of them are digits, so none is the separator of tile keys.
  pub compute_view_hash-IsDigit : All IsDigit (compute_view_hash stringify ops source_id)
  unfolding compute_view_hash pad_start
  compute_view_hash-IsDigit =
      All-append IsDigit (replicate _ 48) _ (All-replicate IsDigit _ 48 (omega arith))
        (to_string-IsDigit 16 _ (omega arith) (omega arith))
