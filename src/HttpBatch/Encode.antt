-- ===== src/HttpBatch/Encode.antt =====
-- What fetchViewTileBatch of web/src/api/http.ts reads of the frames that a server has written.
use tableverse.Prelude.{
  ℕ, ◌/◌, ◌%◌, ◌^◌, ◌≤◌, ◌<◌, ◌≡◌, refl, ap, ◌∙◌, List, [], ◌∷◌, ◌++◌, Option, none, some, true,
  map, length, take, drop, length-append, arith, ltb, ltb→lt, Bool-cases, Option-cases, inl, inr,
}
use tableverse.Prelude.Radix.{All}
use tableverse.HttpBatch.{
  max_ipc_frame_bytes, word, Frame, first_frame, deliver, take_frames, fetch_view_tile_batch, chunk,
  fulfilled,
}
use tableverse.HttpBatch.First.{first_frame-here}
use tableverse.HttpBatch.Split.{
  all_bytes, frames_of, frames_of-some, fetch_view_tile_batch-frames_of,
}

-- The four bytes of a number below 2^32, the lowest first.
unfoldable pub encode_word : ℕ → List ℕ
encode_word n = n % 256 ∷ n / 2 ^ 8 % 256 ∷ n / 2 ^ 16 % 256 ∷ n / 2 ^ 24 % 256 ∷ []

-- A frame: the index of the tile, the number of bytes, and the bytes.
unfoldable pub encode_frame : Frame → List ℕ
unfolding encode_word
encode_frame f = encode_word f.tile_idx ++ encode_word (length f.ipc_bytes) ++ f.ipc_bytes

unfoldable pub encode_frames : List Frame → List ℕ
unfolding encode_frame
encode_frames [] = []
encode_frames (f ∷ fs) = encode_frame f ++ encode_frames fs

-- The index and the number of bytes fit in 32 bits.
abbrev pub Fits : Frame → Type 0
Fits f = (f.tile_idx < 2 ^ 32) × (length f.ipc_bytes < 2 ^ 32)

length-eq_zero : (xs : List ℕ) → length xs ≡ 0 → xs ≡ []
length-eq_zero [] h = refl
length-eq_zero (x ∷ xs) h = absurd (omega arith)

take_all : (xs ys : List ℕ) → take (length xs) (xs ++ ys) ≡ xs
take_all [] ys = refl
take_all (x ∷ xs) ys = ap (x ∷◌) (take_all xs ys)

drop_all : (xs ys : List ℕ) → drop (length xs) (xs ++ ys) ≡ ys
drop_all [] ys = refl
drop_all (x ∷ xs) ys = drop_all xs ys

encode_frame-head :
    (f : Frame) (s : List ℕ)
    → encode_frame f ++ s
      ≡ encode_word f.tile_idx ++ (encode_word (length f.ipc_bytes) ++ (f.ipc_bytes ++ s))
unfolding encode_frame encode_word
encode_frame-head f s = refl

word_first :
    (m n : ℕ) (s : List ℕ) → m < 2 ^ 32 → word (encode_word m ++ (encode_word n ++ s)) 0 ≡ m
unfolding word encode_word
word_first m n s h = omega arith

word_second :
    (m n : ℕ) (s : List ℕ) → n < 2 ^ 32 → word (encode_word m ++ (encode_word n ++ s)) 4 ≡ n
unfolding word encode_word
word_second m n s h = omega arith

first_frame-encode_frame :
    (f : Frame) (s : List ℕ) → Fits f → first_frame (encode_frame f ++ s) ≡ some (f, s)
unfolding encode_frame encode_word
first_frame-encode_frame f s fits =
    let size = length-append f.ipc_bytes s in
    let second = word_second f.tile_idx (length f.ipc_bytes) (f.ipc_bytes ++ s) fits.1 in
    first_frame-here (encode_frame f ++ s) (omega arith) (rw second (omega (arith, size)))
    ∙ rw
        (
          word_first f.tile_idx (length f.ipc_bytes) (f.ipc_bytes ++ s) fits.0,
          second,
          take_all f.ipc_bytes s,
          drop_all f.ipc_bytes s,
        )
        refl

-- Which tiles of some frames reach onTile, in their order.
module _ {T : Type 0} (table_from_ipc : List ℕ → Option T) where
  pub data Reaches : List Frame → List (ℕ × T) → Type 0 where
    over : Reaches [] []
    shown :
        (f : Frame) (t : T) {fs : List Frame} {calls : List (ℕ × T)}
        → 0 < length f.ipc_bytes
        → length f.ipc_bytes ≤ 536870912
        → table_from_ipc f.ipc_bytes ≡ some t
        → Reaches fs calls
        → Reaches (f ∷ fs) ((f.tile_idx, t) ∷ calls)
    empty :
        (f : Frame) {fs : List Frame} {calls : List (ℕ × T)}
        → f.ipc_bytes ≡ []
        → Reaches fs calls
        → Reaches (f ∷ fs) calls
    too_long :
        (f : Frame) {fs : List Frame} {calls : List (ℕ × T)}
        → 536870912 < length f.ipc_bytes
        → Reaches fs calls
        → Reaches (f ∷ fs) calls
    undecoded :
        (f : Frame) {fs : List Frame} {calls : List (ℕ × T)}
        → table_from_ipc f.ipc_bytes ≡ none
        → Reaches fs calls
        → Reaches (f ∷ fs) calls

  -- The calls of onTile for frames, one after the other.
  deliver_all : List Frame → List (ℕ × T)
  deliver_all [] = []
  deliver_all (f ∷ fs) = deliver table_from_ipc f ++ deliver_all fs

  frames_of-encode_frames :
      (fs : List Frame)
      → All Fits fs
      → (frames_of table_from_ipc (encode_frames fs)).0 ≡ deliver_all fs
  unfolding encode_frames deliver_all take_frames
  frames_of-encode_frames [] h = refl
  frames_of-encode_frames (f ∷ fs) h =
      rw
        (
          frames_of-some table_from_ipc (encode_frame f ++ encode_frames fs) (f, encode_frames fs)
              (first_frame-encode_frame f (encode_frames fs) h.0),
          frames_of-encode_frames fs h.1,
        )
        refl

  deliver-Reaches :
      (f : Frame) (fs : List Frame) (calls : List (ℕ × T))
      → Reaches fs calls
      → Reaches (f ∷ fs) (deliver table_from_ipc f ++ calls)
  unfolding deliver
  deliver-Reaches f fs calls rest =
      elim (Bool-cases (ltb max_ipc_frame_bytes (length f.ipc_bytes))) [
        | inl long ↦ rw (deliver, long) (too_long f (ltb→lt _ _ long) rest)
        | inr short ↦ elim (Bool-cases (ltb 0 (length f.ipc_bytes))) [
          | inr none_there ↦
              rw (deliver, short, none_there)
                (empty f (length-eq_zero f.ipc_bytes (ground arith)) rest)
          | inl some_there ↦ elim (Option-cases (table_from_ipc f.ipc_bytes)) [
            | inl broken ↦ rw (deliver, short, some_there, broken) (undecoded f broken rest)
            | inr (t, read) ↦
                rw (deliver, short, some_there, read)
                  (shown f t (ltb→lt _ _ some_there) (ground (arith, short)) read rest)
          ]
        ]
      ]

  deliver_all-Reaches : (fs : List Frame) → Reaches fs (deliver_all fs)
  unfolding deliver_all
  deliver_all-Reaches [] = over
  deliver_all-Reaches (f ∷ fs) = deliver-Reaches f fs (deliver_all fs) (deliver_all-Reaches fs)

  -- Where the chunks of a response are the frames of tiles, cut in any way, with numbers that fit in 32
  -- bits, the promise is fulfilled and onTile is called for each tile in their order, but for those that
  -- are empty, pass 512 MB or do not decode.
  pub fetch_view_tile_batch-encode_frames :
      (status : ℕ) (cs : List (List ℕ)) (fs : List Frame)
      → All Fits fs
      → all_bytes cs ≡ encode_frames fs
      → (calls : List (ℕ × T)) × (fetch_view_tile_batch table_from_ipc
            (record { ok = true; status = status; body = some (map chunk cs) })
          ≡ (calls, fulfilled))
        × Reaches fs calls
  fetch_view_tile_batch-encode_frames status cs fs fits e = (
    deliver_all fs,
    fetch_view_tile_batch-frames_of table_from_ipc status cs
        ∙ rw (e, frames_of-encode_frames fs fits) refl,
    deliver_all-Reaches fs,
  )
