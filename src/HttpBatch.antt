-- ===== src/HttpBatch.antt =====
-- web/src/api/http.ts: fetchViewTileBatch, which reads the frames of a batch of tiles from the chunks of
-- a response. `T` is the type of tables and `table_from_ipc` is `tableFromIPC`, `none` where it throws.
mod First
pub mod Split
pub mod Failure
pub mod Encode
use tableverse.Prelude.{
  ℕ, zero, suc, ◌+◌, ◌*◌, ◌^◌, List, [], ◌∷◌, ◌++◌, Option, none, some, Bool, true, false, ◌&&◌,
  ltb, leb, if◌then◌else◌, length, get_or, take, drop,
}

abbrev pub max_ipc_frame_bytes : ℕ
max_ipc_frame_bytes = 512 * 1024 * 1024

-- Four bytes from a place on, the lowest first; a byte is below 256, so the shifted bits do not meet.
unfoldable pub word : List ℕ → ℕ → ℕ
word pending i =
    get_or pending i 0
    + get_or pending (i + 1) 0 * 2 ^ 8
    + get_or pending (i + 2) 0 * 2 ^ 16
    + get_or pending (i + 3) 0 * 2 ^ 24

pub record Frame : Type 0 where
  pub tile_idx : ℕ
  pub ipc_bytes : List ℕ

-- The first frame and what is behind it, if all of it is there.
unfoldable pub first_frame : List ℕ → Option (Frame × List ℕ)
unfolding word
first_frame pending =
    let ipc_len = word pending 4 in
    if leb 8 (length pending) && leb (8 + ipc_len) (length pending)
    then some (
      record { tile_idx = word pending 0; ipc_bytes = take ipc_len (drop 8 pending) },
      drop ipc_len (drop 8 pending),
    )
    else none

-- What a promise of fetchViewTileBatch settles with.
pub data Outcome : Type 0 where
  fulfilled : Outcome
  bad_status : ℕ → Outcome
  read_failed : Outcome

-- A call of `reader.read()`. The end of a list of them is `done`.
pub data Read : Type 0 where
  chunk : List ℕ → Read
  failure : Read

pub record Response : Type 0 where
  pub ok : Bool
  pub status : ℕ
  pub body : Option (List Read)

module _ {T : Type 0} (table_from_ipc : List ℕ → Option T) where
  -- The call of `onTile` for a frame, if there is one.
  unfoldable pub deliver : Frame → List (ℕ × T)
  deliver f =
      let ipc_len = length f.ipc_bytes in
      elim (ltb max_ipc_frame_bytes ipc_len) [
        | true ↦ []
        | false ↦ elim (ltb 0 ipc_len) [
          | false ↦ []
          | true ↦ elim (table_from_ipc f.ipc_bytes) [ none ↦ [] | some t ↦ (f.tile_idx, t) ∷ [] ]
        ]
      ]

  -- The loop over the frames of the pending bytes: the calls, and the bytes that are left. Each round
  -- takes 8 bytes or more, so as many rounds as bytes are enough.
  unfoldable pub take_frames : ℕ → List ℕ → List (ℕ × T) × List ℕ
  unfolding deliver
  take_frames zero pending = ([], pending)
  take_frames (suc fuel) pending = elim (first_frame pending) [
    | none ↦ ([], pending)
    | some found ↦ (deliver found.0 ++ (take_frames fuel found.1).0, (take_frames fuel found.1).1)
  ]

  -- The loop over the chunks. Bytes of an unfinished frame at the end are dropped.
  unfoldable pub read_chunks : List ℕ → List Read → List (ℕ × T) × Outcome
  unfolding take_frames
  read_chunks pending [] = ([], fulfilled)
  read_chunks pending (failure ∷ reads) = ([], read_failed)
  read_chunks pending (chunk value ∷ reads) =
      let merged = pending ++ value in
      let (tiles, left) = take_frames (length merged) merged in
      (tiles ++ (read_chunks left reads).0, (read_chunks left reads).1)

  -- The calls of `onTile` in their order, and the outcome.
  unfoldable pub fetch_view_tile_batch : Response → List (ℕ × T) × Outcome
  unfolding read_chunks
  fetch_view_tile_batch res = elim res.ok [
    | false ↦ ([], bad_status res.status)
    | true ↦ elim res.body [
      | none ↦ ([], bad_status res.status)
      | some reads ↦ read_chunks [] reads
    ]
  ]
