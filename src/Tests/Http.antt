-- ===== src/Tests/Http.antt =====
-- The frames of a batch of tiles on small inputs.
use tableverse.Prelude.{◌++◌, none, ℕ, ◌≡◌, refl, List, [], ◌∷◌, some, true, map, arith}
use tableverse.HttpBatch.{
  failure, read_failed, Frame, fetch_view_tile_batch, chunk, fulfilled, read_chunks, take_frames,
  first_frame, deliver, word,
}
use tableverse.HttpBatch.Failure.{fetch_view_tile_batch-failure, first_frame-take_frames}
use tableverse.HttpBatch.Split.{all_bytes, fetch_view_tile_batch-chunks}
use tableverse.HttpBatch.Encode.{
  encode_frame, encode_frames, encode_word, Reaches, fetch_view_tile_batch-encode_frames,
}

abbrev two_frames : List Frame
two_frames =
    record { tile_idx = 1; ipc_bytes = 7 ∷ 8 ∷ [] }
    ∷ record { tile_idx = 0; ipc_bytes = 9 ∷ [] }
    ∷ []

-- Cut inside of the first header and inside of the second.
abbrev cut_bytes : List (List ℕ)
cut_bytes =
    (1 ∷ 0 ∷ 0 ∷ [])
    ∷ (0 ∷ 2 ∷ 0 ∷ 0 ∷ 0 ∷ 7 ∷ 8 ∷ 0 ∷ 0 ∷ 0 ∷ 0 ∷ 1 ∷ [])
    ∷ (0 ∷ 0 ∷ 0 ∷ 9 ∷ [])
    ∷ []

called :
    fetch_view_tile_batch {T = List ℕ} some
      (record { ok = true; status = 200; body = some (map chunk cut_bytes) })
    ≡ ((1, 7 ∷ 8 ∷ []) ∷ (0, 9 ∷ []) ∷ [], fulfilled)
unfolding fetch_view_tile_batch read_chunks take_frames first_frame deliver word
called = refl

fetch_view_tile_batch-chunks_example :
    fetch_view_tile_batch {T = List ℕ} some
      (record { ok = true; status = 200; body = some (map chunk cut_bytes) })
    ≡ fetch_view_tile_batch {T = List ℕ} some
        (record { ok = true; status = 200; body = some (map chunk (all_bytes cut_bytes ∷ [])) })
fetch_view_tile_batch-chunks_example = fetch_view_tile_batch-chunks some 200 cut_bytes

cut_frames : all_bytes cut_bytes ≡ encode_frames two_frames
unfolding all_bytes encode_frames encode_frame encode_word
cut_frames = refl

fetch_view_tile_batch-encode_frames_example :
    (calls : List (ℕ × List ℕ)) × (fetch_view_tile_batch {T = List ℕ} some
        (record { ok = true; status = 200; body = some (map chunk cut_bytes) })
      ≡ (calls, fulfilled))
    × Reaches some two_frames calls
fetch_view_tile_batch-encode_frames_example =
    fetch_view_tile_batch-encode_frames some 200 cut_bytes two_frames (ground arith) cut_frames

fetch_view_tile_batch-failure_example :
    fetch_view_tile_batch {T = List ℕ} some (record {
      ok = true;
      status = 200;
      body = some (map chunk cut_bytes ++ failure ∷ chunk (1 ∷ []) ∷ []);
    })
    ≡ (
      (fetch_view_tile_batch {T = List ℕ} some
          (record { ok = true; status = 200; body = some (map chunk cut_bytes) })).0,
      read_failed,
    )
fetch_view_tile_batch-failure_example =
    fetch_view_tile_batch-failure some 200 cut_bytes (chunk (1 ∷ []) ∷ [])

first_frame-take_frames_example :
    first_frame (take_frames {T = List ℕ} some 3 (1 ∷ 0 ∷ 0 ∷ [])).1 ≡ none
first_frame-take_frames_example = first_frame-take_frames {T = List ℕ} some (1 ∷ 0 ∷ 0 ∷ [])
