-- ===== src/HttpBatch/Failure.antt =====
-- fetchViewTileBatch of web/src/api/http.ts when a read fails, and where its inner loop stops.
use tableverse.Prelude.{
  ℕ, zero, suc, ◌≤◌, ◌≡◌, refl, sym, List, [], ◌∷◌, ◌++◌, Option, none, some, true, map, length,
  arith, inl, inr, Option-cases,
}
use tableverse.HttpBatch.{
  first_frame, take_frames, Read, chunk, failure, read_chunks, read_failed, fetch_view_tile_batch,
}
use tableverse.HttpBatch.First.{append_assoc, append_nil, first_frame-length}
use tableverse.HttpBatch.Split.{
  all_bytes, frames_of, frames_of-some, frames_of-append, frames_of-left, take_frames-none,
  no_frame, fetch_view_tile_batch-frames_of,
}

module _ {T : Type 0} (table_from_ipc : List ℕ → Option T) where
  first_frame-left :
      (fuel : ℕ) (p : List ℕ) → length p ≤ fuel → first_frame (frames_of table_from_ipc p).1 ≡ none
  first_frame-left zero p h =
      let out = no_frame p h in rw (take_frames-none table_from_ipc (length p) p out) out
  first_frame-left (suc fuel) p h = elim (Option-cases (first_frame p)) [
    | inl out ↦ rw (take_frames-none table_from_ipc (length p) p out) out
    | inr (found, here) ↦
        let shorter = first_frame-length p found here in
        rw (frames_of-some table_from_ipc p found here)
          (first_frame-left fuel found.1 (omega arith))
  ]

  -- The loop over the frames ends by itself within as many rounds as there are bytes: it leaves bytes in
  -- which no frame is complete.
  pub first_frame-take_frames :
      (p : List ℕ) → first_frame (take_frames table_from_ipc (length p) p).1 ≡ none
  first_frame-take_frames p = first_frame-left (length p) p (omega arith)

  read_chunks-failure :
      (p : List ℕ) (cs : List (List ℕ)) (reads : List Read)
      → frames_of table_from_ipc p ≡ ([], p)
      → read_chunks table_from_ipc p (map chunk cs ++ failure ∷ reads)
        ≡ ((frames_of table_from_ipc (p ++ all_bytes cs)).0, read_failed)
  unfolding read_chunks all_bytes
  read_chunks-failure p [] reads h = rw (append_nil p, h) refl
  read_chunks-failure p (c ∷ cs) reads h =
      rw
        (
          read_chunks-failure (frames_of table_from_ipc (p ++ c)).1 cs reads
              (frames_of-left table_from_ipc (length (p ++ c)) (p ++ c) (omega arith)),
          sym (append_assoc p c (all_bytes cs)),
          frames_of-append table_from_ipc (length (p ++ c)) (p ++ c) (all_bytes cs) (omega arith),
        )
        refl

  -- When a read fails behind some chunks, the promise is rejected, and onTile has been called as for a
  -- response that ends there.
  pub fetch_view_tile_batch-failure :
      (status : ℕ) (cs : List (List ℕ)) (reads : List Read)
      → fetch_view_tile_batch table_from_ipc
          (record { ok = true; status = status; body = some (map chunk cs ++ failure ∷ reads) })
        ≡ (
          (fetch_view_tile_batch table_from_ipc
              (record { ok = true; status = status; body = some (map chunk cs) })).0,
          read_failed,
        )
  unfolding fetch_view_tile_batch
  fetch_view_tile_batch-failure status cs reads =
      rw (fetch_view_tile_batch-frames_of table_from_ipc status cs) (
        read_chunks-failure [] cs reads
          (take_frames-none table_from_ipc 0 [] (no_frame [] (omega arith))))
