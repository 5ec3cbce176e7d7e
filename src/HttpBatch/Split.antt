-- ===== src/HttpBatch/Split.antt =====
-- The calls of fetchViewTileBatch in web/src/api/http.ts do not depend on how the bytes come in chunks.
use tableverse.Prelude.{
  ℕ, zero, suc, ◌≤◌, ◌≡◌, refl, sym, ◌∙◌, List, [], ◌∷◌, ◌++◌, Option, none, some, true, map,
  length, arith, Option-cases, inl, inr,
}
use tableverse.HttpBatch.{
  Frame, first_frame, deliver, take_frames, chunk, read_chunks, fulfilled, fetch_view_tile_batch,
}
use tableverse.HttpBatch.First.{append_assoc, append_nil, first_frame-length, first_frame-append}

-- The bytes of the chunks.
unfoldable pub all_bytes : List (List ℕ) → List ℕ
all_bytes [] = []
all_bytes (c ∷ cs) = c ++ all_bytes cs

pub no_frame : (p : List ℕ) → length p ≤ 0 → first_frame p ≡ none
no_frame p h = elim (Option-cases (first_frame p)) [
  | inl out ↦ out
  | inr (found, here) ↦ absurd (omega (arith, first_frame-length p found here))
]

module _ {T : Type 0} (table_from_ipc : List ℕ → Option T) where
  pub take_frames-none :
      (fuel : ℕ) (p : List ℕ) → first_frame p ≡ none → take_frames table_from_ipc fuel p ≡ ([], p)
  unfolding take_frames
  take_frames-none zero p h = refl
  take_frames-none (suc fuel) p h = rw (take_frames, h) refl

  -- One round.
  abbrev next_frames : ℕ → Frame × List ℕ → List (ℕ × T) × List ℕ
  next_frames fuel found = (
    deliver table_from_ipc found.0 ++ (take_frames table_from_ipc fuel found.1).0,
    (take_frames table_from_ipc fuel found.1).1,
  )

  take_frames-some :
      (fuel : ℕ) (p : List ℕ) (found : Frame × List ℕ)
      → first_frame p ≡ some found
      → take_frames table_from_ipc (suc fuel) p ≡ next_frames fuel found
  unfolding take_frames
  take_frames-some fuel p found h = rw (take_frames, h) refl

  -- Fuel for all bytes is enough: more changes nothing.
  take_frames-enough :
      (fuel more : ℕ) (p : List ℕ)
      → length p ≤ fuel
      → length p ≤ more
      → take_frames table_from_ipc fuel p ≡ take_frames table_from_ipc more p
  take_frames-enough zero more p h k =
      rw (take_frames-none 0 p (no_frame p h), take_frames-none more p (no_frame p h)) refl
  take_frames-enough (suc fuel) zero p h k =
      rw (take_frames-none 0 p (no_frame p k), take_frames-none (suc fuel) p (no_frame p k)) refl
  take_frames-enough (suc fuel) (suc more) p h k = elim (Option-cases (first_frame p)) [
    | inl out ↦ rw (take_frames-none (suc fuel) p out, take_frames-none (suc more) p out) refl
    | inr (found, here) ↦
        let shorter = first_frame-length p found here in
        take_frames-some fuel p found here
        ∙ rw (take_frames-enough fuel more found.1 (omega arith) (omega arith))
            (sym (take_frames-some more p found here))
  ]

  -- All frames of a run of bytes.
  abbrev pub frames_of : List ℕ → List (ℕ × T) × List ℕ
  frames_of p = take_frames table_from_ipc (length p) p

  pub frames_of-some :
      (p : List ℕ) (found : Frame × List ℕ)
      → first_frame p ≡ some found
      → frames_of p
        ≡ (deliver table_from_ipc found.0 ++ (frames_of found.1).0, (frames_of found.1).1)
  frames_of-some p found h =
      let shorter = first_frame-length p found h in
      take_frames-enough (length p) (suc (length p)) p (omega arith) (omega arith)
      ∙ take_frames-some (length p) p found h
      ∙ rw (take_frames-enough (length p) (length found.1) found.1 (omega arith) (omega arith)) refl

  abbrev append_frames : List ℕ → List ℕ → List (ℕ × T) × List ℕ
  append_frames p s = (
    (frames_of p).0 ++ (frames_of ((frames_of p).1 ++ s)).0,
    (frames_of ((frames_of p).1 ++ s)).1,
  )

  append_frames-some :
      (p s : List ℕ) (found : Frame × List ℕ)
      → first_frame p ≡ some found
      → append_frames p s ≡ (
        deliver table_from_ipc found.0 ++ (append_frames found.1 s).0,
        (append_frames found.1 s).1,
      )
  append_frames-some p s found h = rw (frames_of-some p found h) (
      rw
        (append_assoc (deliver table_from_ipc found.0) (frames_of found.1).0
          (frames_of ((frames_of found.1).1 ++ s)).0)
        refl)

  -- The bytes that are left go in front of what comes.
  pub frames_of-append :
      (fuel : ℕ) (p s : List ℕ) → length p ≤ fuel → frames_of (p ++ s) ≡ append_frames p s
  frames_of-append zero p s h = rw (take_frames-none (length p) p (no_frame p h)) refl
  frames_of-append (suc fuel) p s h = elim (Option-cases (first_frame p)) [
    | inl out ↦ rw (take_frames-none (length p) p out) refl
    | inr (found, here) ↦
        let shorter = first_frame-length p found here in
        frames_of-some (p ++ s) (found.0, found.1 ++ s) (first_frame-append p s found here)
        ∙ rw (frames_of-append fuel found.1 s (omega arith))
            (sym (append_frames-some p s found here))
  ]

  -- What is left has no frame.
  pub frames_of-left :
      (fuel : ℕ) (p : List ℕ) → length p ≤ fuel → frames_of (frames_of p).1 ≡ ([], (frames_of p).1)
  frames_of-left zero p h =
      let out = take_frames-none (length p) p (no_frame p h) in rw (out, out) refl
  frames_of-left (suc fuel) p h = elim (Option-cases (first_frame p)) [
    | inl out ↦ let out_p = take_frames-none (length p) p out in rw (out_p, out_p) refl
    | inr (found, here) ↦
        let shorter = first_frame-length p found here in
        rw (frames_of-some p found here) (frames_of-left fuel found.1 (omega arith))
  ]

  read_chunks-chunks :
      (p : List ℕ) (cs : List (List ℕ))
      → frames_of p ≡ ([], p)
      → read_chunks table_from_ipc p (map chunk cs) ≡ ((frames_of (p ++ all_bytes cs)).0, fulfilled)
  unfolding read_chunks all_bytes
  read_chunks-chunks p [] h = rw (append_nil p, h) refl
  read_chunks-chunks p (c ∷ cs) h =
      rw
        (
          read_chunks-chunks (frames_of (p ++ c)).1 cs
              (frames_of-left (length (p ++ c)) (p ++ c) (omega arith)),
          sym (append_assoc p c (all_bytes cs)),
          frames_of-append (length (p ++ c)) (p ++ c) (all_bytes cs) (omega arith),
        )
        refl

  pub fetch_view_tile_batch-frames_of :
      (status : ℕ) (cs : List (List ℕ))
      → fetch_view_tile_batch table_from_ipc
          (record { ok = true; status = status; body = some (map chunk cs) })
        ≡ ((frames_of (all_bytes cs)).0, fulfilled)
  unfolding fetch_view_tile_batch
  fetch_view_tile_batch-frames_of status cs =
      read_chunks-chunks [] cs (take_frames-none 0 [] (no_frame [] (omega arith)))

  -- The calls of onTile and the outcome are those for the bytes in one chunk, however the response cuts
  -- them, also inside of a frame or of its header.
  pub fetch_view_tile_batch-chunks :
      (status : ℕ) (cs : List (List ℕ))
      → fetch_view_tile_batch table_from_ipc
          (record { ok = true; status = status; body = some (map chunk cs) })
        ≡ fetch_view_tile_batch table_from_ipc
            (record { ok = true; status = status; body = some (map chunk (all_bytes cs ∷ [])) })
  unfolding all_bytes
  fetch_view_tile_batch-chunks status cs =
      fetch_view_tile_batch-frames_of status cs
      ∙ sym (
          fetch_view_tile_batch-frames_of status (all_bytes cs ∷ [])
          ∙ rw (append_nil (all_bytes cs)) refl)
