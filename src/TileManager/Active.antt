-- ===== src/TileManager/Active.antt =====
-- How many requests web/src/lib/tile-manager.ts runs at once.
use tableverse.Prelude.{
  ◌⊎◌, ℕ, zero, suc, ◌+◌, ◌≤◌, ◌<◌, ◌≡◌, refl, ap, List, [], ◌∷◌, some, Bool, true, false, ◌&&◌,
  ltb, text_key, nat_key, length, get_elem?, length-append, length-set, arith, Option-cases,
  Bool-cases, inl, inr, ◌≟◌,
}
use mathlib.Core.Logic.{if_pos, if_neg}
use tableverse.Prelude.Dict
use tableverse.TileManager.{max_concurrency, QueueItem, Request, TileManager, TileMeta, new}
use tableverse.TileManager.Queue.{
  enqueue, collect_batch, start_request, execute, execute_single_tile, execute_batch_tiles,
  drain_loop, drain,
}
use tableverse.TileManager.Events.{
  set_viewport_center, set_viewport_velocity, set_landmark_priorities, is_failed, frame, cleanup,
  fire, without,
}
use tableverse.TileManager.Answers.{
  finish, batch_tile, final, Response, respond, respond_to, tile_response, tile, tile_of, done,
  failing,
}
use tableverse.TileManager.Session.{
  Event, step, steps, set_viewport_center_event, set_viewport_velocity_event,
  set_landmark_priorities_event, is_failed_event, cancel_stale_event, get_tile_event,
  invalidate_event, collect_garbage_event, frame_event, cleanup_event, fire_event, respond_event,
  final_event,
}
use tableverse.TileManager.Load.{
  load, load-collect_garbage, load-collect_batch, load-store_tile, load-single_done,
  load-request_failed, load-batch_done, load-check_failed, load-get_tile, load-cancel_stale,
  load-invalidate,
}

-- The number of active requests is right and at most 8.
pub record IsCounted (m : TileManager) : Type 0 where
  pub counted : m.active ≡ length m.requests + m.finals
  pub bounded : m.active ≤ max_concurrency

IsCounted-load : (r m : TileManager) → load r ≡ load m → IsCounted m → IsCounted r
unfolding load
IsCounted-load r m e v =
    let actives : r.active ≡ m.active = ap (λ l. l.active) e in
    let running : length r.requests ≡ length m.requests = ap (λ l. length l.running) e in
    let ends : r.finals ≡ m.finals = ap (λ l. l.finals) e in
    record {
      counted = omega (arith, v.counted, actives, running, ends);
      bounded = omega (arith, v.bounded, actives);
    }

active-collect_batch : (m : TileManager) → (collect_batch m).1.active ≡ m.active
unfolding load
active-collect_batch m = ap (λ l. l.active) (load-collect_batch m)

start_request-IsCounted :
    (m : TileManager) (batch : List QueueItem) (single : Bool)
    → m.active < max_concurrency
    → IsCounted m
    → IsCounted (start_request m batch single)
unfolding start_request
start_request-IsCounted m batch single h v = record {
  counted = omega (arith, v.counted, length-append m.requests _);
  bounded = omega (arith, h);
}

execute-IsCounted :
    (m : TileManager) (batch : List QueueItem)
    → m.active < max_concurrency
    → IsCounted m
    → IsCounted (execute m batch)
unfolding execute execute_single_tile execute_batch_tiles
execute-IsCounted m [] h v = v
execute-IsCounted m (item ∷ []) h v = elim (Bool-cases (Dict.has item.key m.inflight)) [
  | inl wanted ↦
      rw (execute, execute_single_tile, wanted) (start_request-IsCounted m (item ∷ []) true h v)
  | inr dropped ↦ rw (execute, execute_single_tile, dropped) v
]
execute-IsCounted m (item ∷ next ∷ items) h v =
    start_request-IsCounted m (item ∷ next ∷ items) false h v

Nat-cases : (n : ℕ) → (n ≡ 0) ⊎ ((k : ℕ) × (n ≡ suc k))
Nat-cases zero = inl refl
Nat-cases (suc n) = inr (n, refl)

List-cases : {A : Type 0} (xs : List A) → (xs ≡ []) ⊎ ((x : A) × (ys : List A) × (xs ≡ x ∷ ys))
List-cases [] = inl refl
List-cases (x ∷ xs) = inr (x, xs, refl)

room_left : (n : ℕ) (b : Bool) → (ltb n max_concurrency && b) ≡ true → n < max_concurrency
room_left n b h = ground arith

drain_loop-IsCounted : (fuel : ℕ) (m : TileManager) → IsCounted m → IsCounted (drain_loop fuel m)
unfolding drain_loop
drain_loop-IsCounted zero m v = v
drain_loop-IsCounted (suc fuel) m v =
    let collected = IsCounted-load (collect_batch m).1 m (load-collect_batch m) v in
    elim (Bool-cases (ltb m.active max_concurrency && ltb 0 (length m.queue))) [
      | inr full ↦ rw (drain_loop, full) v
      | inl room ↦ elim (List-cases (collect_batch m).0) [
        | inl nothing ↦ rw (drain_loop, room, nothing) collected
        | inr (item, items, some_items) ↦
            rw (drain_loop, room, some_items)
              (drain_loop-IsCounted fuel _ (
                execute-IsCounted (collect_batch m).1 (item ∷ items)
                  (omega (arith, active-collect_batch m, room_left m.active _ room)) collected))
      ]
    ]

drain-IsCounted : (m : TileManager) → IsCounted m → IsCounted (drain m)
unfolding drain
drain-IsCounted m v = drain_loop-IsCounted max_concurrency m v

length-without :
    {A : Type 0} (i : ℕ) (xs : List A) (x : A)
    → get_elem? xs i ≡ some x
    → length (without i xs) + 1 ≡ length xs
unfolding without
length-without i [] x h = cc
length-without zero (y ∷ xs) x h = omega arith
length-without (suc i) (y ∷ xs) x h = omega (arith, length-without i xs x h)

-- A request that is over is replaced by the handler that is to come.
finish-IsCounted :
    (m r : TileManager) (i : ℕ) (request : Request)
    → get_elem? m.requests i ≡ some request
    → load r ≡ load m
    → IsCounted m
    → IsCounted (finish r i)
unfolding finish load
finish-IsCounted m r i request h e v =
    let w = IsCounted-load r m e v in
    let running : r.requests ≡ m.requests = ap (λ l. l.running) e in
    record {
      counted = omega (arith, w.counted, length-without i r.requests request (rw running h));
      bounded = w.bounded;
    }

batch_tile-IsCounted :
    (m : TileManager) (i : ℕ) (request : Request) (index : ℕ) (answer : TileMeta)
    → IsCounted m
    → IsCounted (batch_tile m i request index answer)
unfolding batch_tile
batch_tile-IsCounted m i request index answer v = elim (m.generation ≟ request.generation) [
  | no n ↦ rw (if_neg (m.generation ≟ request.generation) n _ _) v
  | yes y ↦
      rw (if_pos (m.generation ≟ request.generation) y _ _)
        (elim (Option-cases (get_elem? request.batch index)) [
          | inl out ↦ rw out v
          | inr (item, there) ↦ rw there (
              IsCounted-load _ _ (load-store_tile _ item answer) (record {
                counted = omega (arith, v.counted, length-set m.requests i _);
                bounded = v.bounded;
              }))
        ])
]

tile_response-IsCounted :
    (m : TileManager) (i : ℕ) (request : Request) (single : Bool) (batch : List QueueItem)
    (answer : TileMeta)
    → get_elem? m.requests i ≡ some request
    → IsCounted m
    → IsCounted (tile_response m i request single batch answer)
unfolding tile_response
tile_response-IsCounted m i request false batch answer h v = v
tile_response-IsCounted m i request true [] answer h v = v
tile_response-IsCounted m i request true (item ∷ items) answer h v =
    finish-IsCounted m _ i request h (load-single_done m request item answer) v

respond_to-IsCounted :
    (now : ℕ) (m : TileManager) (i : ℕ) (request : Request) (response : Response)
    → get_elem? m.requests i ≡ some request
    → IsCounted m
    → IsCounted (respond_to now m i request response)
unfolding respond_to
respond_to-IsCounted now m i request (tile answer) h v =
    tile_response-IsCounted m i request request.single request.batch answer h v
respond_to-IsCounted now m i request (tile_of index answer) h v = elim (Bool-cases request.single) [
  | inl one ↦ simp one v
  | inr several ↦ simp several (batch_tile-IsCounted m i request index answer v)
]
respond_to-IsCounted now m i request done h v = elim (Bool-cases request.single) [
  | inl one ↦ simp one v
  | inr several ↦ simp several (finish-IsCounted m _ i request h (load-batch_done now m request) v)
]
respond_to-IsCounted now m i request (failing e) h v =
    finish-IsCounted m _ i request h (load-request_failed now m request e) v

respond-IsCounted :
    (now : ℕ) (m : TileManager) (i : ℕ) (response : Response)
    → IsCounted m
    → IsCounted (respond now m i response)
unfolding respond
respond-IsCounted now m i response v = elim (Option-cases (get_elem? m.requests i)) [
  | inl out ↦ rw (respond, out) v
  | inr (request, there) ↦
      rw (respond, there) (respond_to-IsCounted now m i request response there v)
]

final-IsCounted : (m : TileManager) → IsCounted m → IsCounted (final m)
unfolding final
final-IsCounted m v = elim (Nat-cases m.finals) [
  | inl none_left ↦ rw (final, none_left) v
  | inr (n, more) ↦
      rw (final, more)
        (drain-IsCounted _
          (record { counted = omega (arith, v.counted, more); bounded = omega (arith, v.bounded) }))
]

frame-IsCounted : (m : TileManager) → IsCounted m → IsCounted (frame m)
unfolding frame
frame-IsCounted m v = elim (Bool-cases m.drain_scheduled) [
  | inl scheduled ↦
      simp scheduled (drain-IsCounted _ (record { counted = v.counted; bounded = v.bounded }))
  | inr idle ↦ simp idle v
]

fire-IsCounted : (m : TileManager) (i : ℕ) → IsCounted m → IsCounted (fire m i)
unfolding fire enqueue
fire-IsCounted m i v = elim (Option-cases (get_elem? m.timers i)) [
  | inl out ↦ rw (fire, out) v
  | inr (retry, there) ↦ elim (m.generation ≟ retry.generation) [
    | yes y ↦
        rw (fire, there, if_pos (m.generation ≟ retry.generation) y _ _)
          (drain-IsCounted _ (record { counted = v.counted; bounded = v.bounded }))
    | no n ↦
        rw (fire, there, if_neg (m.generation ≟ retry.generation) n _ _)
          (record { counted = v.counted; bounded = v.bounded })
  ]
]

cleanup-IsCounted : (m : TileManager) (i : ℕ) → IsCounted m → IsCounted (cleanup m i)
unfolding cleanup
cleanup-IsCounted m i v = elim (Option-cases (get_elem? m.cleanups i)) [
  | inl nothing ↦ rw (cleanup, nothing) v
  | inr (key, waiting) ↦ rw (cleanup, waiting) (record { counted = v.counted; bounded = v.bounded })
]

step-IsCounted : (m : TileManager) (e : Event) → IsCounted m → IsCounted (step m e)
unfolding step set_viewport_center set_viewport_velocity set_landmark_priorities is_failed
step-IsCounted m (set_viewport_center_event r c) v = record {
  counted = v.counted;
  bounded = v.bounded;
}
step-IsCounted m (set_viewport_velocity_event y x) v = record {
  counted = v.counted;
  bounded = v.bounded;
}
step-IsCounted m (set_landmark_priorities_event rows) v = record {
  counted = v.counted;
  bounded = v.bounded;
}
step-IsCounted m (is_failed_event now row col h) v =
    IsCounted-load _ m (load-check_failed now m _) v
step-IsCounted m (cancel_stale_event visible) v = IsCounted-load _ m (load-cancel_stale m visible) v
step-IsCounted m (get_tile_event now params h) v =
    IsCounted-load _ m (load-get_tile now m params h) v
step-IsCounted m invalidate_event v = IsCounted-load _ m (load-invalidate m) v
step-IsCounted m (collect_garbage_event now) v =
    IsCounted-load _ m (load-collect_garbage now m.inflight m) v
step-IsCounted m frame_event v = frame-IsCounted m v
step-IsCounted m (cleanup_event i) v = cleanup-IsCounted m i v
step-IsCounted m (fire_event i) v = fire-IsCounted m i v
step-IsCounted m (respond_event now i response) v = respond-IsCounted now m i response v
step-IsCounted m final_event v = final-IsCounted m v

steps-IsCounted_from :
    (m : TileManager) (events : List Event) → IsCounted m → IsCounted (steps m events)
unfolding steps
steps-IsCounted_from m [] v = v
steps-IsCounted_from m (e ∷ events) v =
    steps-IsCounted_from (step m e) events (step-IsCounted m e v)

-- After any operations and events on a new manager, in any order, at most 8 requests are active, and
-- their number is that of the requests that run and of the handlers of `finally` that are to come.
pub steps-IsCounted :
    (max_cache_bytes : ℕ) (events : List Event) → IsCounted (steps (new max_cache_bytes) events)
unfolding new
steps-IsCounted max_cache_bytes events =
    steps-IsCounted_from (new max_cache_bytes) events
      (record { counted = refl; bounded = omega arith })
