-- ===== src/TileManager/Load.antt =====
-- Which steps of web/src/lib/tile-manager.ts leave the requests as they are.
use tableverse.Prelude.{
  ℕ, ◌-◌, ◌≡◌, refl, ap, ◌∙◌, List, [], ◌∷◌, Option, none, some, ltb, Text, text_key, nat_key,
  length, arith, Option-cases, Bool-cases, inl, inr, ◌≟◌,
}
use mathlib.Core.Logic.{if_pos, if_neg}
use tableverse.Prelude.Dict
use tableverse.MinHeap.{Scored}
use tableverse.TableStore.{KeySet}
use tableverse.TileManager.{
  QueryTileParams, QueueItem, InflightEntry, Request, TileManager, TileMeta, Failure, Outcome,
  settle, resolve, reject, reject_all, abort, abort_error,
}
use tableverse.TileManager.Queue.{first_wanted, enqueue, enqueue_all, schedule_retry, collect_batch}
use tableverse.TileManager.Events.{
  cancel_stale, get_tile, invalidate, collect_garbage, cancel_entries, reject_entries, check_failed,
  request_tile, schedule_drain, pop_all,
}
use tableverse.TileManager.Answers.{
  store_tile, retry_and_reject, retry_and_reject_all, single_done, request_failed, batch_done,
  is_abort, unanswered,
}

-- The fields that count requests.
pub record Load : Type 0 where
  pub active : ℕ
  pub running : List Request
  pub finals : ℕ

unfoldable pub load : TileManager → Load
load m = record { active = m.active; running = m.requests; finals = m.finals }

pub load-settle :
    (m : TileManager) (key : Text) (p : ℕ) (o : Outcome) → load (settle m key p o) ≡ load m
unfolding settle load
load-settle m key p o = elim (Bool-cases (Dict.has p m.settled)) [
  | inl h ↦ rw (settle, h) refl
  | inr h ↦ rw (settle, h) refl
]

pub load-reject_all :
    (m : TileManager) (items : List QueueItem) (e : Failure) → load (reject_all m items e) ≡ load m
unfolding reject_all reject
load-reject_all m [] e = refl
load-reject_all m (item ∷ items) e =
    load-reject_all (reject m item e) items e ∙ load-settle m item.key item.promise _

pub load-abort : (m : TileManager) (c : Option ℕ) → load (abort m c) ≡ load m
unfolding abort load
load-abort m none = refl
load-abort m (some c) = refl

pub load-enqueue_all :
    (m : TileManager) (items : List QueueItem) → load (enqueue_all m items) ≡ load m
unfolding enqueue_all enqueue load
load-enqueue_all m [] = refl
load-enqueue_all m (item ∷ items) = load-enqueue_all (enqueue m item) items

pub load-schedule_retry :
    (now : ℕ) (m : TileManager) (item : QueueItem) → load (schedule_retry now m item) ≡ load m
unfolding schedule_retry load
load-schedule_retry now m item = ground arith

pub load-retry_all :
    (now : ℕ) (m : TileManager) (items : List QueueItem) (e : Failure)
    → load (retry_and_reject_all now m items e) ≡ load m
unfolding retry_and_reject_all retry_and_reject reject
load-retry_all now m [] e = refl
load-retry_all now m (item ∷ items) e =
    load-retry_all now (retry_and_reject now m item e) items e
    ∙ load-settle (schedule_retry now m item) item.key item.promise _
    ∙ load-schedule_retry now m item

pub load-dropped :
    (key : Text) (m : TileManager)
    → load (record m { inflight = Dict.delete key m.inflight }) ≡ load m
unfolding load
load-dropped key m = refl

pub load-cancel_entries :
    (visible : KeySet) (entries : List (Text × InflightEntry)) (m : TileManager)
    → load (cancel_entries visible entries m) ≡ load m
unfolding cancel_entries
load-cancel_entries visible [] m = refl
load-cancel_entries visible ((key, entry) ∷ entries) m = elim (Bool-cases (Dict.has key visible)) [
  | inl h ↦ rw (cancel_entries, h) (load-cancel_entries visible entries m)
  | inr h ↦
      rw (cancel_entries, h)
        (load-cancel_entries visible entries _
          ∙ load-dropped key _
          ∙ load-settle _ key entry.promise _
          ∙ load-abort m entry.controller)
]

pub load-reject_entries :
    (entries : List (Text × InflightEntry)) (m : TileManager)
    → load (reject_entries entries m) ≡ load m
unfolding reject_entries
load-reject_entries [] m = refl
load-reject_entries ((key, entry) ∷ entries) m =
    load-reject_entries entries _
    ∙ load-settle _ key entry.promise _
    ∙ load-abort m entry.controller

pub load-collect_garbage :
    (now : ℕ) (entries : List (Text × InflightEntry)) (m : TileManager)
    → load (collect_garbage now entries m) ≡ load m
unfolding collect_garbage
load-collect_garbage now [] m = refl
load-collect_garbage now ((key, entry) ∷ entries) m =
    elim (Bool-cases (ltb 45000 (now - entry.enqueued_at))) [
      | inl h ↦
          rw (collect_garbage, h)
            (load-collect_garbage now entries _
              ∙ load-dropped key _
              ∙ load-settle _ key entry.promise _
              ∙ load-abort m entry.controller)
      | inr h ↦ rw (collect_garbage, h) (load-collect_garbage now entries m)
    ]

pub load-queue :
    (m : TileManager) (q : List (Scored QueueItem)) → load (record m { queue = q }) ≡ load m
unfolding load
load-queue m q = refl

pub load-collect_batch : (m : TileManager) → load (collect_batch m).1 ≡ load m
unfolding collect_batch
load-collect_batch m = elim (Option-cases (first_wanted (length m.queue) m.inflight m.queue).0) [
  | inl nothing ↦ rw (collect_batch, nothing) (load-queue m _)
  | inr (item, first) ↦ rw (collect_batch, first) (load-enqueue_all _ _ ∙ load-queue m _)
]

pub load-store_tile :
    (m : TileManager) (item : QueueItem) (answer : TileMeta)
    → load (store_tile m item answer) ≡ load m
unfolding store_tile resolve load
load-store_tile m item answer = load-settle _ item.key item.promise _

pub load-single_done :
    (m : TileManager) (request : Request) (item : QueueItem) (answer : TileMeta)
    → load (single_done m request item answer) ≡ load m
unfolding single_done reject
load-single_done m request item answer = elim (m.generation ≟ request.generation) [
  | yes e ↦
      ap load (if_pos (m.generation ≟ request.generation) e _ _) ∙ load-store_tile m item answer
  | no e ↦
      ap load (if_neg (m.generation ≟ request.generation) e _ _)
      ∙ load-settle m item.key item.promise _
]

pub load-request_failed :
    (now : ℕ) (m : TileManager) (request : Request) (e : Failure)
    → load (request_failed now m request e) ≡ load m
unfolding request_failed
load-request_failed now m request e = elim (m.generation ≟ request.generation) [
  | no n ↦
      ap load (if_neg (m.generation ≟ request.generation) n _ _) ∙ load-reject_all m request.batch _
  | yes y ↦
      ap load (if_pos (m.generation ≟ request.generation) y _ _) ∙ elim (Bool-cases (is_abort e)) [
        | inl aborted ↦ rw aborted (load-reject_all m request.batch e)
        | inr other ↦ rw other (load-retry_all now m request.batch e)
      ]
]

pub load-batch_done :
    (now : ℕ) (m : TileManager) (request : Request) → load (batch_done now m request) ≡ load m
unfolding batch_done
load-batch_done now m request = elim (m.generation ≟ request.generation) [
  | no n ↦ ap load (if_neg (m.generation ≟ request.generation) n _ _)
  | yes y ↦
      ap load (if_pos (m.generation ≟ request.generation) y _ _)
      ∙ load-retry_all now m (unanswered request.answered 0 request.batch) _
]

pub load-check_failed :
    (now : ℕ) (m : TileManager) (key : Text) → load (check_failed now m key).0 ≡ load m
unfolding check_failed load
load-check_failed now m key = ground arith

pub load-get_tile :
    (now : ℕ) (m : TileManager) (params : QueryTileParams) (h : Text)
    → load (get_tile now m params h).0 ≡ load m
unfolding get_tile request_tile schedule_drain enqueue check_failed load
load-get_tile now m params h = ground arith

pub load-cancel_stale :
    (m : TileManager) (visible : KeySet) → load (cancel_stale m visible) ≡ load m
unfolding cancel_stale
load-cancel_stale m visible =
    load-enqueue_all _ _ ∙ load-queue _ [] ∙ load-cancel_entries visible m.inflight m

pub load-invalidate : (m : TileManager) → load (invalidate m) ≡ load m
unfolding invalidate load
load-invalidate m =
    load-reject_entries m.inflight
      (reject_all (record m { queue = [] }) (pop_all (length m.queue) m.queue) abort_error)
    ∙ load-reject_all (record m { queue = [] }) (pop_all (length m.queue) m.queue) abort_error
