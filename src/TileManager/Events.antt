-- ===== src/TileManager/Events.antt =====
-- The operations of web/src/lib/tile-manager.ts and the events that it waits for: frames, timers,
-- answers of requests, and the handlers of its promises.
use tableverse.Prelude.{
  ℕ, zero, suc, ◌+◌, ◌-◌, ◌/◌, List, [], ◌∷◌, none, some, Bool, true, false, ltb, if◌then◌else◌,
  Text, text_key, nat_key, length, get_elem?, ◌≟◌, ite,
}
use tableverse.Prelude.Dict
use tableverse.Prelude.Int.{ℤ}
use tableverse.Viewport.{tile_key, tile_rows, tile_cols}
use tableverse.TileCache
use tableverse.TileCache.{Table}
use tableverse.MinHeap
use tableverse.MinHeap.{Scored}
use tableverse.TableStore.{KeySet}
use tableverse.TileManager.{
  failed_ttl_ms, QueryTileParams, Failure, abort_error, tile_unavailable, QueueItem, InflightEntry,
  TileManager, settle, reject_all, abort, rejected,
}
use tableverse.TileManager.Queue.{enqueue, enqueue_all, drain}

unfoldable pub set_viewport_center : TileManager → ℕ → ℕ → TileManager
set_viewport_center m tile_row tile_col = record m {
  viewport_center_row = tile_row;
  viewport_center_col = tile_col;
}

unfoldable pub set_viewport_velocity : TileManager → ℤ → ℤ → TileManager
set_viewport_velocity m vy vx = record m { vy = vy; vx = vx }

unfoldable pub row_set : List (ℕ × Unit {0}) → List ℕ → List (ℕ × Unit {0})
row_set seen [] = seen
row_set seen (r ∷ rows) = row_set (Dict.set r tt seen) rows

unfoldable pub set_landmark_priorities : TileManager → List ℕ → TileManager
unfolding row_set
set_landmark_priorities m rows = record m { landmark_tile_rows = row_set [] rows }

-- A failure blocks its key for a while, and is forgotten when it is asked for later.
unfoldable pub check_failed : ℕ → TileManager → Text → TileManager × Bool
check_failed now m key = elim (Dict.get key m.failed_at) [
  | none ↦ (m, false)
  | some ts ↦
      if ltb (now - ts) failed_ttl_ms
      then (m, true)
      else (record m { failed_at = Dict.delete key m.failed_at }, false)
]

unfoldable pub is_failed : ℕ → TileManager → ℕ → ℕ → Text → TileManager × Bool
unfolding check_failed
is_failed now m row_offset col_offset view_hash =
    check_failed now m (tile_key row_offset col_offset view_hash)

unfoldable pub has_cached : TileManager → ℕ → ℕ → Text → Bool
has_cached m row col view_hash = TileCache.has m.cache (tile_key row col view_hash)

-- The first loop of `cancelStale`, over the entries.
unfoldable pub cancel_entries : KeySet → List (Text × InflightEntry) → TileManager → TileManager
cancel_entries visible [] m = m
cancel_entries visible ((key, entry) ∷ entries) m = elim (Dict.has key visible) [
  | true ↦ cancel_entries visible entries m
  | false ↦
      let rejecting = settle (abort m entry.controller) key entry.promise (rejected abort_error) in
      cancel_entries visible entries
        (record rejecting { inflight = Dict.delete key rejecting.inflight })
]

-- Pops all items. Each round takes one off the queue.
unfoldable pub pop_all : ℕ → List (Scored QueueItem) → List QueueItem
pop_all zero queue = []
pop_all (suc fuel) queue = elim (MinHeap.pop queue).0 [
  | none ↦ []
  | some item ↦ item ∷ pop_all fuel (MinHeap.pop queue).1
]

unfoldable pub surviving : KeySet → List QueueItem → List QueueItem
surviving visible [] = []
surviving visible (item ∷ items) =
    if Dict.has item.key visible then item ∷ surviving visible items else surviving visible items

unfoldable pub cancel_stale : TileManager → KeySet → TileManager
unfolding cancel_entries pop_all surviving
cancel_stale m visible =
    let cancelled = cancel_entries visible m.inflight m in
    enqueue_all (record cancelled { queue = [] })
      (surviving visible (pop_all (length m.queue) m.queue))

-- What `getTile` returns: a table of the cache, a rejection, or a promise.
pub data Answer : Type 0 where
  cached : Table → Answer
  failed : Failure → Answer
  promised : ℕ → Answer

unfoldable pub schedule_drain : TileManager → TileManager
schedule_drain m = record m { drain_scheduled = true }

-- The part of `getTile` for a tile that is not there and not on its way.
unfoldable pub request_tile : ℕ → TileManager → QueryTileParams → Text → TileManager × Answer
unfolding schedule_drain
request_tile now m params key =
    let entry : InflightEntry = record {
      promise = m.promises;
      controller = none;
      enqueued_at = now;
    } in
    let item : QueueItem = record {
      key = key;
      tile_row = params.row / tile_rows;
      tile_col = params.col / tile_cols;
      params = params;
      promise = m.promises;
    } in
    let wanted = record m { inflight = Dict.set key entry m.inflight; promises = m.promises + 1 } in
    (schedule_drain (enqueue wanted item), promised m.promises)

unfoldable pub get_tile : ℕ → TileManager → QueryTileParams → Text → TileManager × Answer
unfolding check_failed request_tile
get_tile now m params view_hash =
    let key = tile_key params.row params.col view_hash in
    let read = record m { cache = (TileCache.get m.cache key).0 } in
    let checked = check_failed now read key in
    elim (TileCache.get m.cache key).1 [
      | some table ↦ (read, cached table)
      | none ↦ elim checked.1 [
        | true ↦ (checked.0, failed tile_unavailable)
        | false ↦ elim (Dict.get key checked.0.inflight) [
          | some entry ↦ (checked.0, promised entry.promise)
          | none ↦ request_tile now checked.0 params key
        ]
      ]
    ]

unfoldable pub reject_entries : List (Text × InflightEntry) → TileManager → TileManager
reject_entries [] m = m
reject_entries ((key, entry) ∷ entries) m =
    reject_entries entries
      (settle (abort m entry.controller) key entry.promise (rejected abort_error))

unfoldable pub invalidate : TileManager → TileManager
unfolding pop_all reject_entries
invalidate m =
    let popped =
      reject_all (record m { queue = [] }) (pop_all (length m.queue) m.queue) abort_error in
    let aborted = reject_entries m.inflight popped in
    record aborted {
      generation = aborted.generation + 1;
      cache = TileCache.clear aborted.cache;
      inflight = [];
      failed_at = [];
      retries = [];
    }

-- The timer of `startGC`: what waits for more than 45 seconds is aborted.
unfoldable pub collect_garbage : ℕ → List (Text × InflightEntry) → TileManager → TileManager
collect_garbage now [] m = m
collect_garbage now ((key, entry) ∷ entries) m = elim (ltb 45000 (now - entry.enqueued_at)) [
  | false ↦ collect_garbage now entries m
  | true ↦
      let rejecting = settle (abort m entry.controller) key entry.promise (rejected abort_error) in
      collect_garbage now entries
        (record rejecting { inflight = Dict.delete key rejecting.inflight })
]

-- The callback of `scheduleDrain`.
unfoldable pub frame : TileManager → TileManager
frame m = if m.drain_scheduled then drain (record m { drain_scheduled = false }) else m

unfoldable pub without {ℓ} : {A : Type ℓ} → ℕ → List A → List A
without i [] = []
without zero (x ∷ xs) = xs
without (suc i) (x ∷ xs) = x ∷ without i xs

-- The handler of the `i`-th settled promise that waits. A handler of `catch` is called later than one of
-- `then`, so they can come in another order than the promises are settled in.
unfoldable pub cleanup : TileManager → ℕ → TileManager
unfolding without
cleanup m i = elim (get_elem? m.cleanups i) [
  | none ↦ m
  | some key ↦ record m { inflight = Dict.delete key m.inflight; cleanups = without i m.cleanups }
]

-- The callback of the timer of the `i`-th waiting retry.
unfoldable pub fire : TileManager → ℕ → TileManager
unfolding without
fire m i = elim (get_elem? m.timers i) [
  | none ↦ m
  | some retry ↦
      let fired = record m { timers = without i m.timers } in
      ite (m.generation ≟ retry.generation) (drain (enqueue fired retry.item)) fired
]
