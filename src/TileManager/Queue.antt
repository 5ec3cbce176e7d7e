-- ===== src/TileManager/Queue.antt =====
-- The queue of web/src/lib/tile-manager.ts: enqueue, scheduleRetry, collectBatch, drain and the start
-- of requests.
use tableverse.Prelude.{
  ℕ, zero, suc, ◌+◌, List, [], ◌∷◌, ◌++◌, Option, none, some, Bool, true, false, ◌&&◌, ltb, leb,
  if◌then◌else◌, Text, text_key, ◌≟◌, ite, length,
}
use tableverse.Prelude.Dict
use tableverse.MinHeap
use tableverse.MinHeap.{Scored}
use tableverse.TableStore.{or_else}
use tableverse.TileManager.{
  max_concurrency, max_retries, QueueItem, InflightEntry, TileManager, direction_score,
}

unfoldable pub enqueue : TileManager → QueueItem → TileManager
enqueue m item = record m {
  queue = MinHeap.push (direction_score m item.tile_row item.tile_col) item m.queue;
}

unfoldable pub enqueue_all : TileManager → List QueueItem → TileManager
unfolding enqueue
enqueue_all m [] = m
enqueue_all m (item ∷ items) = enqueue_all (enqueue m item) items

-- The third failure of a key blocks it; before, a timer waits.
unfoldable pub schedule_retry : ℕ → TileManager → QueueItem → TileManager
schedule_retry now m item =
    let attempts = or_else (Dict.get item.key m.retries) 0 + 1 in
    if leb max_retries attempts
    then record m {
      failed_at = Dict.set item.key now m.failed_at;
      retries = Dict.delete item.key m.retries;
    }
    else record m {
      retries = Dict.set item.key attempts m.retries;
      timers = m.timers ++ record { generation = m.generation; item = item } ∷ [];
    }

-- Pops until an item is still wanted. Each round takes one off the queue.
unfoldable pub first_wanted :
    ℕ
    → List (Text × InflightEntry)
    → List (Scored QueueItem)
    → Option QueueItem × List (Scored QueueItem)
first_wanted zero inflight queue = (none, queue)
first_wanted (suc fuel) inflight queue = elim (MinHeap.pop queue).0 [
  | none ↦ (none, queue)
  | some candidate ↦ elim (Dict.has candidate.key inflight) [
    | true ↦ (some candidate, (MinHeap.pop queue).1)
    | false ↦ first_wanted fuel inflight (MinHeap.pop queue).1
  ]
]

-- Fills the batch with wanted items of the source; the wanted items of other sources are deferred.
unfoldable pub fill_batch :
    ℕ
    → List (Text × InflightEntry)
    → Text
    → List QueueItem
    → List QueueItem
    → List (Scored QueueItem)
    → List QueueItem × List QueueItem × List (Scored QueueItem)
fill_batch zero inflight source_id batch deferred queue = (batch, deferred, queue)
fill_batch (suc fuel) inflight source_id batch deferred queue =
    elim (ltb (length batch) max_concurrency) [
      | false ↦ (batch, deferred, queue)
      | true ↦ elim (MinHeap.pop queue).0 [
        | none ↦ (batch, deferred, queue)
        | some next ↦ elim (Dict.has next.key inflight) [
          | false ↦ fill_batch fuel inflight source_id batch deferred (MinHeap.pop queue).1
          | true ↦ elim (next.params.source_id ≟ source_id) [
            | yes same ↦
                fill_batch fuel inflight source_id (batch ++ next ∷ []) deferred
                  (MinHeap.pop queue).1
            | no other ↦
                fill_batch fuel inflight source_id batch (deferred ++ next ∷ [])
                  (MinHeap.pop queue).1
          ]
        ]
      ]
    ]

unfoldable pub collect_batch : TileManager → List QueueItem × TileManager
collect_batch m =
    let (first, left) = first_wanted (length m.queue) m.inflight m.queue in
    elim first [
      | none ↦ ([], record m { queue = left })
      | some item ↦
          let (batch, deferred, rest) =
            fill_batch (length left) m.inflight item.params.source_id (item ∷ []) [] left in
          (batch, enqueue_all (record m { queue = rest }) deferred)
    ]

-- `entry.controller = controller` on the entry of a key, in place.
unfoldable pub set_controller : ℕ → Text → List (Text × InflightEntry) → List (Text × InflightEntry)
set_controller controller key [] = []
set_controller controller key ((k, entry) ∷ entries) =
    ite (key ≟ k) ((k, record entry { controller = some controller }) ∷ entries)
      ((k, entry) ∷ set_controller controller key entries)

unfoldable pub set_controllers :
    ℕ → List (Text × InflightEntry) → List QueueItem → List (Text × InflightEntry)
unfolding set_controller
set_controllers controller inflight [] = inflight
set_controllers controller inflight (item ∷ items) =
    set_controllers controller (set_controller controller item.key inflight) items

-- The request of a batch, under a new controller.
unfoldable pub start_request : TileManager → List QueueItem → Bool → TileManager
start_request m batch single = record m {
  inflight = set_controllers m.controllers m.inflight batch;
  active = m.active + 1;
  requests =
      m.requests
      ++ record {
        controller = m.controllers;
        generation = m.generation;
        batch = batch;
        single = single;
        answered = [];
      }
        ∷ [];
  controllers = m.controllers + 1;
}

unfoldable pub execute_single_tile : TileManager → QueueItem → TileManager
unfolding start_request
execute_single_tile m item = elim (Dict.has item.key m.inflight) [
  | true ↦ start_request m (item ∷ []) true
  | false ↦ m
]

unfoldable pub execute_batch_tiles : TileManager → List QueueItem → TileManager
unfolding start_request
execute_batch_tiles m batch = start_request m batch false

unfoldable pub execute : TileManager → List QueueItem → TileManager
execute m [] = m
execute m (item ∷ []) = execute_single_tile m item
execute m (item ∷ next ∷ items) = execute_batch_tiles m (item ∷ next ∷ items)

-- Each round starts a request, so as many rounds as requests may be active are enough.
unfoldable pub drain_loop : ℕ → TileManager → TileManager
drain_loop zero m = m
drain_loop (suc fuel) m = elim (ltb m.active max_concurrency && ltb 0 (length m.queue)) [
  | false ↦ m
  | true ↦ elim (collect_batch m).0 [
    | [] ↦ (collect_batch m).1
    | item ∷ items ↦ drain_loop fuel (execute (collect_batch m).1 (item ∷ items))
  ]
]

unfoldable pub drain : TileManager → TileManager
unfolding drain_loop
drain m = drain_loop max_concurrency m
