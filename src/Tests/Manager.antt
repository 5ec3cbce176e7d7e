-- ===== src/Tests/Manager.antt =====
-- The queue and the manager of web/src/lib/min-heap.ts and web/src/lib/tile-manager.ts on small inputs.
use tableverse.Prelude.{
  ℕ, ◌+◌, ◌≡◌, get_elem?, refl, List, [], ◌∷◌, none, some, text, List-discrete, ℕ_discrete,
}
use tableverse.Prelude.Dict
use tableverse.Prelude.Int.{ℤ, ◌≤ℤ◌, pos, negsuc, ◌+ℤ◌, ◌-ℤ◌, ◌*ℤ◌, abs}
use tableverse.Prelude.Radix.{to_string}
use tableverse.Viewport.{tile_key, pos_key}
use tableverse.TileCache
use tableverse.TileCache.{Table}
use tableverse.MinHeap
use tableverse.TableStore.{or_else}
use tableverse.MinHeap.{Scored}
use tableverse.MinHeap.Session.{HeapAction, push_item, pop_item, act_heap, run_heap, pop-run_heap}
use tableverse.MinHeap.Weight.{weight, weight-pop}
use tableverse.TileManager
use tableverse.TileManager.{QueryTileParams, TileMeta, TileManager, other_error, direction_score}
use tableverse.TileManager.Queue
use tableverse.TileManager.Events
use tableverse.TileManager.Answers
use tableverse.TileManager.Session.{
  Event, step, steps, get_tile_event, frame_event, respond_event, final_event, cleanup_event,
  fire_event,
}
use tableverse.TileManager.Active.{IsCounted, steps-IsCounted}

abbrev entry : ℤ → ℕ → Scored ℕ
entry score item = record { score = score; item = item }

abbrev heap : List (Scored ℕ)
heap = entry (negsuc 0) 7 ∷ entry (pos 5) 8 ∷ entry (pos 2) 9 ∷ []

popped : MinHeap.pop heap ≡ (some 7, entry (pos 2) 9 ∷ entry (pos 5) 8 ∷ [])
unfolding MinHeap.pop MinHeap.sink_down MinHeap.pop_last MinHeap.smallest_of MinHeap.less
    MinHeap.swap
popped = refl

weight-pop_example : 7 + weight (λ x. x) (MinHeap.pop heap).1 ≡ weight (λ x. x) heap
weight-pop_example =
    weight-pop (λ x. x) (entry (negsuc 0) 7) (entry (pos 5) 8 ∷ entry (pos 2) 9 ∷ [])

manager : Unit {0}
unfolding TileManager.new TileManager.settle TileManager.reject TileManager.reject_all
    TileManager.direction_score Queue.enqueue Queue.enqueue_all Queue.schedule_retry
    Queue.first_wanted Queue.fill_batch Queue.collect_batch Queue.set_controller
    Queue.set_controllers Queue.start_request Queue.execute_single_tile Queue.execute_batch_tiles
    Queue.execute Queue.drain_loop Queue.drain Events.check_failed Events.schedule_drain
    Events.request_tile Events.get_tile Events.frame Events.cleanup Events.without Events.fire
    Answers.retry_and_reject Answers.retry_and_reject_all Answers.finish Answers.is_abort
    Answers.request_failed Answers.final Answers.respond_to Answers.respond Answers.tile_response
    step steps MinHeap.pop MinHeap.sink_down MinHeap.pop_last MinHeap.smallest_of MinHeap.less
    MinHeap.swap MinHeap.push MinHeap.bubble_up TileCache.new TileCache.get Dict.get Dict.has
    Dict.set Dict.delete tile_key pos_key to_string List-discrete ℕ_discrete ◌+ℤ◌ ◌-ℤ◌ ◌*ℤ◌ abs
manager = tt

abbrev params : QueryTileParams
params = record { source_id = text "s"; row = 0; col = 0; rows = none; cols = none }

-- A tile is asked for, the request fails, its handlers run, and the timer of the retry fires.
abbrev failed_once : List Event
failed_once =
    get_tile_event 0 params (text "0f")
    ∷ frame_event
    ∷ respond_event 5 0 (Answers.failing (other_error (text "e")))
    ∷ final_event
    ∷ cleanup_event 0
    ∷ fire_event 0
    ∷ []

steps-IsCounted_example : IsCounted (steps (TileManager.new 1000) failed_once)
steps-IsCounted_example = steps-IsCounted 1000 failed_once

-- The retry starts no request.
no_retry : (steps (TileManager.new 1000) failed_once).requests ≡ []
unfolding manager or_else
no_retry = refl

abbrev heap_actions : List (HeapAction ℕ)
heap_actions = push_item (pos 5) 8 ∷ push_item (pos 2) 9 ∷ push_item (negsuc 0) 7 ∷ pop_item ∷ []

heap_left : run_heap [] heap_actions ≡ entry (pos 2) 9 ∷ entry (pos 5) 8 ∷ []
unfolding run_heap act_heap MinHeap.push MinHeap.bubble_up MinHeap.pop MinHeap.sink_down
    MinHeap.pop_last MinHeap.smallest_of MinHeap.less MinHeap.swap
heap_left = refl

pop-run_heap_example :
    ((MinHeap.pop (entry (pos 2) 9 ∷ entry (pos 5) 8 ∷ [])).0 ≡ some 9)
    × ((i : ℕ) (y : Scored ℕ)
        → get_elem? (entry (pos 2) 9 ∷ entry (pos 5) 8 ∷ []) i ≡ some y
        → pos 2 ≤ℤ y.score)
pop-run_heap_example = pop-run_heap heap_actions (entry (pos 2) 9) (entry (pos 5) 8 ∷ []) heap_left
