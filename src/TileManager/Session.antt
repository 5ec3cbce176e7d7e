-- ===== src/TileManager/Session.antt =====
-- Any sequence of the operations and events of web/src/lib/tile-manager.ts.
use tableverse.Prelude.{ℕ, List, [], ◌∷◌, Text}
use tableverse.Prelude.Int.{ℤ}
use tableverse.TableStore.{KeySet}
use tableverse.TileManager.{QueryTileParams, TileManager}
use tableverse.TileManager.Events.{
  set_viewport_center, set_viewport_velocity, set_landmark_priorities, is_failed, cancel_stale,
  get_tile, invalidate, collect_garbage, frame, cleanup, fire,
}
use tableverse.TileManager.Answers.{Response, respond, final}

-- The operations, then the events. The first number of some is the time.
pub data Event : Type 0 where
  set_viewport_center_event : ℕ → ℕ → Event
  set_viewport_velocity_event : ℤ → ℤ → Event
  set_landmark_priorities_event : List ℕ → Event
  is_failed_event : ℕ → ℕ → ℕ → Text → Event
  cancel_stale_event : KeySet → Event
  get_tile_event : ℕ → QueryTileParams → Text → Event
  invalidate_event : Event
  collect_garbage_event : ℕ → Event
  frame_event : Event
  cleanup_event : ℕ → Event
  fire_event : ℕ → Event
  respond_event : ℕ → ℕ → Response → Event
  final_event : Event

unfoldable pub step : TileManager → Event → TileManager
step m (set_viewport_center_event tile_row tile_col) = set_viewport_center m tile_row tile_col
step m (set_viewport_velocity_event vy vx) = set_viewport_velocity m vy vx
step m (set_landmark_priorities_event rows) = set_landmark_priorities m rows
step m (is_failed_event now row col view_hash) = (is_failed now m row col view_hash).0
step m (cancel_stale_event visible) = cancel_stale m visible
step m (get_tile_event now params view_hash) = (get_tile now m params view_hash).0
step m invalidate_event = invalidate m
step m (collect_garbage_event now) = collect_garbage now m.inflight m
step m frame_event = frame m
step m (cleanup_event i) = cleanup m i
step m (fire_event i) = fire m i
step m (respond_event now i response) = respond now m i response
step m final_event = final m

unfoldable pub steps : TileManager → List Event → TileManager
steps m [] = m
steps m (e ∷ events) = steps (step m e) events
