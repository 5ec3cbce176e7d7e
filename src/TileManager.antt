-- ===== src/TileManager.antt =====
-- web/src/lib/tile-manager.ts: class TileManager, its state and the helpers of its operations.
-- A promise is a number; `settled` says what each was settled with, and `cleanups` are the handlers of
-- settled promises that did not run yet. A request is a call of fetchViewTile or fetchViewTileBatch
-- that was not answered yet, under a number that stands for its controller. Times are milliseconds; a
-- score is counted in halves, and a velocity is an integer.
pub mod Queue
pub mod Events
pub mod Answers
pub mod Session
pub mod Load
pub mod Active
use tableverse.Prelude.{
  ℕ, zero, suc, ◌+◌, ◌-◌, ◌*◌, ◌/◌, ◌≡◌, List, [], ◌∷◌, ◌++◌, Option, none, some, Bool, true, false,
  ltb, if◌then◌else◌, Text, text_key, nat_key,
}
use tableverse.Prelude.Dict
use tableverse.Prelude.Int.{ℤ, pos, negsuc, abs, ◌+ℤ◌, ◌-ℤ◌, ◌*ℤ◌}
use tableverse.TileCache
use tableverse.TileCache.{TileCache, Table}
use tableverse.MinHeap.{Scored}

abbrev pub max_concurrency : ℕ
max_concurrency = 8

abbrev pub max_retries : ℕ
max_retries = 3

abbrev pub failed_ttl_ms : ℕ
failed_ttl_ms = 30000

-- What the manager reads of QueryTileParams: the view enters by its source.
pub record QueryTileParams : Type 0 where
  pub source_id : Text
  pub row : ℕ
  pub col : ℕ
  pub rows : Option ℕ
  pub cols : Option ℕ

pub record TileMeta : Type 0 where
  pub table : Table
  pub is_provisional : Bool
  pub job_id : Option Text

-- The errors: the DOMException `AbortError`, the two errors that the manager makes, and any other.
pub data Failure : Type 0 where
  abort_error : Failure
  tile_unavailable : Failure
  tile_server_error : Failure
  other_error : Text → Failure

pub data Outcome : Type 0 where
  resolved : TileMeta → Outcome
  rejected : Failure → Outcome

-- The promise stands for both its `resolve` and its `reject`.
pub record QueueItem : Type 0 where
  pub key : Text
  pub tile_row : ℕ
  pub tile_col : ℕ
  pub params : QueryTileParams
  pub promise : ℕ

pub record InflightEntry : Type 0 where
  pub promise : ℕ
  pub controller : Option ℕ
  pub enqueued_at : ℕ

pub record Request : Type 0 where
  pub controller : ℕ
  pub generation : ℕ
  pub batch : List QueueItem
  pub single : Bool
  pub answered : List ℕ

-- A retry that waits for its timer.
pub record Retry : Type 0 where
  pub generation : ℕ
  pub item : QueueItem

pub record TileManager : Type 0 where
  pub cache : TileCache
  pub inflight : List (Text × InflightEntry)
  pub failed_at : List (Text × ℕ)
  pub retries : List (Text × ℕ)
  pub queue : List (Scored QueueItem)
  pub active : ℕ
  pub generation : ℕ
  pub viewport_center_row : ℕ
  pub viewport_center_col : ℕ
  pub vy : ℤ
  pub vx : ℤ
  pub drain_scheduled : Bool
  pub landmark_tile_rows : List (ℕ × Unit {0})
  pub settled : List (ℕ × Outcome)
  pub cleanups : List Text
  pub promises : ℕ
  pub requests : List Request
  pub controllers : ℕ
  pub aborted : List ℕ
  pub finals : ℕ
  pub timers : List Retry

unfoldable pub new : ℕ → TileManager
unfolding TileCache.new
new max_cache_bytes = record {
  cache = TileCache.new max_cache_bytes;
  inflight = [];
  failed_at = [];
  retries = [];
  queue = [];
  active = 0;
  generation = 0;
  viewport_center_row = 0;
  viewport_center_col = 0;
  vy = pos 0;
  vx = pos 0;
  drain_scheduled = false;
  landmark_tile_rows = [];
  settled = [];
  cleanups = [];
  promises = 0;
  requests = [];
  controllers = 0;
  aborted = [];
  finals = 0;
  timers = [];
}

-- Settling a promise: only the first counts, and its handlers, which take the key out of `inflight`,
-- run later. Each promise is that of one key.
unfoldable pub settle : TileManager → Text → ℕ → Outcome → TileManager
settle m key promise outcome = elim (Dict.has promise m.settled) [
  | true ↦ m
  | false ↦ record m {
    settled = Dict.set promise outcome m.settled;
    cleanups = m.cleanups ++ key ∷ [];
  }
]

unfoldable pub resolve : TileManager → QueueItem → TileMeta → TileManager
unfolding settle
resolve m item answer = settle m item.key item.promise (resolved answer)

unfoldable pub reject : TileManager → QueueItem → Failure → TileManager
unfolding settle
reject m item failure = settle m item.key item.promise (rejected failure)

unfoldable pub reject_all : TileManager → List QueueItem → Failure → TileManager
unfolding reject
reject_all m [] failure = m
reject_all m (item ∷ items) failure = reject_all (reject m item failure) items failure

-- `entry.controller?.abort()`
unfoldable pub abort : TileManager → Option ℕ → TileManager
abort m none = m
abort m (some controller) = record m { aborted = controller ∷ m.aborted }

-- `directionScore`, in halves.
unfoldable pub direction_score : TileManager → ℕ → ℕ → ℤ
unfolding ◌+ℤ◌ ◌-ℤ◌ ◌*ℤ◌
direction_score m tile_row tile_col =
    let dr = pos tile_row -ℤ pos m.viewport_center_row in
    let dc = pos tile_col -ℤ pos m.viewport_center_col in
    let dist = abs dr +ℤ abs dc in
    let dot = dr *ℤ m.vy +ℤ dc *ℤ m.vx in
    let landmark_bonus = if Dict.has tile_row m.landmark_tile_rows then negsuc 5 else pos 0 in
    pos 2 *ℤ dist -ℤ dot +ℤ landmark_bonus
