-- ===== src/TileManager/Answers.antt =====
-- The answers of the requests of web/src/lib/tile-manager.ts: executeSingleTile and executeBatchTiles.
use tableverse.Prelude.{
  ℕ, zero, suc, ◌+◌, ◌-◌, List, [], ◌∷◌, none, some, Bool, true, false, ◌==◌, text_key, nat_key,
  get_elem?, set, ◌≟◌, ite, if◌then◌else◌,
}
use tableverse.Prelude.Dict
use tableverse.TileCache
use tableverse.TileManager.{
  TileMeta, Failure, abort_error, tile_unavailable, tile_server_error, other_error, QueueItem,
  Request, TileManager, resolve, reject, reject_all,
}
use tableverse.TileManager.Queue.{schedule_retry, drain}
use tableverse.TileManager.Events.{without}

-- A tile that came: into the cache, and to those who wait.
unfoldable pub store_tile : TileManager → QueueItem → TileMeta → TileManager
store_tile m item answer =
    resolve
      (record m {
        retries = Dict.delete item.key m.retries;
        cache = TileCache.set m.cache item.key answer.table;
      })
      item answer

unfoldable pub retry_and_reject : ℕ → TileManager → QueueItem → Failure → TileManager
retry_and_reject now m item failure = reject (schedule_retry now m item) item failure

unfoldable pub retry_and_reject_all : ℕ → TileManager → List QueueItem → Failure → TileManager
unfolding retry_and_reject
retry_and_reject_all now m [] failure = m
retry_and_reject_all now m (item ∷ items) failure =
    retry_and_reject_all now (retry_and_reject now m item failure) items failure

unfoldable pub is_one_of : ℕ → List ℕ → Bool
is_one_of i [] = false
is_one_of i (j ∷ js) = if i == j then true else is_one_of i js

-- The items of a batch, from an index on, that no tile answered.
unfoldable pub unanswered : List ℕ → ℕ → List QueueItem → List QueueItem
unanswered answered i [] = []
unanswered answered i (item ∷ items) =
    let rest = unanswered answered (suc i) items in
    if is_one_of i answered then rest else item ∷ rest

-- The request is over: its handler of `finally` comes next.
unfoldable pub finish : TileManager → ℕ → TileManager
unfolding without
finish m i = record m { requests = without i m.requests; finals = m.finals + 1 }

-- The answer of a request for one tile.
unfoldable pub single_done : TileManager → Request → QueueItem → TileMeta → TileManager
single_done m request item answer =
    ite (m.generation ≟ request.generation) (store_tile m item answer) (reject m item abort_error)

-- Is the failure the DOMException `AbortError`?
unfoldable pub is_abort : Failure → Bool
is_abort abort_error = true
is_abort tile_unavailable = false
is_abort tile_server_error = false
is_abort (other_error name) = false

-- A failed request for one tile or for several.
unfoldable pub request_failed : ℕ → TileManager → Request → Failure → TileManager
unfolding retry_and_reject_all is_abort
request_failed now m request failure =
    ite (m.generation ≟ request.generation)
      (if is_abort failure
        then reject_all m request.batch failure
        else retry_and_reject_all now m request.batch failure)
      (reject_all m request.batch abort_error)

-- A tile of a request for several.
unfoldable pub batch_tile : TileManager → ℕ → Request → ℕ → TileMeta → TileManager
batch_tile m i request index answer =
    ite (m.generation ≟ request.generation)
      (elim (get_elem? request.batch index) [
        | none ↦ m
        | some item ↦
            store_tile
              (record m {
                requests =
                    set m.requests i (record request { answered = index ∷ request.answered });
              })
              item answer
      ])
      m

-- The end of a request for several tiles.
unfoldable pub batch_done : ℕ → TileManager → Request → TileManager
unfolding retry_and_reject_all unanswered is_one_of
batch_done now m request =
    ite (m.generation ≟ request.generation)
      (retry_and_reject_all now m (unanswered request.answered 0 request.batch) tile_server_error) m

-- The handler of `finally`.
unfoldable pub final : TileManager → TileManager
final m = elim m.finals [
  | zero ↦ m
  | suc n ↦ drain (record m { finals = n; active = m.active - 1 })
]

-- What a request can be answered with.
pub data Response : Type 0 where
  tile : TileMeta → Response
  tile_of : ℕ → TileMeta → Response
  done : Response
  failing : Failure → Response

-- A tile answers a request for one tile.
unfoldable pub tile_response :
    TileManager → ℕ → Request → Bool → List QueueItem → TileMeta → TileManager
tile_response m i request false batch answer = m
tile_response m i request true [] answer = m
tile_response m i request true (item ∷ items) answer = finish (single_done m request item answer) i

unfoldable pub respond_to : ℕ → TileManager → ℕ → Request → Response → TileManager
unfolding tile_response
respond_to now m i request (tile answer) =
    tile_response m i request request.single request.batch answer
respond_to now m i request (tile_of index answer) =
    if request.single then m else batch_tile m i request index answer
respond_to now m i request done = if request.single then m else finish (batch_done now m request) i
respond_to now m i request (failing failure) = finish (request_failed now m request failure) i

-- A response to the `i`-th request that runs. Those that its kind does not have change nothing.
unfoldable pub respond : ℕ → TileManager → ℕ → Response → TileManager
unfolding respond_to
respond now m i response = elim (get_elem? m.requests i) [
  | none ↦ m
  | some request ↦ respond_to now m i request response
]
