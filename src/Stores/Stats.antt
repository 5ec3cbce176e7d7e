-- ===== src/Stores/Stats.antt =====
-- web/src/stores/stats.ts and web/src/stores/landmarkStore.ts. What the server answers is of types that
-- the stores only hold.
use tableverse.Prelude.{
  ℕ, ◌≡◌, List, [], ◌∷◌, ◌++◌, Option, none, Bool, true, false, ◌||◌, if◌then◌else◌, Text, text_key,
  arith,
}
use tableverse.Prelude.Dict
use tableverse.Prelude.Dict.{get-set_self, has-of_some}
use tableverse.Prelude.Radix.{to_string}
use tableverse.TableStore.{KeySet}

pub record CachedCorrelations (Matrix : Type 0) : Type 0 where
  pub source_id : Text
  pub matrix : Matrix

pub record StatsState (ColumnStats RowGroupStat Matrix : Type 0) : Type 0 where
  pub stats : List (Text × ColumnStats)
  pub pending : KeySet
  pub row_group_stats : List (Text × List RowGroupStat)
  pub correlations : Option (CachedCorrelations Matrix)

unfoldable pub stats_key : Text → ℕ → Text
stats_key source_id col_index = source_id ++ 58 ∷ to_string 10 col_index

module _ {ColumnStats RowGroupStat Matrix : Type 0} where
  unfoldable pub set_row_group_stats :
      StatsState ColumnStats RowGroupStat Matrix
      → Text
      → List RowGroupStat
      → StatsState ColumnStats RowGroupStat Matrix
  set_row_group_stats s key stats = record s {
    row_group_stats = Dict.set key stats s.row_group_stats;
  }

  unfoldable pub set_correlations :
      StatsState ColumnStats RowGroupStat Matrix
      → Option (CachedCorrelations Matrix)
      → StatsState ColumnStats RowGroupStat Matrix
  set_correlations s cached = record s { correlations = cached }

  -- The part of `fetchStats` before its request, and whether there is one.
  unfoldable pub fetch_stats :
      StatsState ColumnStats RowGroupStat Matrix
      → Text
      → ℕ
      → StatsState ColumnStats RowGroupStat Matrix × Bool
  fetch_stats s source_id col_index =
      let key = stats_key source_id col_index in
      if Dict.has key s.stats || Dict.has key s.pending
      then (s, false)
      else (record s { pending = Dict.set key tt s.pending }, true)

  -- The handlers of the request.
  unfoldable pub stats_fetched :
      StatsState ColumnStats RowGroupStat Matrix
      → Text
      → ColumnStats
      → StatsState ColumnStats RowGroupStat Matrix
  stats_fetched s key result = record s {
    stats = Dict.set key result s.stats;
    pending = Dict.delete key s.pending;
  }

  unfoldable pub stats_failed :
      StatsState ColumnStats RowGroupStat Matrix → Text → StatsState ColumnStats RowGroupStat Matrix
  stats_failed s key = record s { pending = Dict.delete key s.pending }

  unfoldable pub clear_stats :
      StatsState ColumnStats RowGroupStat Matrix → StatsState ColumnStats RowGroupStat Matrix
  clear_stats s = record { stats = []; pending = []; row_group_stats = []; correlations = none }

  -- While a request for a column runs, no second one is made.
  pub fetch_stats-fetch_stats :
      (s : StatsState ColumnStats RowGroupStat Matrix) (source_id : Text) (col_index : ℕ)
      → fetch_stats (fetch_stats s source_id col_index).0 source_id col_index
        ≡ ((fetch_stats s source_id col_index).0, false)
  unfolding fetch_stats
  fetch_stats-fetch_stats s source_id col_index =
      let key = stats_key source_id col_index in
      ground (arith, has-of_some key (Dict.set key tt s.pending) tt (get-set_self key tt s.pending))

-- A landmark of the map, and the store that holds the list of them.
pub data LandmarkType : Type 0 where
  null_surge : LandmarkType
  outlier : LandmarkType
  boundary : LandmarkType

pub record Landmark (N : Type 0) : Type 0 where
  pub row_offset : ℕ
  pub row_count : ℕ
  pub kind : LandmarkType
  pub severity : N
  pub affected_cols : List ℕ

pub record LandmarkStore (N : Type 0) : Type 0 where
  pub landmarks : List (Landmark N)

unfoldable pub set_landmarks : {N : Type 0} → LandmarkStore N → List (Landmark N) → LandmarkStore N
set_landmarks s landmarks = record s { landmarks = landmarks }
