-- ===== src/Stores/Perf.antt =====
-- web/src/stores/perf.ts: how many tiles came from the cache.
use tableverse.Prelude.{ℕ, ◌+◌, ◌≤◌, Bool, if◌then◌else◌, arith, ◌==◌}

pub record PerfState : Type 0 where
  pub last_tile_ms : ℕ
  pub cache_hits : ℕ
  pub cache_misses : ℕ

unfoldable pub record_tile_load : PerfState → ℕ → Bool → PerfState
record_tile_load s ms from_cache = record {
  last_tile_ms = ms;
  cache_hits = if from_cache then s.cache_hits + 1 else s.cache_hits;
  cache_misses = if from_cache then s.cache_misses else s.cache_misses + 1;
}

-- The ratio as a numerator and a denominator.
unfoldable pub hit_ratio : PerfState → ℕ × ℕ
hit_ratio s =
    let total = s.cache_hits + s.cache_misses in
    if total == 0 then (0, 1) else (s.cache_hits, total)

-- The ratio is at most 1.
pub hit_ratio_le : (s : PerfState) → (hit_ratio s).0 ≤ (hit_ratio s).1
unfolding hit_ratio
hit_ratio_le s = ground arith
