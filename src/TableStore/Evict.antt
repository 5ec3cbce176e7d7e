-- ===== src/TableStore/Evict.antt =====
-- The loop of `cacheTile` of web/src/stores/table.ts.
use tableverse.Prelude.{
  ℕ, ◌≤◌, ◌≡◌, ap, ◌∙◌, refl, List, [], ◌∷◌, Bool, ◌&&◌, ltb, length, Text, text_key, arith,
  Bool-cases, inl, inr,
}
use tableverse.Prelude.Dict.{total}
use tableverse.TableStore.{tile_store_max_bytes, BatchTable, TableState}
use tableverse.TableStore.Actions.{put_tile, evict_oldest, evict_tiles, cache_tile}
use tableverse.TableStore.Count.{IsValid, put_tile-IsValid, evict_oldest_lem, evicted-IsValid}

module _ {Index : Type 0} where
  -- A valid state within the limit.
  pub record IsWithin (s : TableState Index) : Type 0 where
    pub valid : IsValid s
    pub small : s.current_bytes ≤ tile_store_max_bytes

  evict_tiles_list :
      (m : List (Text × BatchTable)) (s : TableState Index)
      → s.tiles ≡ m
      → IsValid s
      → IsWithin (evict_tiles (length m) s)
  unfolding evict_tiles total
  evict_tiles_list [] s h v = record {
    valid = v;
    small = let counted = rw h at v.counted in omega (arith, counted);
  }
  evict_tiles_list ((k, t) ∷ m) s h v =
      elim (Bool-cases (ltb tile_store_max_bytes s.current_bytes && ltb 0 (length s.tiles))) [
        | inl over ↦
            rw (over, evict_tiles, ap (evict_oldest s) h ∙ evict_oldest_lem s k t m h v)
              (evict_tiles_list m _ refl (evicted-IsValid s k t m h v))
        | inr fits ↦
            rw (fits, evict_tiles)
              (record { valid = v; small = let fits' = rw h at fits in ground arith })
      ]

  -- Evicting stops within the limit, whatever the state, and there are rounds enough.
  pub evict_tiles-IsWithin :
      (s : TableState Index) → IsValid s → IsWithin (evict_tiles (length s.tiles) s)
  evict_tiles-IsWithin s v = evict_tiles_list s.tiles s refl v

  -- On a valid state, cacheTile keeps the byte count right and ends within the limit, also for a
  -- tile that alone passes it.
  pub cache_tile-IsWithin :
      (s : TableState Index) (row col : ℕ) (table : BatchTable) (h : Text) (b : Bool)
      → IsValid s
      → IsWithin (cache_tile s row col table h b)
  unfolding cache_tile
  cache_tile-IsWithin s row col table h b v =
      evict_tiles-IsWithin (put_tile s row col table h b) (put_tile-IsValid s row col table h b v)
