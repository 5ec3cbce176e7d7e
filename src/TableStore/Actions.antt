-- ===== src/TableStore/Actions.antt =====
-- The actions of web/src/stores/table.ts.
use tableverse.Prelude.{
  ℕ, zero, suc, ◌+◌, ◌-◌, List, [], ◌∷◌, Option, none, Bool, true, false, ◌&&◌, ltb, if◌then◌else◌,
  length, Text, text_key, ◌≟◌, ite,
}
use tableverse.Prelude.Dict
use tableverse.Viewport.{tile_key, pos_key}
use tableverse.TableStore.{
  tile_store_max_bytes, BatchTable, batch_table_bytes, SourceMeta, CellRange, TableState,
  PartialViewport, or_else, stash_loop,
}

module _ {Index : Type 0} where
  unfoldable pub set_source : TableState Index → Option SourceMeta → TableState Index
  set_source s source = record s {
    source = source;
    tiles = [];
    tile_bytes = [];
    current_bytes = 0;
    loading = [];
    provisional_tiles = [];
    stale_tiles = [];
    client_index = none;
  }

  unfoldable pub set_viewport : TableState Index → PartialViewport → TableState Index
  set_viewport s p = record s {
    viewport = record {
      scroll_x = or_else p.scroll_x s.viewport.scroll_x;
      scroll_y = or_else p.scroll_y s.viewport.scroll_y;
      width = or_else p.width s.viewport.width;
      height = or_else p.height s.viewport.height;
    };
  }

  unfoldable pub set_selection : TableState Index → Option CellRange → TableState Index
  set_selection s selection = record s { selection = selection }

  -- The part of `cacheTile` before its loop.
  unfoldable pub put_tile : TableState Index → ℕ → ℕ → BatchTable → Text → Bool → TableState Index
  put_tile s row col table view_hash is_provisional =
      let key = tile_key row col view_hash in
      let existing_bytes = or_else (Dict.get key s.tile_bytes) 0 in
      let rest =
        if ltb 0 existing_bytes then s.current_bytes - existing_bytes else s.current_bytes in
      let bytes = batch_table_bytes table in
      record s {
        tiles = Dict.set key table (Dict.delete key s.tiles);
        tile_bytes = Dict.set key bytes s.tile_bytes;
        current_bytes = rest + bytes;
        loading = Dict.delete key s.loading;
        provisional_tiles =
            if is_provisional
            then Dict.set key tt s.provisional_tiles
            else Dict.delete key s.provisional_tiles;
        stale_tiles = Dict.delete (pos_key row col) s.stale_tiles;
      }

  -- The body of the loop; an empty key would be left where it is.
  unfoldable pub evict_oldest : TableState Index → List (Text × BatchTable) → TableState Index
  evict_oldest s [] = s
  evict_oldest s ((oldest, table) ∷ rest) = ite (oldest ≟ []) s (record s {
    current_bytes = s.current_bytes - or_else (Dict.get oldest s.tile_bytes) 0;
    tiles = Dict.delete oldest s.tiles;
    tile_bytes = Dict.delete oldest s.tile_bytes;
    provisional_tiles = Dict.delete oldest s.provisional_tiles;
  })

  -- The loop of `cacheTile`; each round removes a tile, so as many rounds as tiles are enough.
  unfoldable pub evict_tiles : ℕ → TableState Index → TableState Index
  evict_tiles zero s = s
  evict_tiles (suc fuel) s =
      elim (ltb tile_store_max_bytes s.current_bytes && ltb 0 (length s.tiles)) [
        | true ↦ evict_tiles fuel (evict_oldest s s.tiles)
        | false ↦ s
      ]

  unfoldable pub cache_tile : TableState Index → ℕ → ℕ → BatchTable → Text → Bool → TableState Index
  cache_tile s row col table view_hash is_provisional =
      let put = put_tile s row col table view_hash is_provisional in
      evict_tiles (length put.tiles) put

  unfoldable pub mark_loading : TableState Index → ℕ → ℕ → Text → TableState Index
  mark_loading s row col view_hash = record s {
    loading = Dict.set (tile_key row col view_hash) tt s.loading;
  }

  unfoldable pub unmark_loading : TableState Index → ℕ → ℕ → Text → TableState Index
  unmark_loading s row col view_hash = record s {
    loading = Dict.delete (tile_key row col view_hash) s.loading;
  }

  unfoldable pub has_tile : TableState Index → ℕ → ℕ → Text → Bool
  has_tile s row col view_hash = Dict.has (tile_key row col view_hash) s.tiles

  unfoldable pub is_loading : TableState Index → ℕ → ℕ → Text → Bool
  is_loading s row col view_hash = Dict.has (tile_key row col view_hash) s.loading

  unfoldable pub set_client_index : TableState Index → Option Index → TableState Index
  set_client_index s index = record s { client_index = index }

  unfoldable pub invalidate_tiles : TableState Index → TableState Index
  invalidate_tiles s = record s {
    tiles = [];
    tile_bytes = [];
    current_bytes = 0;
    loading = [];
    provisional_tiles = [];
    stale_tiles = [];
    client_index = none;
  }

  unfoldable pub stash_tiles_as_stale : TableState Index → TableState Index
  stash_tiles_as_stale s = record s {
    stale_tiles = stash_loop [] s.tiles;
    tiles = [];
    tile_bytes = [];
    current_bytes = 0;
    loading = [];
    provisional_tiles = [];
    client_index = none;
  }

  unfoldable pub clear_stale_tiles : TableState Index → TableState Index
  clear_stale_tiles s = record s { stale_tiles = [] }
