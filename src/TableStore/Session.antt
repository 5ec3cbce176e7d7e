-- ===== src/TableStore/Session.antt =====
-- Sequences of actions on the store of web/src/stores/table.ts.
use tableverse.Prelude.{ℕ, ◌≡◌, refl, List, [], ◌∷◌, Option, Bool, Text, text_key, arith}
use tableverse.Prelude.Dict
use tableverse.Prelude.Dict.{total}
use tableverse.TableStore.{
  BatchTable, SourceMeta, CellRange, PartialViewport, TableState, empty_store,
}
use tableverse.TableStore.Actions.{
  set_source, set_viewport, set_selection, cache_tile, mark_loading, unmark_loading,
  set_client_index, invalidate_tiles, stash_tiles_as_stale, clear_stale_tiles,
}
use tableverse.TableStore.Count.{recorded_for}
use tableverse.TableStore.Evict.{IsWithin, cache_tile-IsWithin}

-- The actions that change the state.
pub data TableAction (Index : Type 0) : Type 0 where
  set_source_action : Option SourceMeta → TableAction Index
  set_viewport_action : PartialViewport → TableAction Index
  set_selection_action : Option CellRange → TableAction Index
  cache_tile_action : ℕ → ℕ → BatchTable → Text → Bool → TableAction Index
  mark_loading_action : ℕ → ℕ → Text → TableAction Index
  unmark_loading_action : ℕ → ℕ → Text → TableAction Index
  set_client_index_action : Option Index → TableAction Index
  invalidate_action : TableAction Index
  stash_action : TableAction Index
  clear_stale_action : TableAction Index

module _ {Index : Type 0} where
  unfoldable pub act_table : TableState Index → TableAction Index → TableState Index
  act_table s (set_source_action x) = set_source s x
  act_table s (set_viewport_action x) = set_viewport s x
  act_table s (set_selection_action x) = set_selection s x
  act_table s (cache_tile_action row col table h b) = cache_tile s row col table h b
  act_table s (mark_loading_action row col h) = mark_loading s row col h
  act_table s (unmark_loading_action row col h) = unmark_loading s row col h
  act_table s (set_client_index_action x) = set_client_index s x
  act_table s invalidate_action = invalidate_tiles s
  act_table s stash_action = stash_tiles_as_stale s
  act_table s clear_stale_action = clear_stale_tiles s

  unfoldable pub run_table : TableState Index → List (TableAction Index) → TableState Index
  run_table s [] = s
  run_table s (a ∷ actions) = run_table (act_table s a) actions

  -- A state with no tiles.
  cleared-IsWithin :
      (s : TableState Index) → s.tiles ≡ [] → s.tile_bytes ≡ [] → s.current_bytes ≡ 0 → IsWithin s
  unfolding total recorded_for Dict.get
  cleared-IsWithin s no_tiles no_bytes zero_bytes = record {
    valid = record {
      counted = rw (zero_bytes, no_tiles) refl;
      recorded = λ k. rw (no_tiles, no_bytes) refl;
      distinct = rw no_tiles tt;
      distinct_bytes = rw no_bytes tt;
      named = rw no_tiles refl;
    };
    small = omega (arith, zero_bytes);
  }

  -- A state with the tiles and the counts of another.
  same-IsWithin :
      (r s : TableState Index)
      → r.tiles ≡ s.tiles
      → r.tile_bytes ≡ s.tile_bytes
      → r.current_bytes ≡ s.current_bytes
      → IsWithin s
      → IsWithin r
  same-IsWithin r s tiles bytes count w = record {
    valid = record {
      counted = rw (tiles, count) w.valid.counted;
      recorded = rw (tiles, bytes) w.valid.recorded;
      distinct = rw tiles w.valid.distinct;
      distinct_bytes = rw bytes w.valid.distinct_bytes;
      named = rw tiles w.valid.named;
    };
    small = rw count w.small;
  }

  act_table-IsWithin :
      (s : TableState Index) (a : TableAction Index) → IsWithin s → IsWithin (act_table s a)
  unfolding act_table set_source set_viewport set_selection mark_loading unmark_loading
      set_client_index invalidate_tiles stash_tiles_as_stale clear_stale_tiles
  act_table-IsWithin s (set_source_action x) w = cleared-IsWithin _ refl refl refl
  act_table-IsWithin s (set_viewport_action x) w = same-IsWithin _ s refl refl refl w
  act_table-IsWithin s (set_selection_action x) w = same-IsWithin _ s refl refl refl w
  act_table-IsWithin s (cache_tile_action row col table h b) w =
      cache_tile-IsWithin s row col table h b w.valid
  act_table-IsWithin s (mark_loading_action row col h) w = same-IsWithin _ s refl refl refl w
  act_table-IsWithin s (unmark_loading_action row col h) w = same-IsWithin _ s refl refl refl w
  act_table-IsWithin s (set_client_index_action x) w = same-IsWithin _ s refl refl refl w
  act_table-IsWithin s invalidate_action w = cleared-IsWithin _ refl refl refl
  act_table-IsWithin s stash_action w = cleared-IsWithin _ refl refl refl
  act_table-IsWithin s clear_stale_action w = same-IsWithin _ s refl refl refl w

  run_table-IsWithin_from :
      (s : TableState Index) (actions : List (TableAction Index))
      → IsWithin s
      → IsWithin (run_table s actions)
  unfolding run_table
  run_table-IsWithin_from s [] w = w
  run_table-IsWithin_from s (a ∷ actions) w =
      run_table-IsWithin_from (act_table s a) actions (act_table-IsWithin s a w)

  -- After any actions on an empty store, the byte count is the sum over the tiles, each tile has its
  -- bytes recorded and no other key has, no key stands twice, and the count is within the limit.
  pub run_table-IsWithin :
      (actions : List (TableAction Index)) → IsWithin (run_table empty_store actions)
  run_table-IsWithin actions =
      run_table-IsWithin_from empty_store actions (cleared-IsWithin _ refl refl refl)
