-- ===== src/Tests/Tables.antt =====
-- The stores of web/src/stores/table.ts on small tables.
use tableverse.Prelude.{
  ℕ, ◌≡◌, refl, List, [], ◌∷◌, none, some, Text, text, text_key, false, true, arith, List-discrete,
  ℕ_discrete,
}
use tableverse.Prelude.Dict
use tableverse.Prelude.Dict.{Distinct}
use tableverse.Prelude.Radix.{to_string}
use tableverse.Viewport.{tile_key, pos_key}
use tableverse.TableStore.{
  BatchTable, batch_table_bytes, TableState, empty_store, or_else, stash_loop, stash_tile,
  after_colon,
}
use tableverse.TableStore.Actions.{
  put_tile, evict_oldest, evict_tiles, cache_tile, stash_tiles_as_stale, mark_loading,
}
use tableverse.TableStore.Evict.{IsWithin}
use tableverse.TableStore.Stash.{get-stash_tiles_as_stale}
use tableverse.TableStore.Session.{
  TableAction, cache_tile_action, mark_loading_action, act_table, run_table, run_table-IsWithin,
}

tables : Unit {0}
unfolding batch_table_bytes or_else stash_loop stash_tile after_colon put_tile evict_oldest
    evict_tiles cache_tile stash_tiles_as_stale mark_loading act_table run_table tile_key pos_key
    to_string Dict.get Dict.has Dict.set Dict.delete List-discrete ℕ_discrete
tables = tt

abbrev stated : ℕ → ℕ → BatchTable
stated id bytes = record {
  id = id;
  batches = record { byte_length = some bytes; columns = [] } ∷ [];
}

abbrev measured : BatchTable
measured = record {
  id = 3;
  batches =
      record { byte_length = none; columns = some (some (some 100 ∷ none ∷ []) ∷ []) ∷ [] }
      ∷ record { byte_length = none; columns = [] }
      ∷ [];
}

-- The second batch, which is empty, scales the bytes of the first once more.
scaled_twice : batch_table_bytes measured ≡ 169
unfolding batch_table_bytes
scaled_twice = refl

abbrev h : Text
h = text "00ff"

abbrev actions : List (TableAction (Unit {0}))
actions =
    mark_loading_action 0 0 h
    ∷ cache_tile_action 0 0 (stated 1 200000000) h false
    ∷ cache_tile_action 0 64 (stated 2 100000000) h true
    ∷ []

-- The second tile evicts the first.
after_actions : (run_table empty_store actions).tiles ≡ (tile_key 0 64 h, stated 2 100000000) ∷ []
unfolding tables
after_actions = refl

run_table-IsWithin_example : IsWithin (run_table empty_store actions)
run_table-IsWithin_example = run_table-IsWithin actions

abbrev one_tile : TableState (Unit {0})
one_tile = record empty_store { tiles = (tile_key 0 64 h, stated 2 100) ∷ [] }

get-stash_tiles_as_stale_example :
    Dict.get (pos_key 0 64) (stash_tiles_as_stale one_tile).stale_tiles
    ≡ Dict.get (tile_key 0 64 h) one_tile.tiles
unfolding Dict.get
get-stash_tiles_as_stale_example =
    get-stash_tiles_as_stale one_tile 0 64 h (ground arith) ((0, 64, refl), tt) (refl, tt)
