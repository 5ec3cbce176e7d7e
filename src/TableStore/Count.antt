-- ===== src/TableStore/Count.antt =====
-- The byte count of web/src/stores/table.ts.
use mathlib.Core.Logic.{if_neg}
use tableverse.Prelude.{
  ℕ, ◌-◌, ◌≡◌, ◌≢◌, refl, sym, ap, ◌∙◌, List, [], ◌∷◌, Option, none, some, Bool, Text, text_key,
  ◌≟◌, arith, Option-cases, inl, inr,
}
use tableverse.Prelude.Dict
use tableverse.Prelude.Dict.{
  Distinct, total, get-set_self, get-set_ne, get-delete_ne, get-delete_self, delete-Distinct,
  set-Distinct, total-delete, total-set, delete_absent, get-delete_absent,
}
use tableverse.Viewport.{tile_key}
use tableverse.TableStore.{BatchTable, batch_table_bytes, TableState, or_else}
use tableverse.TableStore.Actions.{put_tile, evict_oldest}

-- The bytes recorded for a tile that may be absent.
unfoldable pub recorded_for : Option BatchTable → Option ℕ
recorded_for none = none
recorded_for (some t) = some (batch_table_bytes t)

tile_key-ne-nil : (row col : ℕ) (h : Text) → tile_key row col h ≢ []
unfolding tile_key
tile_key-ne-nil row col [] e = cc
tile_key-ne-nil row col (c ∷ h) e = cc

module _ {Index : Type 0} where
  -- The count is the sum over the tiles; the record of bytes is that of the tiles; no key stands
  -- twice, and none is empty.
  pub record IsValid (s : TableState Index) : Type 0 where
    pub counted : s.current_bytes ≡ total batch_table_bytes s.tiles
    pub recorded : (k : Text) → Dict.get k s.tile_bytes ≡ recorded_for (Dict.get k s.tiles)
    pub distinct : Distinct s.tiles
    pub distinct_bytes : Distinct s.tile_bytes
    pub named : Dict.get [] s.tiles ≡ none

  module _ (s : TableState Index) (row col : ℕ) (table : BatchTable) (h : Text) (b : Bool)
      (v : IsValid s) where
    abbrev key : Text
    key = tile_key row col h

    put_tile-counted :
        (put_tile s row col table h b).current_bytes
        ≡ total batch_table_bytes (put_tile s row col table h b).tiles
    unfolding put_tile recorded_for or_else
    put_tile-counted = elim (Option-cases (Dict.get key s.tiles)) [
      | inl fresh ↦ ground (
        arith,
        v.counted,
        v.recorded key,
        delete_absent key s.tiles fresh,
        total-set batch_table_bytes key table s.tiles fresh,
      )
      | inr (t, old) ↦ ground (
        arith,
        v.counted,
        v.recorded key,
        total-delete batch_table_bytes key s.tiles t old,
        total-set batch_table_bytes key table (Dict.delete key s.tiles)
            (get-delete_self key s.tiles v.distinct),
      )
    ]

    put_tile-recorded :
        (k : Text)
        → Dict.get k (put_tile s row col table h b).tile_bytes
          ≡ recorded_for (Dict.get k (put_tile s row col table h b).tiles)
    unfolding put_tile recorded_for
    put_tile-recorded k = elim (k ≟ key) [
      | yes e ↦ rw (e, get-set_self, get-set_self) refl
      | no e ↦
          rw (get-set_ne k key _ _ e, get-set_ne k key _ _ e, get-delete_ne k key s.tiles e)
            (v.recorded k)
    ]

    pub put_tile-IsValid : IsValid (put_tile s row col table h b)
    unfolding put_tile
    put_tile-IsValid = record {
      counted = put_tile-counted;
      recorded = put_tile-recorded;
      distinct = set-Distinct _ _ _ (delete-Distinct _ _ v.distinct);
      distinct_bytes = set-Distinct _ _ _ v.distinct_bytes;
      named =
          get-set_ne [] key table _ (λ e. tile_key-ne-nil row col h (sym e))
          ∙ get-delete_absent [] key s.tiles v.named;
    }

  -- The body of the loop takes off the first tile.
  module _ (s : TableState Index) (k : Text) (t : BatchTable) (m : List (Text × BatchTable))
      (first : s.tiles ≡ (k, t) ∷ m) (v : IsValid s) where
    oldest-named : k ≢ []
    unfolding Dict.get
    oldest-named = λ e. let absent = rw first at v.named in ground arith

    oldest-recorded : Dict.get k s.tile_bytes ≡ some (batch_table_bytes t)
    unfolding Dict.get recorded_for
    oldest-recorded = v.recorded k ∙ rw first (ground arith)

    tiles-delete : Dict.delete k s.tiles ≡ m
    unfolding Dict.delete
    tiles-delete = rw first (ground arith)

    abbrev evicted : TableState Index
    evicted = record s {
      current_bytes = s.current_bytes - batch_table_bytes t;
      tiles = m;
      tile_bytes = Dict.delete k s.tile_bytes;
      provisional_tiles = Dict.delete k s.provisional_tiles;
    }

    pub evict_oldest_lem : evict_oldest s ((k, t) ∷ m) ≡ evicted
    unfolding or_else evict_oldest
    evict_oldest_lem = ground (arith, oldest-recorded, oldest-named, tiles-delete)

    evicted-recorded :
        (j : Text) → Dict.get j (Dict.delete k s.tile_bytes) ≡ recorded_for (Dict.get j m)
    unfolding Dict.get recorded_for
    evicted-recorded j = elim (j ≟ k) [
      | yes e ↦
          let distinct = rw first at v.distinct in
          rw (e, get-delete_self k s.tile_bytes v.distinct_bytes, distinct.0) refl
      | no e ↦
          get-delete_ne j k s.tile_bytes e
          ∙ v.recorded j
          ∙ ap recorded_for (rw first (if_neg (j ≟ k) e _ _))
    ]

    evicted-named : Dict.get [] m ≡ none
    evicted-named = Dict.get-tail [] k t m (rw first at v.named)

    pub evicted-IsValid : IsValid evicted
    unfolding total
    evicted-IsValid =
        let counted = rw first at v.counted in
        let distinct = rw first at v.distinct in
        record {
          counted = omega (arith, counted);
          recorded = evicted-recorded;
          distinct = distinct.1;
          distinct_bytes = delete-Distinct _ _ v.distinct_bytes;
          named = evicted-named;
        }
