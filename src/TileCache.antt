-- ===== src/TileCache.antt =====
-- web/src/lib/tile-cache.ts: `TileCache`, a byte-bounded cache in the order of a `Map`.
pub mod Invariant
pub mod Eviction
pub mod Session
use tableverse.Prelude.{
  ℕ, zero, suc, ◌+◌, ◌-◌, ◌≡◌, List, [], ◌∷◌, Option, none, some, Bool, true, false, ◌&&◌, ltb,
  if◌then◌else◌, length, Text, text_key,
}
use tableverse.Prelude.Dict

-- What the cache reads of an Arrow table: the byte lengths of the buffers (`none` for a null one) of
-- the chunks (`none` for a missing one) of the columns (`none` where `getChildAt` returns null). The
-- number tells tables apart.
pub record Table : Type 0 where
  pub id : ℕ
  pub columns : List (Option (List (Option (List (Option ℕ)))))

buffers_bytes : List (Option ℕ) → ℕ
buffers_bytes [] = 0
buffers_bytes (none ∷ bs) = buffers_bytes bs
buffers_bytes (some n ∷ bs) = n + buffers_bytes bs

chunks_bytes : List (Option (List (Option ℕ))) → ℕ
chunks_bytes [] = 0
chunks_bytes (none ∷ ds) = chunks_bytes ds
chunks_bytes (some bs ∷ ds) = buffers_bytes bs + chunks_bytes ds

columns_bytes : List (Option (List (Option (List (Option ℕ))))) → ℕ
columns_bytes [] = 0
columns_bytes (none ∷ cs) = columns_bytes cs
columns_bytes (some ds ∷ cs) = chunks_bytes ds + columns_bytes cs

-- `total || 1024`
or_default : ℕ → ℕ
or_default zero = 1024
or_default (suc n) = suc n

unfoldable pub table_byte_size : Table → ℕ
unfolding buffers_bytes chunks_bytes columns_bytes or_default
table_byte_size t = or_default (columns_bytes t.columns)

pub record Entry : Type 0 where
  pub table : Table
  pub bytes : ℕ

pub record TileCache : Type 0 where
  pub cache : List (Text × Entry)
  pub current_bytes : ℕ
  pub max_bytes : ℕ

unfoldable pub new : ℕ → TileCache
new max_bytes = record { cache = []; current_bytes = 0; max_bytes = max_bytes }

-- `get`: a hit goes to the end of the map.
unfoldable pub get : TileCache → Text → TileCache × Option Table
get c key = elim (Dict.get key c.cache) [
  | none ↦ (c, none)
  | some e ↦ (record c { cache = Dict.set key e (Dict.delete key c.cache) }, some e.table)
]

-- `evict`: the first key of the map is the one used longest ago.
evict_first : TileCache → List (Text × Entry) → TileCache
evict_first c [] = c
evict_first c ((oldest, e) ∷ m) = record c {
  cache = Dict.delete oldest c.cache;
  current_bytes = c.current_bytes - e.bytes;
}

unfoldable pub evict : TileCache → TileCache
unfolding evict_first
evict c = evict_first c c.cache

-- The loop of `set`; each round removes one entry, so `length cache` rounds are enough.
unfoldable pub make_room : ℕ → ℕ → TileCache → TileCache
make_room zero bytes c = c
make_room (suc fuel) bytes c =
    elim (ltb c.max_bytes (c.current_bytes + bytes) && ltb 0 (length c.cache)) [
      | true ↦ make_room fuel bytes (evict c)
      | false ↦ c
    ]

-- `delete`
unfoldable pub delete : TileCache → Text → TileCache
delete c key = elim (Dict.get key c.cache) [
  | none ↦ c
  | some e ↦ record c { cache = Dict.delete key c.cache; current_bytes = c.current_bytes - e.bytes }
]

-- `set`: the branch on an existing entry does what `delete` does.
unfoldable pub set : TileCache → Text → Table → TileCache
set c key table =
    let bytes = table_byte_size table in
    let without = delete c key in
    let room = make_room (length without.cache) bytes without in
    record room {
      cache = Dict.set key (record { table = table; bytes = bytes }) room.cache;
      current_bytes = room.current_bytes + bytes;
    }

unfoldable pub has : TileCache → Text → Bool
has c key = Dict.has key c.cache

unfoldable pub clear : TileCache → TileCache
clear c = record c { cache = []; current_bytes = 0 }

unfoldable pub size : TileCache → ℕ
size c = length c.cache
