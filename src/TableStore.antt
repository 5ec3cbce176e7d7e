-- ===== src/TableStore.antt =====
-- web/src/stores/table.ts: the tiles that the grid shows, the window and the selection. `Index` is the
-- type of client indices, which the store only holds.
pub mod Actions
pub mod Count
pub mod Evict
pub mod Stash
pub mod Session
use tableverse.Prelude.{
  ℕ, zero, suc, ◌+◌, ◌-◌, ◌*◌, ◌/◌, ◌≡◌, List, [], ◌∷◌, Option, none, some, Bool, true, false, ◌&&◌,
  ltb, if◌then◌else◌, length, Text, text_key, nat_key, ◌≟◌,
}
use tableverse.Prelude.Dict
use tableverse.Viewport.{Viewport}
use tableverse.ViewStore.{ColumnInfo}

abbrev pub tile_store_max_bytes : ℕ
tile_store_max_bytes = 268435456

-- The byte lengths of the buffers of the chunks of the columns of a record batch, `none` for what is
-- null or missing, and the length that the batch may state itself.
pub record Batch : Type 0 where
  pub byte_length : Option ℕ
  pub columns : List (Option (List (Option (List (Option ℕ)))))

-- What the store reads of an Arrow table; the number tells tables apart.
pub record BatchTable : Type 0 where
  pub id : ℕ
  pub batches : List Batch

add_buffers : ℕ → List (Option ℕ) → ℕ
add_buffers total [] = total
add_buffers total (none ∷ bs) = add_buffers total bs
add_buffers total (some n ∷ bs) = add_buffers (total + n) bs

add_chunks : ℕ → List (Option (List (Option ℕ))) → ℕ
add_chunks total [] = total
add_chunks total (none ∷ ds) = add_chunks total ds
add_chunks total (some bs ∷ ds) = add_chunks (add_buffers total bs) ds

add_columns : ℕ → List (Option (List (Option (List (Option ℕ))))) → ℕ
add_columns total [] = total
add_columns total (none ∷ cs) = add_columns total cs
add_columns total (some ds ∷ cs) = add_columns (add_chunks total ds) cs

-- `Math.ceil(total * 1.3)`, in exact arithmetic.
scale_up : ℕ → ℕ
scale_up total = (total * 13 + 9) / 10

add_batch : ℕ → Batch → ℕ
add_batch total b = elim b.byte_length [
  | none ↦ scale_up (add_columns total b.columns)
  | some n ↦ total + n
]

-- The loop over the batches. A batch that states no length scales the whole total so far.
add_batches : ℕ → List Batch → ℕ
add_batches total [] = total
add_batches total (b ∷ bs) = add_batches (add_batch total b) bs

-- `total || 1024`
or_1024 : ℕ → ℕ
or_1024 zero = 1024
or_1024 (suc n) = suc n

unfoldable pub batch_table_bytes : BatchTable → ℕ
unfolding add_buffers add_chunks add_columns scale_up add_batch add_batches or_1024
batch_table_bytes t = or_1024 (add_batches 0 t.batches)

-- A `Set` of texts.
abbrev pub KeySet : Type 0
KeySet = List (Text × Unit {0})

-- The fields that the client code modelled here reads; the store only holds them.
pub record SourceMeta : Type 0 where
  pub id : Text
  pub name : Text
  pub n_rows : ℕ
  pub n_cols : ℕ
  pub columns : List ColumnInfo

pub record CellAddress : Type 0 where
  pub row : ℕ
  pub col : ℕ

pub record CellRange : Type 0 where
  pub anchor : CellAddress
  pub active : CellAddress

pub record TableState (Index : Type 0) : Type 0 where
  pub source : Option SourceMeta
  pub viewport : Viewport
  pub selection : Option CellRange
  pub tiles : List (Text × BatchTable)
  pub tile_bytes : List (Text × ℕ)
  pub current_bytes : ℕ
  pub loading : KeySet
  pub provisional_tiles : KeySet
  pub stale_tiles : List (Text × BatchTable)
  pub client_index : Option Index

abbrev pub empty_store : {Index : Type 0} → TableState Index
empty_store = record {
  source = none;
  viewport = record { scroll_x = 0; scroll_y = 0; width = 0; height = 0 };
  selection = none;
  tiles = [];
  tile_bytes = [];
  current_bytes = 0;
  loading = [];
  provisional_tiles = [];
  stale_tiles = [];
  client_index = none;
}

-- `Partial<Viewport>`
pub record PartialViewport : Type 0 where
  pub scroll_x : Option ℕ
  pub scroll_y : Option ℕ
  pub width : Option ℕ
  pub height : Option ℕ

unfoldable pub or_else {ℓ} : {A : Type ℓ} → Option A → A → A
or_else none d = d
or_else (some a) d = a

-- The text behind the first colon.
unfoldable pub after_colon : Text → Option Text
after_colon [] = none
after_colon (c ∷ s) = elim (c ≟ 58) [ yes e ↦ some s | no e ↦ after_colon s ]

-- One round of `stashTilesAsStale`.
unfoldable pub stash_tile :
    List (Text × BatchTable) → Option Text → BatchTable → List (Text × BatchTable)
stash_tile stale none table = stale
stash_tile stale (some pk) table = Dict.set pk table stale

unfoldable pub stash_loop :
    List (Text × BatchTable) → List (Text × BatchTable) → List (Text × BatchTable)
unfolding stash_tile
stash_loop stale [] = stale
stash_loop stale ((key, table) ∷ tiles) =
    stash_loop (stash_tile stale (after_colon key) table) tiles
