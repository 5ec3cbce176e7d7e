-- ===== src/TileCache/Invariant.antt =====
-- The cache of web/src/lib/tile-cache.ts: its byte count and its keys under every method.
use tableverse.Prelude.{
  ℕ, zero, suc, ◌+◌, ◌-◌, ◌≡◌, inl, inr, refl, List, [], ◌∷◌, none, ◌&&◌, ltb, length, Text,
  text_key, arith, Option-cases, Bool-cases,
}
use tableverse.Prelude.Dict
use tableverse.Prelude.Dict.{
  Distinct, delete-Distinct, set-Distinct, total, total-delete, total-set, get-delete_self,
}
use tableverse.TileCache.{
  TileCache, Table, Entry, new, get, evict, make_room, delete, set, clear, table_byte_size,
}

abbrev pub entry_bytes : Entry → ℕ
entry_bytes e = e.bytes

-- The count of bytes is the sum over the entries, and no key stands twice.
pub record IsValid (c : TileCache) : Type 0 where
  pub counted : c.current_bytes ≡ total entry_bytes c.cache
  pub distinct : Distinct c.cache

-- `evict` drops the first entry of the map.
pub evict_lem :
    (c : TileCache) (a : Text) (e : Entry) (m : List (Text × Entry))
    → c.cache ≡ (a, e) ∷ m
    → evict c ≡ record c { cache = m; current_bytes = c.current_bytes - e.bytes }
unfolding evict Dict.delete
evict_lem c a e m h = rw (h, evict) (ground arith)

evict_nil : (c : TileCache) → c.cache ≡ [] → evict c ≡ c
unfolding evict
evict_nil c h = rw (h, evict)

pub evict-IsValid : (c : TileCache) → IsValid c → IsValid (evict c)
unfolding total
evict-IsValid c v = by_entries c.cache refl
  where
    by_entries : (m : List (Text × Entry)) → c.cache ≡ m → IsValid (evict c)
    by_entries [] h = rw (evict_nil c h) v
    by_entries ((a, e) ∷ m) h =
        let counted = rw h at v.counted in
        let distinct = rw h at v.distinct in
        rw (evict_lem c a e m h)
          (record { counted = omega (arith, counted); distinct = distinct.1 })

pub get-IsValid : (c : TileCache) (key : Text) → IsValid c → IsValid (get c key).0
unfolding get
get-IsValid c key v = elim (Option-cases (Dict.get key c.cache)) [
  | inl miss ↦ rw (miss, get) v
  | inr (e, hit) ↦
      rw (hit, get)
        (record {
          counted = omega (
            arith,
            v.counted,
            total-delete entry_bytes key c.cache e hit,
            total-set entry_bytes key e (Dict.delete key c.cache)
                (get-delete_self key c.cache v.distinct),
          );
          distinct = set-Distinct _ _ _ (delete-Distinct _ _ v.distinct);
        })
]

pub delete-IsValid : (c : TileCache) (key : Text) → IsValid c → IsValid (delete c key)
unfolding delete
delete-IsValid c key v = elim (Option-cases (Dict.get key c.cache)) [
  | inl miss ↦ rw (miss, delete) v
  | inr (e, hit) ↦
      rw (hit, delete)
        (record {
          counted = omega (arith, v.counted, total-delete entry_bytes key c.cache e hit);
          distinct = delete-Distinct _ _ v.distinct;
        })
]

pub make_room-IsValid :
    (fuel bytes : ℕ) (c : TileCache) → IsValid c → IsValid (make_room fuel bytes c)
unfolding make_room
make_room-IsValid zero bytes c v = v
make_room-IsValid (suc fuel) bytes c v =
    elim (Bool-cases (ltb c.max_bytes (c.current_bytes + bytes) && ltb 0 (length c.cache))) [
      | inl over ↦ rw (over, make_room) (make_room-IsValid fuel bytes (evict c) (evict-IsValid c v))
      | inr fits ↦ rw (fits, make_room) v
    ]

max_bytes-evict : (c : TileCache) → (evict c).max_bytes ≡ c.max_bytes
unfolding evict
max_bytes-evict c = ground arith

pub max_bytes-make_room :
    (fuel bytes : ℕ) (c : TileCache) → (make_room fuel bytes c).max_bytes ≡ c.max_bytes
unfolding make_room
max_bytes-make_room zero bytes c = refl
max_bytes-make_room (suc fuel) bytes c =
    ground (arith, max_bytes-make_room fuel bytes (evict c), max_bytes-evict c)

-- What `evict` leaves absent keys: absent.
get-evict_absent :
    (c : TileCache) (key : Text) → Dict.get key c.cache ≡ none → Dict.get key (evict c).cache ≡ none
get-evict_absent c key absent = by_entries c.cache refl
  where
    by_entries : (m : List (Text × Entry)) → c.cache ≡ m → Dict.get key (evict c).cache ≡ none
    by_entries [] h = rw (evict_nil c h) absent
    by_entries ((a, e) ∷ m) h = rw (evict_lem c a e m h) (Dict.get-tail key a e m (rw h at absent))

pub get-make_room_absent :
    (fuel bytes : ℕ) (c : TileCache) (key : Text)
    → Dict.get key c.cache ≡ none
    → Dict.get key (make_room fuel bytes c).cache ≡ none
unfolding make_room
get-make_room_absent zero bytes c key absent = absent
get-make_room_absent (suc fuel) bytes c key absent =
    ground (arith, get-make_room_absent fuel bytes (evict c) key (get-evict_absent c key absent))

pub get-delete_absent_self :
    (c : TileCache) (key : Text) → IsValid c → Dict.get key (delete c key).cache ≡ none
unfolding delete
get-delete_absent_self c key v = elim (Option-cases (Dict.get key c.cache)) [
  | inl miss ↦ rw (miss, delete) miss
  | inr (e, hit) ↦ rw (hit, delete) (get-delete_self key c.cache v.distinct)
]

pub set-IsValid : (c : TileCache) (key : Text) (t : Table) → IsValid c → IsValid (set c key t)
unfolding set
set-IsValid c key t v =
    let without = delete c key in
    let bytes = table_byte_size t in
    let room = make_room-IsValid (length without.cache) bytes without (delete-IsValid c key v) in
    record {
      counted = omega (
        arith,
        room.counted,
        total-set entry_bytes key (record { table = t; bytes = bytes }) _
            (get-make_room_absent (length without.cache) bytes without key
              (get-delete_absent_self c key v)),
      );
      distinct = set-Distinct _ _ _ room.distinct;
    }

pub new-IsValid : (max_bytes : ℕ) → IsValid (new max_bytes)
unfolding new total
new-IsValid max_bytes = record { counted = refl; distinct = tt }

pub clear-IsValid : (c : TileCache) → IsValid (clear c)
unfolding clear total
clear-IsValid c = record { counted = refl; distinct = tt }
