-- ===== src/TileCache/Eviction.antt =====
-- What `set` of web/src/lib/tile-cache.ts evicts, and what it leaves.
use tableverse.Prelude.{
  ℕ, zero, suc, ◌+◌, ◌-◌, ◌≤◌, ◌<◌, ◌≡◌, ◌⊎◌, inl, inr, refl, ap, ◌∙◌, List, [], ◌∷◌, ◌++◌, none,
  some, ◌&&◌, ltb, length, drop, Text, text_key, arith, Bool-cases, Option-cases,
}
use tableverse.Prelude.Dict
use tableverse.Prelude.Dict.{total, delete_absent, set_absent}
use tableverse.TileCache.{TileCache, Table, Entry, get, make_room, delete, set, table_byte_size}
use tableverse.TileCache.Invariant.{
  IsValid, entry_bytes, evict_lem, evict-IsValid, delete-IsValid, get-make_room_absent,
  get-delete_absent_self,
}

-- `r` is `c` without its `n` oldest entries, the fewest that leave room for the bytes.
pub record MadeRoom (bytes : ℕ) (c : TileCache) (n : ℕ) (r : TileCache) : Type 0 where
  pub kept : r.cache ≡ drop n c.cache
  pub enough : (r.current_bytes + bytes ≤ c.max_bytes) ⊎ (r.cache ≡ [])
  pub needed : (n ≡ 0) ⊎ (c.max_bytes < total entry_bytes (drop (n - 1) c.cache) + bytes)

pred-suc : (n : ℕ) → suc n - 1 ≡ n
pred-suc n = omega arith

-- One more round in front.
MadeRoom-suc :
    (bytes n : ℕ) (c : TileCache) (a : Text) (e : Entry) (m : List (Text × Entry)) {r : TileCache}
    → c.cache ≡ (a, e) ∷ m
    → c.current_bytes ≡ total entry_bytes c.cache
    → c.max_bytes < c.current_bytes + bytes
    → MadeRoom bytes (record c { cache = m; current_bytes = c.current_bytes - e.bytes }) n r
    → MadeRoom bytes c (suc n) r
MadeRoom-suc bytes zero c a e m h counted over made = record {
  kept = rw h made.kept;
  enough = made.enough;
  needed = inr (omega (arith, counted));
}
MadeRoom-suc bytes (suc n) c a e m h counted over made = record {
  kept = rw h made.kept;
  enough = made.enough;
  needed = elim made.needed [
    | inl none_dropped ↦ absurd (omega arith)
    | inr over' ↦ inr (rw (h, pred-suc (suc n)) (rw (pred-suc n) at over'))
  ];
}

make_room_entries :
    (m : List (Text × Entry)) (bytes : ℕ) (c : TileCache)
    → c.cache ≡ m
    → IsValid c
    → (n : ℕ) × MadeRoom bytes c n (make_room (length m) bytes c)
unfolding make_room
make_room_entries [] bytes c h v = (0, record { kept = refl; enough = inr h; needed = inl refl })
make_room_entries ((a, e) ∷ m) bytes c h v =
    elim (Bool-cases (ltb c.max_bytes (c.current_bytes + bytes) && ltb 0 (length c.cache))) [
      | inl over ↦
          let valid = rw (evict_lem c a e m h) at (evict-IsValid c v) in
          let (n, made) = make_room_entries m bytes _ refl valid in
          (
            suc n,
            rw (over, make_room, evict_lem c a e m h)
                (MadeRoom-suc bytes n c a e m h v.counted (ground arith) made),
          )
      | inr fits ↦
          rw (fits, make_room)
            (
              0,
              record {
                kept = refl;
                enough = inl (let fits' = rw h at fits in ground arith);
                needed = inl refl;
              },
            )
    ]

-- Room is made by dropping the oldest entries, no more than needed, and there are rounds enough.
pub make_room_lem :
    (bytes : ℕ) (c : TileCache)
    → IsValid c
    → (n : ℕ) × MadeRoom bytes c n (make_room (length c.cache) bytes c)
make_room_lem bytes c v = make_room_entries c.cache bytes c refl v

pub cache-delete : (c : TileCache) (key : Text) → (delete c key).cache ≡ Dict.delete key c.cache
unfolding delete
cache-delete c key = elim (Option-cases (Dict.get key c.cache)) [
  | inl miss ↦ rw (miss, delete, delete_absent key c.cache miss)
  | inr (e, hit) ↦ rw (hit, delete)
]

max_bytes-delete : (c : TileCache) (key : Text) → (delete c key).max_bytes ≡ c.max_bytes
unfolding delete
max_bytes-delete c key = ground arith

abbrev pub entry : Table → Entry
entry t = record { table = t; bytes = table_byte_size t }

-- What `set` does to the map: the entry at the end, behind what is left of the other entries.
pub record Stored (c : TileCache) (key : Text) (t : Table) (n : ℕ) (r : TileCache) : Type 0 where
  pub order : r.cache ≡ drop n (Dict.delete key c.cache) ++ (key, entry t) ∷ []
  pub bounded : (r.current_bytes ≤ c.max_bytes) ⊎ (r.cache ≡ (key, entry t) ∷ [])
  pub needed :
      (n ≡ 0)
      ⊎ (c.max_bytes
          < total entry_bytes (drop (n - 1) (Dict.delete key c.cache)) + table_byte_size t)

-- `set` on a valid cache stores the table as the newest entry; of the other entries it drops the
-- oldest, as few as leave room; the bytes stay in the budget, or the new entry is the only one.
pub set_lem :
    (c : TileCache) (key : Text) (t : Table) → IsValid c → (n : ℕ) × Stored c key t n (set c key t)
unfolding set
set_lem c key t v =
    let without = delete c key in
    let bytes = table_byte_size t in
    let (n, made) = make_room_lem bytes without (delete-IsValid c key v) in
    let order = set_absent key (entry t) _ (
      get-make_room_absent (length without.cache) bytes without key
        (get-delete_absent_self c key v)) in
    (
      n,
      record {
        order = rw (order, made.kept, cache-delete c key);
        bounded = elim made.enough [
          | inl fits ↦ inl (omega (arith, fits, max_bytes-delete c key))
          | inr empty ↦ inr (order ∙ ap (λ m. m ++ (key, entry t) ∷ []) empty)
        ];
        needed = rw (cache-delete c key, max_bytes-delete c key) at made.needed;
      },
    )

-- `get` returns what the map holds; a hit becomes the newest entry, and a miss changes nothing.
pub get_lem :
    (c : TileCache) (key : Text)
    → IsValid c
    → ((e : Entry)
        → Dict.get key c.cache ≡ some e
        → get c key ≡ (record c { cache = Dict.delete key c.cache ++ (key, e) ∷ [] }, some e.table))
      × (Dict.get key c.cache ≡ none → get c key ≡ (c, none))
unfolding get
get_lem c key v = (
  λ e hit. rw (hit, get, set_absent key e _ (Dict.get-delete_self key c.cache v.distinct)),
  λ miss. rw (miss, get),
)

-- A table that was just stored is what `get` returns, also when it alone passes the budget.
pub get-set_self :
    (c : TileCache) (key : Text) (t : Table) → IsValid c → (get (set c key t) key).1 ≡ some t
unfolding get set
get-set_self c key t v = rw (Dict.get-set_self key (entry t) _, get)
