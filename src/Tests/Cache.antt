-- ===== src/Tests/Cache.antt =====
-- The cache of web/src/lib/tile-cache.ts on small tables.
use tableverse.Prelude.{
  ℕ, ◌≡◌, refl, List, [], ◌∷◌, none, some, text, text_key, length, List-discrete, ℕ_discrete,
}
use tableverse.Prelude.Dict
use tableverse.TileCache.{Table, new, get, set, delete, evict, make_room, table_byte_size, clear}
use tableverse.TileCache.Eviction.{MadeRoom, make_room_lem, Stored, set_lem, entry}
use tableverse.TileCache.Session.{Call, set_call, get_call, run, call, IsBounded, run-IsBounded}

program : Unit {0}
unfolding new get set delete evict make_room table_byte_size run call Dict.get Dict.set Dict.delete
    List-discrete ℕ_discrete clear
program = tt

abbrev table : ℕ → ℕ → Table
table id bytes = record { id = id; columns = some (some (some bytes ∷ none ∷ []) ∷ []) ∷ none ∷ [] }

abbrev calls : List Call
calls =
    set_call (text "a") (table 1 600)
    ∷ set_call (text "b") (table 2 300)
    ∷ get_call (text "a")
    ∷ set_call (text "c") (table 3 400)
    ∷ []

-- The read of `a` makes `b` the oldest, which goes for `c`.
after_calls : run (new 1000) calls ≡ record {
  cache = (text "a", entry (table 1 600)) ∷ (text "c", entry (table 3 400)) ∷ [];
  current_bytes = 1000;
  max_bytes = 1000;
}
unfolding program
after_calls = refl

empty_table : table_byte_size (record { id = 4; columns = [] }) ≡ 1024
unfolding program
empty_table = refl

run-IsBounded_example : IsBounded 1000 (run (new 1000) calls)
run-IsBounded_example = run-IsBounded 1000 calls

make_room_lem_example :
    (n : ℕ) × MadeRoom 500
      (run (new 1000) calls)
      n
      (make_room (length (run (new 1000) calls).cache) 500 (run (new 1000) calls))
make_room_lem_example = make_room_lem 500 (run (new 1000) calls) (run-IsBounded 1000 calls).valid

set_lem_example :
    (n : ℕ) × Stored
      (run (new 1000) calls)
      (text "b")
      (table 5 900)
      n
      (set (run (new 1000) calls) (text "b") (table 5 900))
set_lem_example =
    set_lem (run (new 1000) calls) (text "b") (table 5 900) (run-IsBounded 1000 calls).valid
