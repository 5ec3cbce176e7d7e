-- ===== src/PrefetchModel.antt =====
-- web/src/lib/prefetch-model.ts: class PrefetchModel, which counts where the view went after two tiles.
-- What is recorded are tiles of the table; what is predicted may lie outside of it.
use tableverse.Prelude.{
  ℕ, ◌+◌, ◌≤◌, List, [], ◌∷◌, ◌++◌, Option, none, some, ltb, ◌==◌, ◌&&◌, if◌then◌else◌, Text,
  text_key, length, take, drop, arith, length-append,
}
use tableverse.Prelude.Dict
use tableverse.Prelude.Int.{ℤ, pos, ◌+ℤ◌, ◌-ℤ◌, ◌*ℤ◌}
use tableverse.Prelude.Radix.{to_string, value_from}
use tableverse.Viewport.{TileCoord}
use tableverse.TableStore.{or_else}

abbrev pub history_len : ℕ
history_len = 20

abbrev pub prefetch_candidates : ℕ
prefetch_candidates = 3

pub record Prediction : Type 0 where
  pub row : ℤ
  pub col : ℤ

-- The counts of the tiles that came after a state.
abbrev pub Counts : Type 0
Counts = List (Text × ℕ)

pub record PrefetchModel : Type 0 where
  pub history : List TileCoord
  pub transitions : List (Text × Counts)

abbrev pub empty_model : PrefetchModel
empty_model = record { history = []; transitions = [] }

unfoldable pub coord_key : TileCoord → Text
coord_key c = to_string 10 c.row ++ 44 ∷ to_string 10 c.col

unfoldable pub state_key : TileCoord → TileCoord → Text
state_key prev2 prev1 = coord_key prev2 ++ 124 ∷ coord_key prev1

-- The last two of a history, the older first.
unfoldable pub last_two : List TileCoord → Option (TileCoord × TileCoord)
last_two [] = none
last_two (a ∷ []) = none
last_two (a ∷ b ∷ []) = some (a, b)
last_two (a ∷ b ∷ c ∷ cs) = last_two (b ∷ c ∷ cs)

unfoldable pub count_next : List (Text × Counts) → Text → Text → List (Text × Counts)
count_next transitions state next =
    let counts = or_else (Dict.get state transitions) [] in
    Dict.set state (Dict.set next (or_else (Dict.get next counts) 0 + 1) counts) transitions

unfoldable pub count_from_two :
    Option (TileCoord × TileCoord) → TileCoord → List (Text × Counts) → List (Text × Counts)
unfolding count_next coord_key
count_from_two none coord transitions = transitions
count_from_two (some (prev2, prev1)) coord transitions =
    count_next transitions (state_key prev2 prev1) (coord_key coord)

-- `record`: a full history drops its oldest tile.
unfoldable pub record_tile : PrefetchModel → ℕ → ℕ → PrefetchModel
unfolding last_two count_from_two
record_tile m row col =
    let coord : TileCoord = record { row = row; col = col } in
    let pushed = m.history ++ coord ∷ [] in
    record {
      history = if ltb history_len (length pushed) then drop 1 pushed else pushed;
      transitions = count_from_two (last_two m.history) coord m.transitions;
    }

-- A stable sort, the larger counts first.
unfoldable pub insert_count : Text × ℕ → Counts → Counts
insert_count e [] = e ∷ []
insert_count e (f ∷ fs) =
    let rest = insert_count e fs in if ltb e.1 f.1 then f ∷ rest else e ∷ f ∷ fs

unfoldable pub sort_counts : Counts → Counts
unfolding insert_count
sort_counts [] = []
sort_counts (e ∷ es) = insert_count e (sort_counts es)

-- The texts before and behind the first comma.
unfoldable pub split_comma : Text → Text × Text
split_comma [] = ([], [])
split_comma (c ∷ s) =
    let (before, behind) = split_comma s in if c == 44 then ([], s) else (c ∷ before, behind)

unfoldable pub parse_key : Text → Prediction
unfolding split_comma
parse_key key =
    let (row, col) = split_comma key in
    record { row = pos (value_from 10 0 row); col = pos (value_from 10 0 col) }

unfoldable pub parse_keys : Counts → List Prediction
unfolding parse_key
parse_keys [] = []
parse_keys ((key, count) ∷ es) = parse_key key ∷ parse_keys es

-- `fallbackPredictions` on a history of two or more: on in the direction of the last step.
unfoldable pub fallback_predictions : TileCoord → TileCoord → List Prediction
unfolding ◌+ℤ◌ ◌-ℤ◌ ◌*ℤ◌
fallback_predictions prev last =
    let row = pos last.row in
    let col = pos last.col in
    let dr = row -ℤ pos prev.row in
    let dc = col -ℤ pos prev.col in
    if last.row == prev.row && last.col == prev.col
    then record { row = row +ℤ pos 1; col = col }
      ∷ record { row = row -ℤ pos 1; col = col }
      ∷ record { row = row; col = col +ℤ pos 1 }
      ∷ []
    else record { row = row +ℤ dr; col = col +ℤ dc }
      ∷ record { row = row +ℤ pos 2 *ℤ dr; col = col +ℤ pos 2 *ℤ dc }
      ∷ record { row = row +ℤ dr; col = col }
      ∷ []

unfoldable pub predict : PrefetchModel → List Prediction
unfolding last_two sort_counts parse_keys fallback_predictions state_key
predict m = elim (last_two m.history) [
  | none ↦ []
  | some two ↦ elim (Dict.get (state_key two.0 two.1) m.transitions) [
    | none ↦ fallback_predictions two.0 two.1
    | some counts ↦ parse_keys (take prefetch_candidates (sort_counts counts))
  ]
]

unfoldable pub reset : PrefetchModel → PrefetchModel
reset m = empty_model

unfoldable pub record_all : PrefetchModel → List TileCoord → PrefetchModel
unfolding record_tile
record_all m [] = m
record_all m (c ∷ coords) = record_all (record_tile m c.row c.col) coords

record_tile-short :
    (m : PrefetchModel) (row col : ℕ)
    → length m.history ≤ history_len
    → length (record_tile m row col).history ≤ history_len
unfolding record_tile
record_tile-short m row col h =
    ground (arith, length-append m.history (record { row = row; col = col } ∷ []))

-- A history within 20 tiles stays within 20, whatever is recorded.
pub record_all-short :
    (m : PrefetchModel) (coords : List TileCoord)
    → length m.history ≤ history_len
    → length (record_all m coords).history ≤ history_len
unfolding record_all
record_all-short m [] h = h
record_all-short m (c ∷ coords) h =
    record_all-short (record_tile m c.row c.col) coords (record_tile-short m c.row c.col h)
