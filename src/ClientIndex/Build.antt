-- ===== src/ClientIndex/Build.antt =====
-- web/src/lib/client-index.ts: build, which makes the index of the tables of a source. An Arrow table is
-- the fields of its schema with their type as text, its number of rows, and its columns by name, null
-- values as `none`; a column has as many values as its table has rows. `V` is the type of values;
-- `to_number` and `to_text` are `Number` and `String` on them; `to_lower` is `toLowerCase`, for the /i
-- of the pattern of number types.
use tableverse.Prelude.{
  ℕ, suc, ◌+◌, List, [], ◌∷◌, Option, none, some, Bool, true, false, ◌||◌, if◌then◌else◌, Text,
  text, text_key, ◌≟◌, ite, map, length, set, replicate,
}
use tableverse.Prelude.Dict
use tableverse.ClientIndex.{floats, strings, Numbers, ClientIndex, text_less, includes, rows_from}
use tableverse.ClientIndex.Sorted.{text_at}

pub record ArrowTable (V : Type 0) : Type 0 where
  pub fields : List (Text × Text)
  pub num_rows : ℕ
  pub children : List (Text × List (Option V))

-- The rows in the order of their texts, those with one text in their own order.
unfoldable pub insert_row : List Text → ℕ → List ℕ → List ℕ
unfolding text_less text_at
insert_row xs row [] = row ∷ []
insert_row xs row (r ∷ rows) =
    let rest = insert_row xs row rows in
    if text_less (text_at xs r) (text_at xs row) then r ∷ rest else row ∷ r ∷ rows

unfoldable pub sort_by_text : List Text → List ℕ → List ℕ
unfolding insert_row
sort_by_text xs [] = []
sort_by_text xs (row ∷ rows) = insert_row xs row (sort_by_text xs rows)

unfoldable pub build_sorted_indices_str : List Text → List ℕ
unfolding sort_by_text
build_sorted_indices_str data_of = sort_by_text data_of (rows_from 0 (length data_of))

-- The sum of `numRows`.
unfoldable pub sum_rows : {V : Type 0} → List (ArrowTable V) → ℕ
sum_rows [] = 0
sum_rows (t ∷ tables) = t.num_rows + sum_rows tables

-- `data[off++] = v` for each value; a write out of bounds changes nothing.
unfoldable pub write_all : {A : Type 0} → List A → ℕ → List A → List A
write_all data_of off [] = data_of
write_all data_of off (v ∷ vs) = write_all (set data_of off v) (suc off) vs

-- The type of the first field with a name, as text.
unfoldable pub type_of : Text → List (Text × Text) → Text
type_of name [] = []
type_of name ((field_name, type_str) ∷ fields) =
    let rest = type_of name fields in ite (field_name ≟ name) type_str rest

-- Each name of a schema with its type, that of the first field with the name.
unfoldable pub typed : List (Text × Text) → List (Text × Text) → List (Text × Text)
unfolding type_of
typed schema [] = []
typed schema ((name, own_type) ∷ fields) = (name, type_of name schema) ∷ typed schema fields

module _ {N V : Type 0} (to_lower : Text → Text) (to_number : V → N) (to_text : V → Text)
    (nan zero_number : N) where
  unfoldable pub is_numeric_type_str : Text → Bool
  is_numeric_type_str type_str =
      let s = to_lower type_str in
      includes (text "int") s
      || includes (text "float") s
      || includes (text "double") s
      || includes (text "decimal") s
      || includes (text "uint") s
      || includes (text "num") s

  unfoldable pub number_cell : Option V → N
  number_cell none = nan
  number_cell (some v) = to_number v

  unfoldable pub text_cell : Option V → Text
  text_cell none = []
  text_cell (some v) = to_text v

  unfoldable pub number_column : Text → List N → ℕ → List (ArrowTable V) → List N
  unfolding number_cell write_all
  number_column name data_of off [] = data_of
  number_column name data_of off (t ∷ tables) = elim (Dict.get name t.children) [
    | none ↦ number_column name data_of (off + t.num_rows) tables
    | some col ↦
        number_column name (write_all data_of off (map number_cell col)) (off + length col) tables
  ]

  unfoldable pub text_column : Text → List Text → ℕ → List (ArrowTable V) → List Text
  unfolding text_cell write_all
  text_column name data_of off [] = data_of
  text_column name data_of off (t ∷ tables) = elim (Dict.get name t.children) [
    | none ↦
        text_column name (write_all data_of off (replicate t.num_rows [])) (off + t.num_rows) tables
    | some col ↦
        text_column name (write_all data_of off (map text_cell col)) (off + length col) tables
  ]

  -- The order of a column of numbers, which no filter reads, with NaN in its place.
  module _ (numbers : Numbers N) where
    unfoldable pub insert_number : List N → ℕ → N → List (ℕ × N) → List (ℕ × N)
    insert_number xs row x [] = (row, x) ∷ []
    insert_number xs row x ((r, y) ∷ rows) =
        let rest = insert_number xs row x rows in
        if numbers.less y x then (r, y) ∷ rest else (row, x) ∷ (r, y) ∷ rows

    unfoldable pub sort_numbers : List N → ℕ → List N → List (ℕ × N)
    unfolding insert_number
    sort_numbers xs row [] = []
    sort_numbers xs row (y ∷ ys) = insert_number xs row y (sort_numbers xs (suc row) ys)

    unfoldable pub build_sorted_indices_num : List N → List ℕ
    unfolding sort_numbers
    build_sorted_indices_num xs = map (λ p. p.0) (sort_numbers xs 0 xs)

    -- The column of a name with its order, put in the index.
    unfoldable pub build_column : List (ArrowTable V) → Text × Text → ClientIndex N → ClientIndex N
    unfolding is_numeric_type_str number_column text_column build_sorted_indices_num
    build_column tables (name, type_str) index = elim (is_numeric_type_str type_str) [
      | true ↦
          let data_of = number_column name (replicate index.total_rows zero_number) 0 tables in
          record index {
            cols = Dict.set name (floats data_of) index.cols;
            sorted_idx = Dict.set name (build_sorted_indices_num data_of) index.sorted_idx;
          }
      | false ↦
          let data_of = text_column name (replicate index.total_rows []) 0 tables in
          record index {
            cols = Dict.set name (strings data_of) index.cols;
            sorted_idx = Dict.set name (build_sorted_indices_str data_of) index.sorted_idx;
          }
    ]

    unfoldable pub build_columns :
        List (ArrowTable V) → List (Text × Text) → ClientIndex N → ClientIndex N
    unfolding build_column
    build_columns tables [] index = index
    build_columns tables (f ∷ fields) index =
        build_columns tables fields (build_column tables f index)

    unfoldable pub build : List (ArrowTable V) → ClientIndex N
    unfolding build_columns sum_rows typed
    build [] = record { cols = []; sorted_idx = []; col_names = []; total_rows = 0 }
    build (first ∷ tables) =
        build_columns (first ∷ tables) (typed first.fields first.fields) (record {
          cols = [];
          sorted_idx = [];
          col_names = map (λ f. f.0) first.fields;
          total_rows = sum_rows (first ∷ tables);
        })
