-- ===== src/ClientIndex.antt =====
-- web/src/lib/client-index.ts: class ClientIndex, its columns and its predicates. `N` is the type of
-- the JavaScript numbers with their comparisons, and `is_nan` tells NaN, which is neither equal to a
-- number nor less than one; `regex` is `new RegExp`, which fails on a wrong pattern. The index is built
-- from columns whose cells are numbers (NaN where null) or texts (empty where null).

pub mod Rows
pub mod Sorted
mod EqualRun
pub mod Refine
pub mod Rowwise
pub mod Build
mod Order
pub mod Built
pub mod Filter
use tableverse.Prelude.{
  ℕ, zero, suc, ◌+◌, ◌-◌, ◌*◌, ◌/◌, ◌≡◌, List, [], ◌∷◌, ◌++◌, Option, none, some, Bool, true, false,
  not, ◌&&◌, ◌||◌, ltb, leb, ◌==◌, if◌then◌else◌, Text, text_key, length, get_elem?, take, drop,
}
use tableverse.Prelude.Dict
use tableverse.ViewExpr
use tableverse.ViewExpr.{
  Literal, null, boolean, number, string, Predicate, Predicates, eq, ne, gt, gte, lt, lte, between,
  in_values, not_in, contains, starts_with, ends_with, regex, is_null, is_not_null, and, or, nil,
  cons,
}

-- `Float64Array | string[]`
pub data ColData (N : Type 0) : Type 0 where
  floats : List N → ColData N
  strings : List Text → ColData N

-- What the index uses of the numbers of the language.
pub record Numbers (N : Type 0) : Type 0 where
  pub equal : N → N → Bool
  pub less : N → N → Bool
  pub less_or_equal : N → N → Bool
  pub is_nan : N → Bool

pub data Comparison : Type 0 where
  cmp_gt : Comparison
  cmp_gte : Comparison
  cmp_lt : Comparison
  cmp_lte : Comparison

-- `<` and `===` on texts go by code units.
unfoldable pub text_less : Text → Text → Bool
text_less [] [] = false
text_less [] (d ∷ t) = true
text_less (c ∷ s) [] = false
text_less (c ∷ s) (d ∷ t) = if ltb c d then true else if c == d then text_less s t else false

unfoldable pub text_equal : Text → Text → Bool
text_equal [] [] = true
text_equal [] (d ∷ t) = false
text_equal (c ∷ s) [] = false
text_equal (c ∷ s) (d ∷ t) = if c == d then text_equal s t else false

-- `s.startsWith(p)`, `s.endsWith(p)` and `s.includes(p)`.
unfoldable pub has_prefix : Text → Text → Bool
has_prefix [] s = true
has_prefix (c ∷ p) [] = false
has_prefix (c ∷ p) (d ∷ s) = if c == d then has_prefix p s else false

unfoldable pub has_suffix : Text → Text → Bool
unfolding text_equal
has_suffix p s =
    if leb (length p) (length s) then text_equal p (drop (length s - length p) s) else false

unfoldable pub includes : Text → Text → Bool
unfolding has_prefix
includes p [] = has_prefix p []
includes p (c ∷ s) = let rest = includes p s in if has_prefix p (c ∷ s) then true else rest

-- The rows, from one on, that a test admits.
unfoldable pub matching_from : {A : Type 0} → (A → Bool) → ℕ → List A → List ℕ
matching_from test i [] = []
matching_from test i (x ∷ xs) =
    let rest = matching_from test (suc i) xs in if test x then i ∷ rest else rest

unfoldable pub rows_from : ℕ → ℕ → List ℕ
rows_from i zero = []
rows_from i (suc n) = i ∷ rows_from (suc i) n

-- `set.has(x)` on the set of a list.
unfoldable pub is_in : ℕ → List ℕ → Bool
is_in x [] = false
is_in x (y ∷ ys) = let rest = is_in x ys in if x == y then true else rest

unfoldable pub intersect : List ℕ → List ℕ → List ℕ
unfolding is_in
intersect [] b = []
intersect (x ∷ a) b = let rest = intersect a b in if is_in x b then x ∷ rest else rest

-- The elements of a sorted set with one more.
unfoldable pub insert_sorted : ℕ → List ℕ → List ℕ
insert_sorted x [] = x ∷ []
insert_sorted x (y ∷ ys) =
    let rest = insert_sorted x ys in
    if ltb x y then x ∷ y ∷ ys else if x == y then y ∷ ys else y ∷ rest

-- The sorted elements of a set that is given by lists.
unfoldable pub insert_all : List ℕ → List ℕ → List ℕ
unfolding insert_sorted
insert_all [] set = set
insert_all (x ∷ xs) set = insert_all xs (insert_sorted x set)

unfoldable pub union_into : List ℕ → List (List ℕ) → List ℕ
unfolding insert_all
union_into set [] = set
union_into set (a ∷ arrays) = union_into (insert_all a set) arrays

unfoldable pub union : List (List ℕ) → List ℕ
unfolding union_into
union arrays = union_into [] arrays

-- The rows, from one on, that are not among the matches.
unfoldable pub complement_from : List ℕ → ℕ → ℕ → List ℕ
unfolding is_in
complement_from matches i zero = []
complement_from matches i (suc n) =
    let rest = complement_from matches (suc i) n in if is_in i matches then rest else i ∷ rest

unfoldable pub complement : List ℕ → ℕ → List ℕ
unfolding complement_from
complement matches total = complement_from matches 0 total

pub record ClientIndex (N : Type 0) : Type 0 where
  pub cols : List (Text × ColData N)
  pub sorted_idx : List (Text × List ℕ)
  pub col_names : List Text
  pub total_rows : ℕ

unfoldable pub is_empty : Text → Bool
is_empty [] = true
is_empty (c ∷ s) = false

unfoldable pub same : Bool → Bool → Bool
same true b = b
same false b = not b

-- The text of the row at a place of the sorted order, for places in bounds.
unfoldable pub sorted_text : List Text → List ℕ → ℕ → Option Text
sorted_text xs sorted place = elim (get_elem? sorted place) [
  | none ↦ none
  | some row ↦ get_elem? xs row
]

unfoldable pub is_before : Option Text → Text → Bool
is_before none value = false
is_before (some s) value = text_less s value

-- The binary search, with `hi + 1` in place of `hi`. Each round makes the span smaller.
unfoldable pub lower_bound : ℕ → List Text → List ℕ → Text → ℕ → ℕ → ℕ
unfolding sorted_text is_before
lower_bound zero xs sorted value lo end = lo
lower_bound (suc fuel) xs sorted value lo end =
    let middle = (lo + (end - 1)) / 2 in
    elim (ltb lo end) [
      | false ↦ lo
      | true ↦ elim (is_before (sorted_text xs sorted middle) value) [
        | true ↦ lower_bound fuel xs sorted value (middle + 1) end
        | false ↦ lower_bound fuel xs sorted value lo middle
      ]
    ]

-- The rows from a place on while their text is the value.
unfoldable pub equal_run : List Text → List ℕ → Text → List ℕ
equal_run xs [] value = []
equal_run xs (row ∷ rows) value =
    let rest = equal_run xs rows value in
    elim (get_elem? xs row) [ none ↦ [] | some s ↦ if text_equal s value then row ∷ rest else [] ]

-- `sort()` of rows that are all different.
unfoldable pub sort_rows : List ℕ → List ℕ
sort_rows rows = insert_all rows []

unfoldable pub rows_or_none : Option (List ℕ) → List ℕ
rows_or_none none = []
rows_or_none (some rows) = rows

module _ {N : Type 0} (numbers : Numbers N) (new_regex : Text → Option (Text → Bool)) where
  unfoldable pub all_rows : ClientIndex N → List ℕ
  all_rows index = rows_from 0 index.total_rows

  unfoldable pub compare_with : Comparison → N → N → Bool
  compare_with cmp_gt v value = numbers.less value v
  compare_with cmp_gte v value = numbers.less_or_equal value v
  compare_with cmp_lt v value = numbers.less v value
  compare_with cmp_lte v value = numbers.less_or_equal v value

  unfoldable pub eval_cmp : ClientIndex N → Text → Literal N → Comparison → List ℕ
  unfolding all_rows
  eval_cmp index column (number value) op = elim (Dict.get column index.cols) [
    | none ↦ all_rows index
    | some data_of ↦ elim data_of [
      | floats xs ↦ matching_from (λ v. compare_with op v value) 0 xs
      | strings xs ↦ all_rows index
    ]
  ]
  eval_cmp index column null op = all_rows index
  eval_cmp index column (boolean b) op = all_rows index
  eval_cmp index column (string s) op = all_rows index

  unfoldable pub eval_str_match : ClientIndex N → Text → (Text → Bool) → List ℕ
  unfolding all_rows
  eval_str_match index column test = elim (Dict.get column index.cols) [
    | none ↦ all_rows index
    | some data_of ↦ elim data_of [
      | floats xs ↦ all_rows index
      | strings xs ↦ matching_from test 0 xs
    ]
  ]

  unfoldable pub eval_null : ClientIndex N → Text → Bool → List ℕ
  unfolding all_rows same
  eval_null index column want_null = elim (Dict.get column index.cols) [
    | none ↦ all_rows index
    | some data_of ↦ elim data_of [
      | floats xs ↦ matching_from (λ v. same (numbers.is_nan v) want_null) 0 xs
      | strings xs ↦ matching_from (λ s. same (is_empty s) want_null) 0 xs
    ]
  ]

  unfoldable pub eval_eq : ClientIndex N → Text → Literal N → List ℕ
  unfolding all_rows lower_bound equal_run sort_rows rows_or_none
  eval_eq index column value = elim (Dict.get column index.cols) [
    | none ↦ all_rows index
    | some data_of ↦ elim data_of [
      | floats xs ↦ elim value [
        | number n ↦ matching_from (λ v. numbers.equal v n) 0 xs
        | null ↦ all_rows index
        | boolean b ↦ all_rows index
        | string s ↦ all_rows index
      ]
      | strings xs ↦ elim value [
        | string s ↦
            let sorted = rows_or_none (Dict.get column index.sorted_idx) in
            let lo = lower_bound (length sorted) xs sorted s 0 (length sorted) in
            sort_rows (equal_run xs (drop lo sorted) s)
        | null ↦ all_rows index
        | boolean b ↦ all_rows index
        | number n ↦ all_rows index
      ]
    ]
  ]

  -- The match of a pattern, with all rows for a wrong one.
  unfoldable pub eval_regex : ClientIndex N → Text → Option (Text → Bool) → List ℕ
  unfolding all_rows eval_str_match
  eval_regex index column none = all_rows index
  eval_regex index column (some test) = eval_str_match index column test

  unfoldable pub eval_eqs : ClientIndex N → Text → List (Literal N) → List (List ℕ)
  unfolding eval_eq
  eval_eqs index column [] = []
  eval_eqs index column (v ∷ values) = eval_eq index column v ∷ eval_eqs index column values

  unfoldable mutual
    pub eval_pred : ClientIndex N → Predicate N → List ℕ
    eval_pred index (eq c v) = eval_eq index c v
    eval_pred index (ne c v) = complement (eval_eq index c v) index.total_rows
    eval_pred index (gt c v) = eval_cmp index c v cmp_gt
    eval_pred index (gte c v) = eval_cmp index c v cmp_gte
    eval_pred index (lt c v) = eval_cmp index c v cmp_lt
    eval_pred index (lte c v) = eval_cmp index c v cmp_lte
    eval_pred index (between c lo hi) =
        intersect (eval_cmp index c lo cmp_gte) (eval_cmp index c hi cmp_lte)
    eval_pred index (in_values c vs) = union (eval_eqs index c vs)
    eval_pred index (not_in c vs) = complement (union (eval_eqs index c vs)) index.total_rows
    eval_pred index (contains c v) = eval_str_match index c (includes v)
    eval_pred index (starts_with c v) = eval_str_match index c (has_prefix v)
    eval_pred index (ends_with c v) = eval_str_match index c (has_suffix v)
    eval_pred index (regex c pattern) = eval_regex index c (new_regex pattern)
    eval_pred index (is_null c) = eval_null index c true
    eval_pred index (is_not_null c) = eval_null index c false
    eval_pred index (and es) = eval_and index (all_rows index) es
    eval_pred index (or es) = union (eval_or index es)
    eval_pred index (Predicate.not e) = complement (eval_pred index e) index.total_rows

    pub eval_and : ClientIndex N → List ℕ → Predicates N → List ℕ
    eval_and index r nil = r
    eval_and index r (cons e es) = eval_and index (intersect r (eval_pred index e)) es

    pub eval_or : ClientIndex N → Predicates N → List (List ℕ)
    eval_or index nil = []
    eval_or index (cons e es) = eval_pred index e ∷ eval_or index es

-- What a row of a column holds, `missing` out of bounds.
pub data Cell (N : Type 0) : Type 0 where
  float : N → Cell N
  characters : Text → Cell N
  missing : Cell N

module _ {N : Type 0} where
  unfoldable pub cell_at : ColData N → ℕ → Cell N
  cell_at (floats xs) row = elim (get_elem? xs row) [ none ↦ missing | some x ↦ float x ]
  cell_at (strings xs) row = elim (get_elem? xs row) [ none ↦ missing | some s ↦ characters s ]

  unfoldable pub cells_at : ColData N → List ℕ → List (Cell N)
  unfolding cell_at
  cells_at col [] = []
  cells_at col (row ∷ rows) = cell_at col row ∷ cells_at col rows

  -- The columns by name; every name of the index has one.
  unfoldable pub slice_cols : ClientIndex N → List Text → List ℕ → List (Text × List (Cell N))
  unfolding cells_at
  slice_cols index [] rows = []
  slice_cols index (name ∷ names) rows =
      let rest = slice_cols index names rows in
      elim (Dict.get name index.cols) [ none ↦ rest | some col ↦ (name, cells_at col rows) ∷ rest ]

  unfoldable pub slice_rows : ClientIndex N → List ℕ → ℕ → ℕ → List (Text × List (Cell N))
  unfolding slice_cols
  slice_rows index rows row_offset row_count =
      slice_cols index index.col_names (take row_count (drop row_offset rows))
