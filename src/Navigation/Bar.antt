-- ===== src/Navigation/Bar.antt =====
-- web/src/hooks/useNavigationBar.ts: where a typed expression goes, the suggestions, and the state of the
-- bar. `F` is the type of floating-point numbers: `parse_float` is `parseFloat`, `none` for NaN, and
-- `part_of p n` is `Math.floor((p / 100) * n)`. `to_lower` is `toLowerCase`, `show_local` is
-- `toLocaleString`.
use tableverse.Prelude.{
  ℕ, zero, suc, ◌+◌, ◌-◌, ◌*◌, ◌/◌, List, [], ◌∷◌, ◌++◌, Option, none, some, true, false, ◌&&◌, ltb,
  ◌==◌, if◌then◌else◌, Text, text, text_key, ◌≟◌, ite, take, get_elem?,
}
use tableverse.Prelude.Int.{ℤ, pos, pos_part, ◌-ℤ◌}
use tableverse.Prelude.Radix.{to_string, value_from}
use tableverse.ViewStore.{ColumnInfo}
use tableverse.TableStore.{SourceMeta}
use tableverse.ClientIndex.{has_prefix}
use tableverse.Navigation.{default_cell_w, default_cell_h}
use tableverse.Navigation.Words.{
  trim, is_digit, is_number, parse_int, ends_percent, is_percent, split_colon,
}

-- `columns.findIndex((c) => c.name === name)`, from an index on.
unfoldable pub find_column : Text → ℕ → List ColumnInfo → Option ℕ
find_column name i [] = none
find_column name i (c ∷ columns) =
    let rest = find_column name (suc i) columns in ite (c.name ≟ name) (some i) rest

-- `Math.max(0, Math.min(n - 1, i))`, and -1 becomes 0 for an empty table.
unfoldable pub clamp_index : ℕ → ℤ → ℕ
clamp_index n i = if ltb (n - 1) (pos_part i) then n - 1 else pos_part i

-- `Math.min(n - 1, row) * cellH`, which is -cellH for an empty table.
unfoldable pub down_to : ℕ → ℕ → ℕ → ℤ
down_to n row cell_h = elim n [
  | zero ↦ pos 0 -ℤ pos cell_h
  | suc end ↦ pos ((if ltb end row then end else row) * cell_h)
]

-- `Math.round(scroll / cell)`
unfoldable pub round_div : ℕ → ℕ → ℕ
round_div scroll cell = (2 * scroll + cell) / (2 * cell)

pub record Target : Type 0 where
  pub scroll_x : ℕ
  pub scroll_y : ℤ

module _ {F : Type 0} (parse_float : Text → Option F) (part_of : F → ℕ → ℤ) where
  unfoldable pub part : Text → ℕ → Option ℤ
  part s n = elim (parse_float s) [ none ↦ none | some p ↦ some (part_of p n) ]

  -- The row part of `row:column`, trimmed.
  unfoldable pub parse_row : SourceMeta → ℕ → Text → Option ℤ
  unfolding part parse_int ends_percent
  parse_row source current [] = some (pos current)
  parse_row source current (c ∷ s) =
      if ends_percent (c ∷ s) then part (c ∷ s) source.n_rows else parse_int (c ∷ s)

  unfoldable pub column_or_name : SourceMeta → Text → Option ℤ → Option ℤ
  unfolding find_column
  column_or_name source name (some n) = some n
  column_or_name source name none = elim (find_column name 0 source.columns) [
    | none ↦ none
    | some i ↦ some (pos i)
  ]

  unfoldable pub parse_col : SourceMeta → ℕ → Text → Option ℤ
  unfolding part column_or_name
  parse_col source current [] = some (pos current)
  parse_col source current (c ∷ s) =
      if ends_percent (c ∷ s)
      then part (c ∷ s) source.n_cols
      else column_or_name source (c ∷ s) (parse_int (c ∷ s))

  -- Both parts, clamped to the table.
  unfoldable pub cell_target : SourceMeta → ℕ → ℕ → Option ℤ → Option ℤ → Option Target
  unfolding clamp_index
  cell_target source cell_w cell_h none col = none
  cell_target source cell_w cell_h (some row) none = none
  cell_target source cell_w cell_h (some row) (some col) = some (record {
    scroll_x = clamp_index source.n_cols col * cell_w;
    scroll_y = pos (clamp_index source.n_rows row * cell_h);
  })

  -- The last three forms: a percentage, a row, the name of a column.
  unfoldable pub parse_single : SourceMeta → ℕ → ℕ → ℕ → ℕ → Text → Option Target
  unfolding part clamp_index is_percent find_column
  parse_single source current_x current_y cell_w cell_h s = elim (is_percent s) [
    | true ↦ elim (part s source.n_rows) [
      | none ↦ none
      | some row ↦
          some (record {
            scroll_x = current_x;
            scroll_y = pos (clamp_index source.n_rows row * cell_h);
          })
    ]
    | false ↦ elim (is_number s) [
      | true ↦ some (record {
        scroll_x = current_x;
        scroll_y = pos (clamp_index source.n_rows (pos (value_from 10 0 s)) * cell_h);
      })
      | false ↦ elim (find_column s 0 source.columns) [
        | none ↦ none
        | some i ↦ some (record { scroll_x = i * cell_w; scroll_y = pos current_y })
      ]
    ]
  ]

  unfoldable pub parse_plain : SourceMeta → ℕ → ℕ → ℕ → ℕ → Text → Option Target
  unfolding parse_row parse_col cell_target parse_single split_colon trim round_div
  parse_plain source current_x current_y cell_w cell_h s = elim (split_colon s) [
    | some parts ↦
        cell_target source cell_w cell_h
          (parse_row source (round_div current_y cell_h) (trim parts.0))
          (parse_col source (round_div current_x cell_w) (trim parts.1))
    | none ↦ parse_single source current_x current_y cell_w cell_h s
  ]

  -- The expression, trimmed: a step down, a step up, or one of the others.
  unfoldable pub parse_trimmed : SourceMeta → ℕ → ℕ → ℕ → ℕ → Text → Option Target
  unfolding parse_plain is_number down_to
  parse_trimmed source current_x current_y cell_w cell_h [] =
      parse_plain source current_x current_y cell_w cell_h []
  parse_trimmed source current_x current_y cell_w cell_h (c ∷ s) =
      let current_row = round_div current_y cell_h in
      elim (c == 43 && is_number s) [
        | true ↦ some (record {
          scroll_x = current_x;
          scroll_y = down_to source.n_rows (current_row + value_from 10 0 s) cell_h;
        })
        | false ↦ elim (c == 45 && is_number s) [
          | true ↦ some (record {
            scroll_x = current_x;
            scroll_y = pos ((current_row - value_from 10 0 s) * cell_h);
          })
          | false ↦ parse_plain source current_x current_y cell_w cell_h (c ∷ s)
        ]
      ]

  unfoldable pub parse_nav_expression : Text → SourceMeta → ℕ → ℕ → ℕ → Option Target
  unfolding parse_trimmed trim
  parse_nav_expression input source current_x current_y zoom =
      parse_trimmed source current_x current_y (default_cell_w * zoom) (default_cell_h * zoom)
        (trim input)

-- A column whose name starts with a text, case aside, up to 8 of them.
module _ (to_lower : Text → Text) where
  unfoldable pub named_like : Text → List ColumnInfo → List Text
  named_like lower [] = []
  named_like lower (c ∷ columns) =
      let rest = named_like lower columns in
      if has_prefix lower (to_lower c.name) then c.name ∷ rest else rest

  -- What is behind the first colon.
  unfoldable pub behind_colon : Text → Option Text
  behind_colon [] = none
  behind_colon (c ∷ s) = let rest = behind_colon s in if c == 58 then some s else rest

  unfoldable pub suggest : List ColumnInfo → Option Text → List Text
  unfolding named_like is_digit
  suggest columns none = []
  suggest columns (some []) = []
  suggest columns (some (c ∷ s)) =
      if is_digit c then [] else take 8 (named_like (to_lower (c ∷ s)) columns)

  unfoldable pub get_suggestions : Text → SourceMeta → List Text
  unfolding suggest behind_colon
  get_suggestions input source = suggest source.columns (behind_colon input)

unfoldable pub column_label : List ColumnInfo → ℕ → Text
column_label columns col = elim (get_elem? columns col) [
  | none ↦ to_string 10 col
  | some c ↦ c.name
]

unfoldable pub format_display_value : (ℕ → Text) → SourceMeta → ℕ → ℕ → ℕ → Text
unfolding column_label round_div
format_display_value show_local source scroll_x scroll_y zoom =
    let row = round_div scroll_y (default_cell_h * zoom) in
    let col = round_div scroll_x (default_cell_w * zoom) in
    text "Row "
    ++ show_local row
    ++ text " / "
    ++ show_local source.n_rows
    ++ text "  ·  Col "
    ++ to_string 10 col
    ++ text ": "
    ++ column_label source.columns col
