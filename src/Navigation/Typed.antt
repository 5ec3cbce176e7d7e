-- ===== src/Navigation/Typed.antt =====
-- What a typed expression of web/src/hooks/useNavigationBar.ts leads to.
use native.Mathlib.Nat.{div-lt_iff_lt-mul}
use tableverse.Prelude.{
  ℕ, zero, suc, ltb, if◌then◌else◌, refl, ◌+◌, ◌-◌, ◌*◌, ◌≤◌, ◌<◌, ◌≡◌, List, [], ◌∷◌, Option, none,
  some, ◌&&◌, ◌==◌, Text, text_key, length, arith, inl, inr, Bool-cases, Option-cases,
}
use tableverse.Prelude.Int.{ℤ, pos}
use tableverse.Prelude.Radix.{value_from}
use tableverse.ViewStore.{ColumnInfo}
use tableverse.TableStore.{SourceMeta}
use tableverse.Navigation.{default_cell_w, default_cell_h}
use tableverse.Navigation.Words.{is_number, is_percent, split_colon, trim}
use tableverse.Navigation.Bar.{
  Target, clamp_index, down_to, round_div, find_column, part, cell_target, parse_single,
  parse_plain, parse_trimmed, parse_nav_expression,
}

-- A scroll position that shows a cell of the table first.
pub record IsCell (source : SourceMeta) (cell_w cell_h : ℕ) (t : Target) : Type 0 where
  pub in_cols : t.scroll_x ≤ (source.n_cols - 1) * cell_w
  pub in_rows : (y : ℕ) × (t.scroll_y ≡ pos y) × (y ≤ (source.n_rows - 1) * cell_h)

-- A table with a row, the columns that it says it has, and a position in it.
pub record IsPlace (source : SourceMeta) (x y cell_w cell_h : ℕ) : Type 0 where
  pub some_row : 0 < source.n_rows
  pub columns : length source.columns ≡ source.n_cols
  pub wide : 0 < cell_w
  pub high : 0 < cell_h
  pub x_inside : x ≤ (source.n_cols - 1) * cell_w
  pub y_inside : y ≤ (source.n_rows - 1) * cell_h

mul_mono : (a b c : ℕ) → a ≤ b → a * c ≤ b * c
mul_mono a b c h = grind arith

clamp_index_le : (n : ℕ) (i : ℤ) → clamp_index n i ≤ n - 1
unfolding clamp_index
clamp_index_le n i = ground arith

down_to-Is :
    (n row cell_h : ℕ) → 0 < n → (r : ℕ) × (r ≤ n - 1) × (down_to n row cell_h ≡ pos (r * cell_h))
unfolding down_to
down_to-Is zero row cell_h h = absurd (omega arith)
down_to-Is (suc n) row cell_h h = (if ltb n row then n else row, ground arith, refl)

round_div_le : (scroll cell n : ℕ) → 0 < cell → scroll ≤ n * cell → round_div scroll cell ≤ n
unfolding round_div
round_div_le scroll cell n p h = omega (
  arith,
  (div-lt_iff_lt-mul {k = 2 * cell} {x = 2 * scroll + cell} {y = n + 1} (omega arith)).1
      (grind arith),
)

find_column_le :
    (name : Text) (i : ℕ) (columns : List ColumnInfo) (j : ℕ)
    → find_column name i columns ≡ some j
    → j + 1 ≤ i + length columns
unfolding find_column
find_column_le name i [] j h = cc
find_column_le name i (c ∷ columns) j h = ground (arith, find_column_le name (suc i) columns j)

-- An expression that leads nowhere, or to a cell of the table.
unfoldable pub LeadsToCell : SourceMeta → ℕ → ℕ → Option Target → Type 0
LeadsToCell source cell_w cell_h none = Unit
LeadsToCell source cell_w cell_h (some t) = IsCell source cell_w cell_h t

module _ {F : Type 0} (parse_float : Text → Option F) (part_of : F → ℕ → ℤ) (source : SourceMeta)
    (x y cell_w cell_h : ℕ) (place : IsPlace source x y cell_w cell_h) where
  row_IsCell :
      (i : ℕ)
      → i ≤ source.n_rows - 1
      → IsCell source cell_w cell_h (record { scroll_x = x; scroll_y = pos (i * cell_h) })
  row_IsCell i h = record {
    in_cols = place.x_inside;
    in_rows = (i * cell_h, refl, mul_mono i (source.n_rows - 1) cell_h h);
  }

  cell_target-LeadsToCell :
      (row col : Option ℤ)
      → LeadsToCell source cell_w cell_h
          (cell_target parse_float part_of source cell_w cell_h row col)
  unfolding cell_target LeadsToCell
  cell_target-LeadsToCell none col = tt
  cell_target-LeadsToCell (some row) none = tt
  cell_target-LeadsToCell (some row) (some col) = record {
    in_cols = mul_mono _ _ cell_w (clamp_index_le source.n_cols col);
    in_rows = (
      clamp_index source.n_rows row * cell_h,
      refl,
      mul_mono _ _ cell_h (clamp_index_le source.n_rows row),
    );
  }

  parse_single-LeadsToCell :
      (s : Text)
      → LeadsToCell source cell_w cell_h
          (parse_single parse_float part_of source x y cell_w cell_h s)
  unfolding parse_single LeadsToCell
  parse_single-LeadsToCell s = elim (Bool-cases (is_percent s)) [
    | inl percent ↦ elim (Option-cases (part parse_float part_of s source.n_rows)) [
      | inl out ↦ rw (parse_single, percent, out) tt
      | inr (row, here) ↦
          rw (parse_single, percent, here) (row_IsCell _ (clamp_index_le source.n_rows row))
    ]
    | inr word ↦ elim (Bool-cases (is_number s)) [
      | inl digits ↦
          rw (parse_single, word, digits)
            (row_IsCell _ (clamp_index_le source.n_rows (pos (value_from 10 0 s))))
      | inr other ↦ elim (Option-cases (find_column s 0 source.columns)) [
        | inl out ↦ rw (parse_single, word, other, out) tt
        | inr (j, here) ↦
            rw (parse_single, word, other, here)
              (record {
                in_cols =
                    mul_mono j (source.n_cols - 1) cell_w
                      (omega (arith, find_column_le s 0 source.columns j here, place.columns));
                in_rows = (y, refl, place.y_inside);
              })
      ]
    ]
  ]

  parse_plain-LeadsToCell :
      (s : Text)
      → LeadsToCell source cell_w cell_h
          (parse_plain parse_float part_of source x y cell_w cell_h s)
  unfolding parse_plain
  parse_plain-LeadsToCell s = elim (Option-cases (split_colon s)) [
    | inl out ↦ rw (parse_plain, out) (parse_single-LeadsToCell s)
    | inr (parts, here) ↦ rw (parse_plain, here) (cell_target-LeadsToCell _ _)
  ]

  parse_trimmed-LeadsToCell :
      (s : Text)
      → LeadsToCell source cell_w cell_h
          (parse_trimmed parse_float part_of source x y cell_w cell_h s)
  unfolding parse_trimmed LeadsToCell
  parse_trimmed-LeadsToCell [] = parse_plain-LeadsToCell []
  parse_trimmed-LeadsToCell (c ∷ s) = elim (Bool-cases (c == 43 && is_number s)) [
    | inl down ↦
        let (row, le, there) =
          down_to-Is source.n_rows (round_div y cell_h + value_from 10 0 s) cell_h place.some_row in
        rw (parse_trimmed, down, there) (row_IsCell row le)
    | inr stay ↦ elim (Bool-cases (c == 45 && is_number s)) [
      | inl up ↦
          rw (parse_trimmed, stay, up)
            (row_IsCell _
              (omega (arith, round_div_le y cell_h (source.n_rows - 1) place.high place.y_inside)))
      | inr other ↦ rw (parse_trimmed, stay, other) (parse_plain-LeadsToCell (c ∷ s))
    ]
  ]

-- Where the table has a row and all the columns that it says, the zoom is positive and the current
-- position shows a cell first, whatever is typed leads nowhere or to a position that shows a cell of the
-- table first.
pub parse_nav_expression-LeadsToCell :
    {F : Type 0} (parse_float : Text → Option F) (part_of : F → ℕ → ℤ) (input : Text)
    (source : SourceMeta) (x y zoom : ℕ)
    → IsPlace source x y (default_cell_w * zoom) (default_cell_h * zoom)
    → LeadsToCell source
        (default_cell_w * zoom)
        (default_cell_h * zoom)
        (parse_nav_expression parse_float part_of input source x y zoom)
unfolding parse_nav_expression
parse_nav_expression-LeadsToCell parse_float part_of input source x y zoom place =
    parse_trimmed-LeadsToCell parse_float part_of source x y (default_cell_w * zoom)
      (default_cell_h * zoom) place (trim input)
