-- ===== src/Tests/Moves.antt =====
-- Moves on a small table.
use tableverse.Prelude.{
  Text, Option, Bool, ◌*◌, ◌≤◌, List-discrete, ℕ_discrete, ℕ, ◌≡◌, refl, [], ◌∷◌, none, some, true,
  false, text, arith,
}
use tableverse.Prelude.Int.{ℤ, pos, negsuc}
use tableverse.Prelude.Radix.{to_string, value_from, digit_value}
use tableverse.TableStore.{SourceMeta, empty_store, or_else}
use tableverse.UiStore.{UiState, initial_ui}
use tableverse.Viewport.{zoom_one, scroll_bound, header_height_for_zoom}
use tableverse.Navigation.{Stores, navigate_to, teleport_to, max_x, max_y, source_rows, source_cols}
use tableverse.Navigation.Words.{
  trim, trim_start, trim_end, is_space, split_colon, before_colon, is_number, all_digits, is_digit,
  parse_int, digits_of, number_of, negate, ends_percent,
}
use tableverse.Navigation.Bar.{
  parse_nav_expression, parse_trimmed, parse_plain, parse_row, parse_col, column_or_name,
  cell_target, clamp_index, round_div, find_column,
}
use tableverse.Navigation.Typed.{LeadsToCell, parse_nav_expression-LeadsToCell}
use tableverse.Navigation.Keyboard.{App, Key, KeyEvent, arrow_right, handle_key}
use tableverse.Navigation.Places.{right}
use tableverse.Navigation.Keys.{place, x_of, y_of, handle_key-Leads}
use tableverse.Navigation.Bounds.{
  IsInside, Reached, total_x, total_y, window_x, window_y, navigate_to-Reached, teleport_to-ui,
}

abbrev first_ui : UiState ℕ
first_ui = initial_ui (record { saved_theme = none; dark_class = false; prefers_dark = false })

-- A window of 1000 by 800 pixels at row 10 of 1000 rows.
abbrev stores : Stores ℕ ℕ
stores = record {
  table = record empty_store {
    source =
        some (record { id = text "s"; name = text "s"; n_rows = 1000; n_cols = 20; columns = [] });
    viewport = record {
      scroll_x = 0;
      scroll_y = 320 * zoom_one;
      width = 1000 * zoom_one;
      height = 800 * zoom_one;
    };
  };
  ui = first_ui;
  virtual_row_count = none;
}

inside : IsInside stores
unfolding max_x max_y scroll_bound source_rows source_cols or_else header_height_for_zoom initial_ui
inside = (omega arith, omega arith)

-- The window shows 840 by 686 pixels of the 2800 by 32000 of the table.
navigate_to-Reached_example :
    Reached
      (total_x stores)
      (window_x stores)
      (negsuc 5)
      (navigate_to stores (negsuc 5) (pos 99999999999) true).table.viewport.scroll_x
    × Reached
        (total_y stores)
        (window_y stores)
        (pos 99999999999)
        (navigate_to stores (negsuc 5) (pos 99999999999) true).table.viewport.scroll_y
navigate_to-Reached_example = navigate_to-Reached stores (negsuc 5) (pos 99999999999) true

teleport_to-ui_example : (teleport_to stores (pos 0) (pos 30000000000)).0.ui ≡ stores.ui
teleport_to-ui_example = teleport_to-ui stores (pos 0) (pos 30000000000) inside

-- The window at the right end of the table, where its cells end with it.
abbrev at_right : App ℕ ℕ
at_right = record {
  stores = record stores {
    table = record stores.table {
      viewport = record {
        scroll_x = 1960 * zoom_one;
        scroll_y = 320 * zoom_one;
        width = 1000 * zoom_one;
        height = 800 * zoom_one;
      };
    };
  };
  landmark_rows = 5 ∷ 40 ∷ 20 ∷ [];
  bookmarks = record { bookmarks = []; id_counter = 0 };
}

abbrev pressed : Key → Bool → KeyEvent
pressed key ctrl = record {
  key = key;
  ctrl = ctrl;
  meta = false;
  shift = false;
  alt = false;
  in_field = false;
}

at_right-x : x_of at_right ≤ (place at_right).last_x
unfolding initial_ui
at_right-x = omega arith

at_right-y : y_of at_right ≤ (place at_right).last_y
unfolding header_height_for_zoom initial_ui
at_right-y = omega arith

-- From the right end ArrowRight goes back by the width of the row numbers and the minimap.
right_from_end :
    x_of (handle_key 0 (to_string 10) at_right (pressed arrow_right false)).app ≡ 1800 * zoom_one
unfolding initial_ui
right_from_end =
    (handle_key-Leads 0 (to_string 10) at_right (pressed arrow_right false) right refl refl
      at_right-x at_right-y).0

abbrev meta : SourceMeta
meta = record {
  id = text "s";
  name = text "s";
  n_rows = 1000;
  n_cols = 2;
  columns =
      record { index = 0; name = text "a"; data_type = text "int64"; nullable = false }
      ∷ record { index = 1; name = text "b"; data_type = text "utf8"; nullable = true }
      ∷ [];
}

abbrev no_float : Text → Option ℕ
no_float s = none

abbrev no_part : ℕ → ℕ → ℤ
no_part p n = pos 0

typed_cell :
    parse_nav_expression no_float no_part (text " 12:b ") meta 0 (32 * zoom_one) zoom_one
    ≡ some (record { scroll_x = 140 * zoom_one; scroll_y = pos (384 * zoom_one) })
unfolding parse_nav_expression parse_trimmed parse_plain parse_row parse_col column_or_name
    cell_target clamp_index round_div find_column trim trim_start trim_end is_space split_colon
    before_colon is_number all_digits is_digit parse_int digits_of number_of negate ends_percent
    value_from digit_value List-discrete ℕ_discrete
typed_cell = refl

parse_nav_expression-LeadsToCell_example :
    LeadsToCell meta
      (140 * zoom_one)
      (32 * zoom_one)
      (parse_nav_expression no_float no_part (text "+5000") meta 0 (32 * zoom_one) zoom_one)
parse_nav_expression-LeadsToCell_example =
    parse_nav_expression-LeadsToCell no_float no_part (text "+5000") meta 0 (32 * zoom_one) zoom_one
      (record {
        some_row = omega arith;
        columns = refl;
        wide = omega arith;
        high = omega arith;
        x_inside = omega arith;
        y_inside = omega arith;
      })
