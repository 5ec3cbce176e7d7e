-- ===== src/Navigation/Keyboard.antt =====
-- web/src/hooks/useKeyboard.ts: the handler of keys over the stores. The captured values of a render are
-- those of the stores. `now` is `Date.now()`, `show_local` is `toLocaleString`; a landmark is its row.
use tableverse.Prelude.{
  ℕ, ◌+◌, ◌-◌, ◌*◌, ◌%◌, List, [], ◌∷◌, ◌++◌, Option, none, some, Bool, true, false, not, ◌&&◌,
  ◌||◌, ltb, if◌then◌else◌, Text, text, length, get_elem?,
}
use tableverse.Prelude.Int.{pos}
use tableverse.Viewport.{scroll_bound}
use tableverse.TableStore.{or_else}
use tableverse.Stores.Bookmarks.{Bookmark, BookmarkStore, add_bookmark}
use tableverse.UiStore.{
  UiState, LayerName, null_map, distribution, outlier, quality_alerts, NavHistoryEntry,
}
use tableverse.UiStore.Actions.{
  set_show_command_palette, set_show_filter_builder, toggle_column_panel, set_show_export_panel,
  set_minimap_visible, set_show_bookmark_panel, set_show_landmark_panel, set_show_jump_to_row,
  set_show_keyboard_shortcuts, toggle_layer, nav_history_back, nav_history_forward,
}
use tableverse.ColorScales.{bookmark_colors}
use tableverse.Navigation.{
  Stores, source_rows, source_cols, default_cell_w, default_cell_h, navigate_to,
}
use tableverse.Navigation.Bar.{round_div}

-- The keys of the cases. `digit n` is the key `n + 1` of `1` to `8`.
pub data Key : Type 0 where
  key_p key_f key_c key_e key_m key_b key_l key_g plus equals minus question : Key
  arrow_right arrow_left arrow_down arrow_up home end page_down page_up : Key
  digit : ℕ → Key
  other_key : Key

-- `in_field` where the target takes text.
pub record KeyEvent : Type 0 where
  pub key : Key
  pub ctrl : Bool
  pub meta : Bool
  pub shift : Bool
  pub alt : Bool
  pub in_field : Bool

pub record App (Index Value : Type 0) : Type 0 where
  pub stores : Stores Index Value
  pub landmark_rows : List ℕ
  pub bookmarks : BookmarkStore

-- A call of useZoom.
pub data ZoomCall : Type 0 where
  zoom_in zoom_out : ZoomCall

-- The state, whether the default of the browser is prevented, and a zoom to apply.
pub record Handled (Index Value : Type 0) : Type 0 where
  pub app : App Index Value
  pub prevented : Bool
  pub zoom_call : Option ZoomCall

abbrev pub layers : List LayerName
layers = null_map ∷ distribution ∷ outlier ∷ quality_alerts ∷ []

-- The first landmark below and the last above a position.
unfoldable pub next_row : List ℕ → ℕ → ℕ → Option ℕ
next_row [] cell_h y = none
next_row (r ∷ rows) cell_h y =
    let rest = next_row rows cell_h y in if ltb (y + cell_h) (r * cell_h) then some r else rest

-- `[...landmarks].reverse().find(...)`: of the rows that pass, the one that stands last.
unfoldable pub prev_row : List ℕ → ℕ → ℕ → Option ℕ
prev_row [] cell_h y = none
prev_row (r ∷ rows) cell_h y = elim (prev_row rows cell_h y) [
  | some found ↦ some found
  | none ↦ if ltb (r * cell_h + cell_h) y then some r else none
]

-- `Math.min`
unfoldable pub min : ℕ → ℕ → ℕ
min a b = if ltb b a then b else a

module _ {Index Value : Type 0} where
  unfoldable pub ignored : App Index Value → Handled Index Value
  ignored a = record { app = a; prevented = false; zoom_call = none }

  unfoldable pub taken : App Index Value → Handled Index Value
  taken a = record { app = a; prevented = true; zoom_call = none }

  unfoldable pub with_ui : App Index Value → UiState Value → App Index Value
  with_ui a ui = record a { stores = record a.stores { ui = ui } }

  unfoldable pub go : App Index Value → ℕ → ℕ → Bool → App Index Value
  go a x y push = record a { stores = navigate_to a.stores (pos x) (pos y) push }

  -- `maxX` and `maxY` of the handler, for the whole window.
  unfoldable pub key_max_x : App Index Value → ℕ
  key_max_x a =
      scroll_bound (source_cols a.stores.table.source) (default_cell_w * a.stores.ui.zoom)
        a.stores.table.viewport.width

  unfoldable pub key_max_y : App Index Value → ℕ
  key_max_y a =
      scroll_bound (source_rows a.stores.table.source) (default_cell_h * a.stores.ui.zoom)
        a.stores.table.viewport.height

  unfoldable pub go_to_entry :
      App Index Value → UiState Value × Option NavHistoryEntry → App Index Value
  unfolding go with_ui
  go_to_entry a (ui, none) = with_ui a ui
  go_to_entry a (ui, some p) = go (with_ui a ui) p.scroll_x p.scroll_y false

  unfoldable pub go_to_row : App Index Value → Option ℕ → App Index Value
  unfolding go
  go_to_row a none = a
  go_to_row a (some row) =
      go a a.stores.table.viewport.scroll_x (row * (default_cell_h * a.stores.ui.zoom)) true

  unfoldable pub go_to_bookmark : App Index Value → Option Bookmark → App Index Value
  unfolding go
  go_to_bookmark a none = a
  go_to_bookmark a (some b) = go a b.scroll_x b.scroll_y true

  unfoldable pub toggle_found : App Index Value → Option LayerName → Handled Index Value
  unfolding ignored taken with_ui
  toggle_found a none = ignored a
  toggle_found a (some layer) = taken (with_ui a (toggle_layer a.stores.ui layer))

  unfoldable pub has_source : App Index Value → Bool
  has_source a = elim a.stores.table.source [ none ↦ false | some source ↦ true ]

  module _ (now : ℕ) (show_local : ℕ → Text) where
    unfoldable pub bookmark_here : App Index Value → App Index Value
    unfolding round_div
    bookmark_here a =
        let v = a.stores.table.viewport in
        let color =
          or_else
            (get_elem? bookmark_colors (length a.bookmarks.bookmarks % length bookmark_colors))
            (text "#6b7280") in
        let row = round_div v.scroll_y (default_cell_h * a.stores.ui.zoom) in
        record a {
          bookmarks = add_bookmark now a.bookmarks (record {
            scroll_x = v.scroll_x;
            scroll_y = v.scroll_y;
            label = text "Row " ++ show_local row;
            color = color;
          });
        }

    -- A key with its test for control or command.
    unfoldable pub on_key : App Index Value → KeyEvent → Bool → Key → Handled Index Value
    unfolding ignored taken go key_max_x key_max_y go_to_entry go_to_row go_to_bookmark toggle_found
        bookmark_here next_row prev_row min has_source with_ui
    on_key a e held key_p =
        if held then taken (with_ui a (set_show_command_palette a.stores.ui true)) else ignored a
    on_key a e held key_f =
        if held && e.shift
        then taken (with_ui a (set_show_filter_builder a.stores.ui true))
        else ignored a
    on_key a e held key_c =
        if held && e.shift then taken (with_ui a (toggle_column_panel a.stores.ui)) else ignored a
    on_key a e held key_e =
        if held && has_source a
        then taken (with_ui a (set_show_export_panel a.stores.ui true))
        else ignored a
    on_key a e held key_m =
        if held
        then taken (with_ui a (set_minimap_visible a.stores.ui (not a.stores.ui.minimap_visible)))
        else ignored a
    on_key a e held key_b =
        if held && e.shift
        then taken (with_ui a (set_show_bookmark_panel a.stores.ui true))
        else if held
        then taken (bookmark_here a)
        else ignored a
    on_key a e held key_l =
        if held && e.shift
        then taken (with_ui a (set_show_landmark_panel a.stores.ui true))
        else ignored a
    on_key a e held key_g =
        if held then taken (with_ui a (set_show_jump_to_row a.stores.ui true)) else ignored a
    on_key a e held plus =
        if held then record { app = a; prevented = true; zoom_call = some zoom_in } else ignored a
    on_key a e held equals =
        if held then record { app = a; prevented = true; zoom_call = some zoom_in } else ignored a
    on_key a e held minus =
        if held then record { app = a; prevented = true; zoom_call = some zoom_out } else ignored a
    on_key a e held question = taken (
        with_ui a
          (set_show_keyboard_shortcuts a.stores.ui (not a.stores.ui.show_keyboard_shortcuts)))
    on_key a e held arrow_right =
        let v = a.stores.table.viewport in
        let w = default_cell_w * a.stores.ui.zoom in
        if held
        then taken (go a (min (key_max_x a) (v.scroll_x + w * 10)) v.scroll_y false)
        else if e.alt
        then taken (go_to_entry a (nav_history_forward a.stores.ui))
        else ignored (go a (min (key_max_x a) (v.scroll_x + w)) v.scroll_y false)
    on_key a e held arrow_left =
        let v = a.stores.table.viewport in
        let w = default_cell_w * a.stores.ui.zoom in
        if held
        then taken (go a (v.scroll_x - w * 10) v.scroll_y false)
        else if e.alt
        then taken (go_to_entry a (nav_history_back a.stores.ui))
        else ignored (go a (v.scroll_x - w) v.scroll_y false)
    on_key a e held arrow_down =
        let v = a.stores.table.viewport in
        let h = default_cell_h * a.stores.ui.zoom in
        if held
        then taken (go_to_row a (next_row a.landmark_rows h v.scroll_y))
        else ignored (go a v.scroll_x (min (key_max_y a) (v.scroll_y + h)) false)
    on_key a e held arrow_up =
        let v = a.stores.table.viewport in
        let h = default_cell_h * a.stores.ui.zoom in
        if held
        then taken (go_to_row a (prev_row a.landmark_rows h v.scroll_y))
        else ignored (go a v.scroll_x (v.scroll_y - h) false)
    on_key a e held home =
        if held
        then taken (go a 0 0 true)
        else ignored (go a 0 a.stores.table.viewport.scroll_y false)
    on_key a e held end =
        if held
        then taken (go a (key_max_x a) (key_max_y a) true)
        else ignored (go a (key_max_x a) a.stores.table.viewport.scroll_y false)
    on_key a e held page_down =
        let v = a.stores.table.viewport in
        if e.shift
        then ignored (go a v.scroll_x (min (key_max_y a) (v.scroll_y + 10 * v.height)) true)
        else ignored (go a v.scroll_x (min (key_max_y a) (v.scroll_y + v.height)) false)
    on_key a e held page_up =
        let v = a.stores.table.viewport in
        if e.shift
        then ignored (go a v.scroll_x (v.scroll_y - 10 * v.height) true)
        else ignored (go a v.scroll_x (v.scroll_y - v.height) false)
    on_key a e held (digit n) =
        if e.shift && not held
        then toggle_found a (get_elem? layers n)
        else if held
        then taken (go_to_bookmark a (get_elem? a.bookmarks.bookmarks n))
        else ignored a
    on_key a e held other_key = ignored a

    unfoldable pub handle_key : App Index Value → KeyEvent → Handled Index Value
    unfolding on_key
    handle_key a e = elim e.in_field [
      | true ↦ ignored a
      | false ↦ on_key a e (e.ctrl || e.meta) e.key
    ]
