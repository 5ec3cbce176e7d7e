-- ===== src/UiStore/Actions.antt =====
-- The actions of web/src/stores/ui.ts.
use tableverse.Prelude.{
  ℕ, suc, ◌+◌, ◌-◌, List, [], ◌∷◌, ◌++◌, Option, none, some, Bool, not, ltb, if◌then◌else◌, Text,
  text_key, Key, length, take, drop, get_elem?,
}
use tableverse.Prelude.Dict
use tableverse.Prelude.Int.{ℤ, pos, negsuc, ltb_ℤ, ◌+ℤ◌, ◌-ℤ◌}
use tableverse.TableStore.{CellAddress, or_else}
use tableverse.Viewport.{zoom_one}
use tableverse.UiStore.{
  Theme, light, dark, LayerName, null_map, distribution, outlier, quality_alerts, completeness,
  class_balance, ContextMenuTarget, NavHistoryEntry, Tooltip, SatelliteEncoding, UiState, Page,
  zoom_min, zoom_max, adaptive_zoom_step, to_fixed, resolve_is_dark, apply_theme, nav_history_max,
}

min : ℕ → ℕ → ℕ
min a b = if ltb a b then a else b

max : ℕ → ℕ → ℕ
max a b = if ltb a b then b else a

unfoldable pub LayerName-discrete : Discrete LayerName
LayerName-discrete = hlevel

instance abbrev pub layer_key : Key LayerName
layer_key = record { dec = LayerName-discrete }

-- `xs.slice(0, end)`: an end below 0 counts from the back.
unfoldable pub slice_to : {A : Type 0} → ℤ → List A → List A
slice_to (pos n) xs = take n xs
slice_to (negsuc n) xs = take (length xs - suc n) xs

-- `xs[i]`
unfoldable pub elem_at : {A : Type 0} → ℤ → List A → Option A
elem_at (pos n) xs = get_elem? xs n
elem_at (negsuc n) xs = none

pub data Preset : Type 0 where
  quality : Preset
  distribution_preset : Preset
  ml : Preset
  full : Preset
  cleared : Preset

unfoldable pub preset_layers : Preset → List LayerName
preset_layers quality = null_map ∷ quality_alerts ∷ []
preset_layers distribution_preset = distribution ∷ outlier ∷ []
preset_layers ml = null_map ∷ quality_alerts ∷ class_balance ∷ []
preset_layers full =
    null_map ∷ distribution ∷ outlier ∷ quality_alerts ∷ completeness ∷ class_balance ∷ []
preset_layers cleared = []

-- `new Set(layers)`, from the set at hand.
unfoldable pub set_of : List (LayerName × Unit {0}) → List LayerName → List (LayerName × Unit {0})
set_of seen [] = seen
set_of seen (l ∷ ls) = set_of (Dict.set l tt seen) ls

module _ {Value : Type 0} where
  unfoldable pub set_zoom : UiState Value → ℕ → UiState Value
  unfolding min max
  set_zoom s zoom = record s { zoom = min zoom_max (max zoom_min zoom) }

  unfoldable pub zoom_in : UiState Value → UiState Value
  unfolding min adaptive_zoom_step to_fixed
  zoom_in s = record s { zoom = min zoom_max (to_fixed (s.zoom + adaptive_zoom_step s.zoom)) }

  -- A difference below 0 is 0 here; either way the minimum is the result.
  unfoldable pub zoom_out : UiState Value → UiState Value
  unfolding max adaptive_zoom_step to_fixed
  zoom_out s = record s { zoom = max zoom_min (to_fixed (s.zoom - adaptive_zoom_step s.zoom)) }

  unfoldable pub reset_zoom : UiState Value → UiState Value
  reset_zoom s = record s { zoom = zoom_one }

  unfoldable pub set_theme : UiState Value × Page → Theme → UiState Value × Page
  set_theme (s, page) theme =
      let is_dark = resolve_is_dark page theme in
      let shown = apply_theme page is_dark in
      (record s { theme = theme; is_dark = is_dark }, record shown { saved_theme = some theme })

  unfoldable pub toggle_theme : UiState Value × Page → UiState Value × Page
  toggle_theme (s, page) = set_theme (s, page) (if s.is_dark then light else dark)

  unfoldable pub toggle_source_manager : UiState Value → UiState Value
  toggle_source_manager s = record s { show_source_manager = not s.show_source_manager }

  unfoldable pub toggle_column_panel : UiState Value → UiState Value
  toggle_column_panel s = record s { show_column_panel = not s.show_column_panel }

  unfoldable pub set_semantic_zoom_enabled : UiState Value → Bool → UiState Value
  set_semantic_zoom_enabled s enabled = record s { semantic_zoom_enabled = enabled }

  unfoldable pub set_show_jump_to_row : UiState Value → Bool → UiState Value
  set_show_jump_to_row s show = record s { show_jump_to_row = show }

  unfoldable pub set_show_keyboard_shortcuts : UiState Value → Bool → UiState Value
  set_show_keyboard_shortcuts s show = record s { show_keyboard_shortcuts = show }

  unfoldable pub set_show_export_panel : UiState Value → Bool → UiState Value
  set_show_export_panel s show = record s { show_export_panel = show }

  unfoldable pub set_show_eda_panel : UiState Value → Bool → UiState Value
  set_show_eda_panel s show = record s { show_eda_panel = show }

  unfoldable pub set_show_filter_builder : UiState Value → Bool → UiState Value
  set_show_filter_builder s show = record s { show_filter_builder = show }

  unfoldable pub set_show_command_palette : UiState Value → Bool → UiState Value
  set_show_command_palette s show = record s { show_command_palette = show }

  unfoldable pub set_context_menu : UiState Value → Option (ContextMenuTarget Value) → UiState Value
  set_context_menu s menu = record s { context_menu = menu }

  unfoldable pub set_hovered_cell : UiState Value → Option CellAddress → UiState Value
  set_hovered_cell s address = record s { hovered_cell = address }

  unfoldable pub set_hovered_column_index : UiState Value → Option ℕ → UiState Value
  set_hovered_column_index s index = record s { hovered_column_index = index }

  unfoldable pub set_tooltip : UiState Value → Option Tooltip → UiState Value
  set_tooltip s tip = record s { tooltip = tip }

  unfoldable pub set_minimap_visible : UiState Value → Bool → UiState Value
  set_minimap_visible s v = record s { minimap_visible = v }

  unfoldable pub set_minimap_width : UiState Value → ℕ → UiState Value
  set_minimap_width s w = record s { minimap_width = w }

  unfoldable pub set_show_landmark_panel : UiState Value → Bool → UiState Value
  set_show_landmark_panel s show = record s { show_landmark_panel = show }

  unfoldable pub set_show_bookmark_panel : UiState Value → Bool → UiState Value
  set_show_bookmark_panel s show = record s { show_bookmark_panel = show }

  unfoldable pub set_show_catalog_browser : UiState Value → Bool → UiState Value
  set_show_catalog_browser s show = record s { show_catalog_browser = show }

  unfoldable pub set_active_job_id : UiState Value → Option Text → UiState Value
  set_active_job_id s id = record s { active_job_id = id }

  unfoldable pub set_satellite_encoding : UiState Value → SatelliteEncoding → UiState Value
  set_satellite_encoding s enc = record s { satellite_encoding = enc }

  unfoldable pub set_pinned_correlation_col : UiState Value → Option ℕ → UiState Value
  set_pinned_correlation_col s col = record s { pinned_correlation_col = col }

  unfoldable pub set_pinned_distribution_col_idx : UiState Value → Option ℕ → UiState Value
  set_pinned_distribution_col_idx s col = record s { pinned_distribution_col_idx = col }

  unfoldable pub push_nav_history : UiState Value → NavHistoryEntry → UiState Value
  unfolding slice_to
  push_nav_history s position =
      let truncated = slice_to (s.nav_history_idx +ℤ pos 1) s.nav_history in
      let all = truncated ++ position ∷ [] in
      let next = drop (length all - nav_history_max) all in
      record s { nav_history = next; nav_history_idx = pos (length next) -ℤ pos 1 }

  unfoldable pub nav_history_back : UiState Value → UiState Value × Option NavHistoryEntry
  nav_history_back s =
      let new_idx = s.nav_history_idx -ℤ pos 1 in
      if ltb_ℤ (pos 0) s.nav_history_idx
      then (record s { nav_history_idx = new_idx }, elem_at new_idx s.nav_history)
      else (s, none)

  unfoldable pub nav_history_forward : UiState Value → UiState Value × Option NavHistoryEntry
  nav_history_forward s =
      let new_idx = s.nav_history_idx +ℤ pos 1 in
      if ltb_ℤ s.nav_history_idx (pos (length s.nav_history) -ℤ pos 1)
      then (record s { nav_history_idx = new_idx }, elem_at new_idx s.nav_history)
      else (s, none)

  unfoldable pub sort_access_count : UiState Value → Text → ℕ
  sort_access_count s col = or_else (Dict.get col s.sort_access_counts) 0

  unfoldable pub increment_sort_access : UiState Value → Text → UiState Value × ℕ
  increment_sort_access s col =
      let next = or_else (Dict.get col s.sort_access_counts) 0 + 1 in
      (record s { sort_access_counts = Dict.set col next s.sort_access_counts }, next)

  unfoldable pub toggle_layer : UiState Value → LayerName → UiState Value
  toggle_layer s layer = record s {
    active_layers =
        if Dict.has layer s.active_layers
        then Dict.delete layer s.active_layers
        else Dict.set layer tt s.active_layers;
  }

  unfoldable pub is_layer_active : UiState Value → LayerName → Bool
  is_layer_active s layer = Dict.has layer s.active_layers

  unfoldable pub set_layer_preset : UiState Value → Preset → UiState Value
  set_layer_preset s preset = record s { active_layers = set_of [] (preset_layers preset) }
