-- ===== src/UiStore.antt =====
-- web/src/stores/ui.ts: zoom, theme, panels, navigation history and layers. A zoom is a number of
-- millionths. `Value` is the type of cell values, which the
-- store only holds.
pub mod Actions
pub mod Zoom
pub mod History
pub mod Layers
pub mod Look
pub mod Counts
use tableverse.Prelude.{
  ℕ, ◌+◌, ◌-◌, ◌*◌, ◌/◌, ◌≡◌, List, [], ◌∷◌, Option, none, some, Bool, true, false, ltb,
  if◌then◌else◌, Text,
}
use tableverse.Prelude.Int.{ℤ, pos, negsuc}
use tableverse.TableStore.{CellAddress}
use tableverse.Viewport.{hundredth, zoom_one}

pub data Theme : Type 0 where
  light : Theme
  dark : Theme
  system : Theme

pub data LayerName : Type 0 where
  null_map : LayerName
  distribution : LayerName
  outlier : LayerName
  quality_alerts : LayerName
  completeness : LayerName
  class_balance : LayerName

pub data ContextMenuTarget (Value : Type 0) : Type 0 where
  cell : ℕ → ℕ → CellAddress → Value → Text → ContextMenuTarget Value
  column : ℕ → ℕ → ℕ → Text → ContextMenuTarget Value

pub record NavHistoryEntry : Type 0 where
  pub scroll_x : ℕ
  pub scroll_y : ℕ

pub record Tooltip : Type 0 where
  pub x : ℕ
  pub y : ℕ
  pub value : Text

pub data SatelliteEncoding : Type 0 where
  null_rate : SatelliteEncoding
  mean_normalized : SatelliteEncoding
  spread : SatelliteEncoding

pub record UiState (Value : Type 0) : Type 0 where
  pub zoom : ℕ
  pub theme : Theme
  pub is_dark : Bool
  pub semantic_zoom_enabled : Bool
  pub show_source_manager : Bool
  pub show_jump_to_row : Bool
  pub show_keyboard_shortcuts : Bool
  pub show_export_panel : Bool
  pub show_eda_panel : Bool
  pub show_column_panel : Bool
  pub show_filter_builder : Bool
  pub show_command_palette : Bool
  pub context_menu : Option (ContextMenuTarget Value)
  pub hovered_cell : Option CellAddress
  pub hovered_column_index : Option ℕ
  pub tooltip : Option Tooltip
  pub minimap_visible : Bool
  pub minimap_width : ℕ
  pub nav_history : List NavHistoryEntry
  pub nav_history_idx : ℤ
  pub show_landmark_panel : Bool
  pub show_bookmark_panel : Bool
  pub show_catalog_browser : Bool
  pub active_job_id : Option Text
  pub sort_access_counts : List (Text × ℕ)
  pub satellite_encoding : SatelliteEncoding
  pub pinned_correlation_col : Option ℕ
  pub pinned_distribution_col_idx : Option ℕ
  pub active_layers : List (LayerName × Unit {0})

abbrev pub zoom_min : ℕ
zoom_min = 5 * hundredth

abbrev pub zoom_max : ℕ
zoom_max = 300 * hundredth

unfoldable pub adaptive_zoom_step : ℕ → ℕ
adaptive_zoom_step zoom = if ltb zoom (50 * hundredth) then 5 * hundredth else 10 * hundredth

-- `toFixed(2)`, to the nearest hundredth, the larger of two that are as near.
unfoldable pub to_fixed : ℕ → ℕ
to_fixed zoom = (zoom + 5000) / hundredth * hundredth

-- What the page reads and writes: the stored theme, the class of the document, and what the system
-- prefers at the time.
pub record Page : Type 0 where
  pub saved_theme : Option Theme
  pub dark_class : Bool
  pub prefers_dark : Bool

unfoldable pub resolve_is_dark : Page → Theme → Bool
resolve_is_dark page dark = true
resolve_is_dark page light = false
resolve_is_dark page system = page.prefers_dark

unfoldable pub apply_theme : Page → Bool → Page
apply_theme page is_dark = record page { dark_class = is_dark }

abbrev pub nav_history_max : ℕ
nav_history_max = 64

unfoldable pub saved_or_system : Option Theme → Theme
saved_or_system none = system
saved_or_system (some theme) = theme

unfoldable pub initial_ui : {Value : Type 0} → Page → UiState Value
initial_ui page = record {
  zoom = zoom_one;
  theme = saved_or_system page.saved_theme;
  is_dark = resolve_is_dark page (saved_or_system page.saved_theme);
  semantic_zoom_enabled = true;
  show_source_manager = false;
  show_jump_to_row = false;
  show_keyboard_shortcuts = false;
  show_export_panel = false;
  show_eda_panel = false;
  show_column_panel = false;
  show_filter_builder = false;
  show_command_palette = false;
  context_menu = none;
  hovered_cell = none;
  hovered_column_index = none;
  tooltip = none;
  minimap_visible = true;
  minimap_width = 100;
  nav_history = [];
  nav_history_idx = negsuc 0;
  show_landmark_panel = false;
  show_bookmark_panel = false;
  show_catalog_browser = false;
  active_job_id = none;
  sort_access_counts = [];
  satellite_encoding = null_rate;
  pinned_correlation_col = none;
  pinned_distribution_col_idx = none;
  active_layers = [];
}

-- The page once the store is loaded.
unfoldable pub initial_page : Page → Page
initial_page page = apply_theme page (resolve_is_dark page (saved_or_system page.saved_theme))
