-- ===== src/Navigation.antt =====
-- web/src/hooks/useNavigation.ts: navigateTo, and teleportTo up to its first frame. The three stores are
-- one state. Lengths are in millionths of a pixel, in which a cell of the default size at a zoom in
-- millionths is exact.
pub mod Bounds
pub mod Words
pub mod Bar
pub mod Typed
pub mod Input
pub mod Keyboard
pub mod Places
pub mod Keys
use tableverse.Prelude.{ℕ, ◌+◌, ◌-◌, ◌*◌, Option, none, some, Bool, true, false, ltb, if◌then◌else◌}
use tableverse.Prelude.Int.{ℤ, pos, pos_part, ◌-ℤ◌, abs}
use tableverse.Viewport.{Viewport, zoom_one, header_height_for_zoom, scroll_bound}
use tableverse.TableStore.{TableState, PartialViewport, SourceMeta, or_else}
use tableverse.TableStore.Actions.{set_viewport}
use tableverse.UiStore.{UiState, NavHistoryEntry}
use tableverse.UiStore.Actions.{push_nav_history}

-- Pixels.
abbrev pub default_cell_w : ℕ
default_cell_w = 140

abbrev pub default_cell_h : ℕ
default_cell_h = 32

abbrev pub row_header_w : ℕ
row_header_w = 60

abbrev pub scrollbar_size : ℕ
scrollbar_size = 14

pub record Stores (Index Value : Type 0) : Type 0 where
  pub table : TableState Index
  pub ui : UiState Value
  pub virtual_row_count : Option ℕ

unfoldable pub source_rows : Option SourceMeta → ℕ
source_rows none = 0
source_rows (some source) = source.n_rows

unfoldable pub source_cols : Option SourceMeta → ℕ
source_cols none = 0
source_cols (some source) = source.n_cols

-- `Math.max(0, Math.min(max, x))`
unfoldable pub clamp : ℕ → ℤ → ℕ
clamp max x = if ltb max (pos_part x) then max else pos_part x

-- `Math.abs(a - b)`, of a target that may lie outside of the table.
unfoldable pub distance : ℤ → ℕ → ℕ
distance a b = pos_part (abs (a -ℤ pos b))

-- Whether a move is long enough for the history.
unfoldable pub is_far : Viewport → ℕ → ℕ → Bool
unfolding distance
is_far v x y = ltb (v.height * 2) (distance (pos x) v.scroll_x + distance (pos y) v.scroll_y)

-- The movement of teleportTo, which its frames carry out.
pub record Animation : Type 0 where
  pub start_x : ℕ
  pub start_y : ℕ
  pub target_x : ℤ
  pub target_y : ℤ

module _ {Index Value : Type 0} where
  -- `maxX` of navigateTo. The subtraction of natural numbers is `Math.max(0, ...)`.
  unfoldable pub max_x : Stores Index Value → ℕ
  unfolding source_cols
  max_x s =
      let map_w = if s.ui.minimap_visible then s.ui.minimap_width else 12 in
      let grid_w = s.table.viewport.width - row_header_w * zoom_one - map_w * zoom_one in
      scroll_bound (source_cols s.table.source) (default_cell_w * s.ui.zoom) grid_w

  unfoldable pub max_y : Stores Index Value → ℕ
  unfolding source_rows
  max_y s =
      let header_h = header_height_for_zoom s.ui.zoom in
      let grid_h = s.table.viewport.height - header_h * zoom_one - scrollbar_size * zoom_one in
      scroll_bound (or_else s.virtual_row_count (source_rows s.table.source))
        (default_cell_h * s.ui.zoom) grid_h

  unfoldable pub push_position : Stores Index Value → Stores Index Value
  push_position s = record s {
    ui =
        push_nav_history s.ui
          (record { scroll_x = s.table.viewport.scroll_x; scroll_y = s.table.viewport.scroll_y });
  }

  unfoldable pub scroll_to : Stores Index Value → ℕ → ℕ → Stores Index Value
  scroll_to s x y = record s {
    table =
        set_viewport s.table
          (record { scroll_x = some x; scroll_y = some y; width = none; height = none });
  }

  unfoldable pub navigate_to : Stores Index Value → ℤ → ℤ → Bool → Stores Index Value
  unfolding clamp is_far push_position scroll_to max_x max_y
  navigate_to s scroll_x scroll_y push_history =
      let x = clamp (max_x s) scroll_x in
      let y = clamp (max_y s) scroll_y in
      elim push_history [
        | false ↦ scroll_to s x y
        | true ↦ elim (is_far s.table.viewport x y) [
          | false ↦ scroll_to s x y
          | true ↦ scroll_to (push_position s) x y
        ]
      ]

  -- The state behind the call and the animation that it starts, if it starts one.
  unfoldable pub teleport_to : Stores Index Value → ℤ → ℤ → Stores Index Value × Option Animation
  unfolding navigate_to
  teleport_to s scroll_x scroll_y =
      let v = s.table.viewport in
      elim (ltb (distance scroll_x v.scroll_x + distance scroll_y v.scroll_y) (v.height * 2)) [
        | true ↦ (navigate_to s scroll_x scroll_y true, none)
        | false ↦ (
          navigate_to s (pos v.scroll_x) (pos v.scroll_y) true,
          some (record {
            start_x = v.scroll_x;
            start_y = v.scroll_y;
            target_x = scroll_x;
            target_y = scroll_y;
          }),
        )
      ]
