-- ===== src/Viewport.antt =====
-- web/src/lib/viewport.ts: tile sizes, visible tiles, cells under a pixel, tile keys. Lengths in
-- pixels are natural numbers of one common unit, as fine as a client needs (a quotient of two lengths
-- does not depend on it); a zoom is a number of millionths.
pub mod Cover
pub mod Key
use tableverse.Prelude.{
  ℕ, zero, suc, ◌+◌, ◌-◌, ◌*◌, ◌/◌, ◌≡◌, List, [], ◌∷◌, ◌++◌, ltb, leb, if◌then◌else◌, Text, map,
}
use tableverse.Prelude.Radix.{to_string}
use tableverse.Prelude.Int.{ℤ, pos, pos_part, ◌+ℤ◌}

pub record TileCoord : Type 0 where
  pub row : ℕ
  pub col : ℕ

pub record Viewport : Type 0 where
  pub scroll_x : ℕ
  pub scroll_y : ℕ
  pub width : ℕ
  pub height : ℕ

abbrev pub tile_rows : ℕ
tile_rows = 256

abbrev pub tile_cols : ℕ
tile_cols = 64

-- A hundredth of the zoom 1, and the zoom 1.
abbrev pub hundredth : ℕ
hundredth = 10000

abbrev pub zoom_one : ℕ
zoom_one = 100 * hundredth

unfoldable pub header_height_for_zoom : ℕ → ℕ
header_height_for_zoom zoom =
    if ltb zoom (10 * hundredth)
    then 18
    else if ltb zoom (28 * hundredth)
    then 36
    else if ltb zoom (55 * hundredth)
    then 56
    else if ltb zoom (100 * hundredth)
    then 80
    else 100

unfoldable pub tile_rows_for_zoom : ℕ → ℕ
tile_rows_for_zoom zoom =
    if leb (100 * hundredth) zoom
    then 256
    else if leb (50 * hundredth) zoom
    then 512
    else if leb (25 * hundredth) zoom
    then 1024
    else if leb (10 * hundredth) zoom
    then 2048
    else 4096

unfoldable pub tile_cols_for_zoom : ℕ → ℕ
tile_cols_for_zoom zoom =
    if leb (100 * hundredth) zoom then 64 else if leb (50 * hundredth) zoom then 128 else 256

-- `Math.ceil(a / b)` for a positive `b`.
unfoldable pub ceil_div : ℕ → ℕ → ℕ
ceil_div a b = (a + b - 1) / b

-- The numbers from `start` on, `count` of them: the values of a loop's counter.
unfoldable pub count_from : ℕ → ℕ → List ℕ
count_from start zero = []
count_from start (suc count) = start ∷ count_from (suc start) count

-- `for (let row = ...) for (let col = ...) tiles.push({ row, col })`
unfoldable pub tiles_of : List ℕ → List ℕ → List TileCoord
tiles_of [] cols = []
tiles_of (row ∷ rows) cols = map (λ col. record { row = row; col = col }) cols ++ tiles_of rows cols

-- The first tile that the prefetch margin leaves: `Math.max(0, Math.floor(x / tile) - prefetch)`,
-- which the subtraction of natural numbers gives.
unfoldable pub tile_start : ℕ → ℕ → ℕ → ℕ
tile_start scroll tile prefetch = scroll / tile - prefetch

unfoldable pub tile_end : ℕ → ℕ → ℕ → ℕ → ℕ
unfolding ceil_div
tile_end scroll extent tile prefetch = ceil_div (scroll + extent) tile + prefetch

unfoldable pub visible_tiles : Viewport → ℕ → ℕ → ℕ → ℕ → List TileCoord
visible_tiles viewport cell_w cell_h zoom prefetch =
    let tile_pixel_w = cell_w * tile_cols_for_zoom zoom in
    let tile_pixel_h = cell_h * tile_rows_for_zoom zoom in
    let col_start = tile_start viewport.scroll_x tile_pixel_w prefetch in
    let col_end = tile_end viewport.scroll_x viewport.width tile_pixel_w prefetch in
    let row_start = tile_start viewport.scroll_y tile_pixel_h prefetch in
    let row_end = tile_end viewport.scroll_y viewport.height tile_pixel_h prefetch in
    tiles_of (count_from row_start (row_end - row_start))
      (count_from col_start (col_end - col_start))

-- The template literal `${viewHash}:${row}:${col}`.
unfoldable pub pos_key : ℕ → ℕ → Text
pos_key row col = to_string 10 row ++ 58 ∷ to_string 10 col

unfoldable pub tile_key : ℕ → ℕ → Text → Text
tile_key row col view_hash = view_hash ++ 58 ∷ pos_key row col

-- `Math.max(0, Math.floor((px + scroll) / cell))`: 0 left of the table.
unfoldable pub cell_index : ℤ → ℕ → ℕ → ℕ
unfolding ◌+ℤ◌
cell_index px scroll cell = pos_part (px +ℤ pos scroll) / cell

unfoldable pub cell_at_pixel : ℤ → ℤ → ℕ → ℕ → ℕ → ℕ → TileCoord
unfolding cell_index
cell_at_pixel px py scroll_x scroll_y cell_w cell_h = record {
  row = cell_index py scroll_y cell_h;
  col = cell_index px scroll_x cell_w;
}

-- `Math.floor((scroll + extent / 2) / tile)`: twice the centre over twice the tile.
unfoldable pub centre_tile : ℕ → ℕ → ℕ → ℕ
centre_tile scroll extent tile = (2 * scroll + extent) / (2 * tile)

unfoldable pub viewport_center_tile : Viewport → ℕ → ℕ → ℕ → TileCoord
unfolding centre_tile
viewport_center_tile viewport cell_w cell_h zoom = record {
  row = centre_tile viewport.scroll_y viewport.height (cell_h * tile_rows_for_zoom zoom);
  col = centre_tile viewport.scroll_x viewport.width (cell_w * tile_cols_for_zoom zoom);
}

-- `scrollBounds`: the largest scroll, 0 where the table is smaller than the window.
unfoldable pub scroll_bound : ℕ → ℕ → ℕ → ℕ
scroll_bound n cell window = n * cell - window
