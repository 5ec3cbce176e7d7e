-- ===== src/Viewport/Cover.antt =====
-- The tiles of web/src/lib/viewport.ts cover the window.
use native.Mathlib.Nat.{div-mul-le_self, le-div_iff_mul-le, div-div-eq-div-mul}
use tableverse.Prelude.{
  ℕ, zero, suc, ◌+◌, ◌-◌, ◌*◌, ◌/◌, ◌≤◌, ◌<◌, ◌≡◌, ◌⊎◌, inl, inr, sym, ap, ◌∙◌, List, [], ◌∷◌, map,
  arith, In, In-append_left, In-append_right, In-map,
}
use tableverse.Viewport.{
  TileCoord, Viewport, count_from, tiles_of, tile_start, tile_end, ceil_div, visible_tiles,
  tile_rows_for_zoom, tile_cols_for_zoom, centre_tile, viewport_center_tile,
}

In-count_from : (count start n : ℕ) → start ≤ n → n < start + count → In n (count_from start count)
unfolding count_from
In-count_from zero start n lo hi = absurd (omega arith)
In-count_from (suc count) start n lo hi = elim (eq_or_later start n lo) [
  | inl e ↦ inl e
  | inr later ↦ inr (In-count_from count (suc start) n later (omega arith))
]
  where
    eq_or_later : (s m : ℕ) → s ≤ m → (m ≡ s) ⊎ (suc s ≤ m)
    eq_or_later s m h = grind arith

In-tiles_of :
    (row col : ℕ) (rows cols : List ℕ)
    → In row rows
    → In col cols
    → In {A = TileCoord} (record { row = row; col = col }) (tiles_of rows cols)
unfolding tiles_of
In-tiles_of row col [] cols h k = absurd h
In-tiles_of row col (r ∷ rows) cols (inl e) k =
    rw e (
      In-append_left _ _ (tiles_of rows cols)
        (In-map (λ c. record { row = r; col = c }) col cols k))
In-tiles_of row col (r ∷ rows) cols (inr h) k =
    In-append_right _ (map (λ c. record { row = r; col = c }) cols) _
      (In-tiles_of row col rows cols h k)

-- A pixel of the window lies in the range of tiles of its axis.
axis_cover :
    (scroll extent tile prefetch x : ℕ)
    → 0 < tile
    → scroll ≤ x
    → x < scroll + extent
    → (tile_start scroll tile prefetch ≤ x / tile)
      × (x / tile < tile_end scroll extent tile prefetch)
unfolding tile_start tile_end ceil_div
axis_cover scroll extent tile prefetch x pos lo hi =
    let before = div-mul-le_self scroll tile in
    let inside = div-mul-le_self x tile in
    (
      omega (arith, (le-div_iff_mul-le {k = tile} {x = scroll / tile} {y = x} pos).1 (omega arith)),
      omega (
        arith,
        (le-div_iff_mul-le {k = tile} {x = suc (x / tile)} {y = scroll + extent + tile - 1} pos).1
            (omega arith),
      ),
    )

tile_rows_for_zoom_pos : (zoom : ℕ) → 0 < tile_rows_for_zoom zoom
unfolding tile_rows_for_zoom
tile_rows_for_zoom_pos zoom = ground arith

tile_cols_for_zoom_pos : (zoom : ℕ) → 0 < tile_cols_for_zoom zoom
unfolding tile_cols_for_zoom
tile_cols_for_zoom_pos zoom = ground arith

mul_pos : (a b : ℕ) → 0 < a → 0 < b → 0 < a * b
mul_pos a b h k = grind arith

-- The centre in whole units, which lies in the same tile.
centre_half :
    (scroll extent tile : ℕ) → centre_tile scroll extent tile ≡ (scroll + extent / 2) / tile
unfolding centre_tile
centre_half scroll extent tile =
    sym (div-div-eq-div-mul (2 * scroll + extent) 2 tile) ∙ ap (λ n. n / tile) (omega arith)

-- The tile of every pixel of the window is among the visible tiles, at every zoom and prefetch.
pub visible_tiles_cover :
    (viewport : Viewport) (cell_w cell_h zoom prefetch x y : ℕ)
    → 0 < cell_w
    → 0 < cell_h
    → viewport.scroll_x ≤ x
    → x < viewport.scroll_x + viewport.width
    → viewport.scroll_y ≤ y
    → y < viewport.scroll_y + viewport.height
    → In {A = TileCoord}
        (record {
          row = y / (cell_h * tile_rows_for_zoom zoom);
          col = x / (cell_w * tile_cols_for_zoom zoom);
        })
        (visible_tiles viewport cell_w cell_h zoom prefetch)
unfolding visible_tiles
visible_tiles_cover viewport cell_w cell_h zoom prefetch x y pw ph lx hx ly hy =
    let (r0, r1) =
      axis_cover viewport.scroll_y viewport.height (cell_h * tile_rows_for_zoom zoom) prefetch y
        (mul_pos _ _ ph (tile_rows_for_zoom_pos zoom)) ly hy in
    let (c0, c1) =
      axis_cover viewport.scroll_x viewport.width (cell_w * tile_cols_for_zoom zoom) prefetch x
        (mul_pos _ _ pw (tile_cols_for_zoom_pos zoom)) lx hx in
    In-tiles_of _ _ _ _ (In-count_from _ _ _ r0 (omega arith))
      (In-count_from _ _ _ c0 (omega arith))

-- The centre tile is among the visible tiles of a window with an area.
pub viewport_center_tile-In :
    (viewport : Viewport) (cell_w cell_h zoom prefetch : ℕ)
    → 0 < cell_w
    → 0 < cell_h
    → 0 < viewport.width
    → 0 < viewport.height
    → In
        (viewport_center_tile viewport cell_w cell_h zoom)
        (visible_tiles viewport cell_w cell_h zoom prefetch)
unfolding viewport_center_tile
viewport_center_tile-In viewport cell_w cell_h zoom prefetch pw ph w h =
    rw (centre_half viewport.scroll_y viewport.height, centre_half viewport.scroll_x viewport.width)
      (visible_tiles_cover viewport cell_w cell_h zoom prefetch
        (viewport.scroll_x + viewport.width / 2) (viewport.scroll_y + viewport.height / 2) pw ph
        (omega arith) (omega arith) (omega arith) (omega arith))
