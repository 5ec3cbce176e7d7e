-- ===== src/Tests/Tiles.antt =====
-- The tiles and hashes of web/src/lib/viewport.ts and web/src/lib/viewHash.ts on small inputs.
use tableverse.Prelude.{
  ℕ, ◌≡◌, ◌/◌, ◌*◌, refl, List, [], ◌∷◌, none, some, text, Text, In, arith, length,
}
use tableverse.Prelude.Int.{pos, negsuc}
use tableverse.Prelude.Radix.{to_string, pad_start}
use tableverse.Viewport.{
  TileCoord, Viewport, visible_tiles, tiles_of, count_from, tile_start, tile_end, tile_key, pos_key,
  tile_rows_for_zoom, tile_cols_for_zoom, cell_at_pixel, viewport_center_tile,
  header_height_for_zoom, scroll_bound, hundredth, zoom_one,
}
use tableverse.Viewport.Cover.{visible_tiles_cover, viewport_center_tile-In}
use tableverse.Viewport.Key.{tile_key-injective}
use tableverse.ViewHash.{compute_view_hash, hash_loop, source_text, length-compute_view_hash}

abbrev window : Viewport
window = record { scroll_x = 0; scroll_y = 0; width = 800; height = 600 }

abbrev tile : ℕ → ℕ → TileCoord
tile row col = record { row = row; col = col }

origin_tile : visible_tiles window 140 32 zoom_one 0 ≡ tile 0 0 ∷ []
unfolding visible_tiles tiles_of count_from tile_start tile_end tile_rows_for_zoom
    tile_cols_for_zoom
origin_tile = refl

cell : cell_at_pixel (pos 150) (negsuc 3) 0 0 140 32 ≡ tile 0 1
unfolding cell_at_pixel
cell = refl

sizes :
    (header_height_for_zoom (5 * hundredth) ≡ 18)
    × (tile_rows_for_zoom (5 * hundredth) ≡ 4096)
    × (scroll_bound 2 140 800 ≡ 0)
unfolding header_height_for_zoom tile_rows_for_zoom scroll_bound
sizes = (refl, refl, refl)

key : tile_key 256 64 (text "00ff") ≡ text "00ff:256:64"
unfolding tile_key pos_key to_string
key = refl

abbrev stringify : List (Unit {0}) → Text
stringify ops = text "[]"

hash : compute_view_hash stringify [] (some (text "s")) ≡ text "eb94e1181da07dae"
unfolding compute_view_hash hash_loop source_text to_string pad_start
hash = refl

visible_tiles_cover_example :
    In
      (tile (500 / (32 * tile_rows_for_zoom zoom_one)) (799 / (140 * tile_cols_for_zoom zoom_one)))
      (visible_tiles window 140 32 zoom_one 1)
visible_tiles_cover_example =
    visible_tiles_cover window 140 32 zoom_one 1 799 500 (omega arith) (omega arith) (omega arith)
      (omega arith) (omega arith) (omega arith)

viewport_center_tile-In_example :
    In (viewport_center_tile window 140 32 50) (visible_tiles window 140 32 50 0)
viewport_center_tile-In_example =
    viewport_center_tile-In window 140 32 50 0 (omega arith) (omega arith) (omega arith)
      (omega arith)

tile_key-injective_example : (◌≡◌ {A = ℕ} 1 1) × (◌≡◌ {A = ℕ} 2 2) × (text "0a" ≡ text "0a")
tile_key-injective_example =
    tile_key-injective 1 2 1 2 (text "0a") (text "0a") (omega arith) (omega arith) refl

length-compute_view_hash_example : length (compute_view_hash stringify (tt ∷ []) none) ≡ 16
length-compute_view_hash_example = length-compute_view_hash stringify (tt ∷ []) none
