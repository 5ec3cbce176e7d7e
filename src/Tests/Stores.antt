-- ===== src/Tests/Stores.antt =====
-- The small stores and the client index on small inputs.
use tableverse.Prelude.{ℕ, List, ◌≡◌, refl, [], ◌∷◌, none, text, true}
use tableverse.Prelude.Dict
use tableverse.Prelude.Int.{pos}
use tableverse.Prelude.Radix.{to_string, pad_start}
use tableverse.Viewport.{TileCoord}
use tableverse.PrefetchModel.{
  empty_model, predict, record_all, record_tile, last_two, state_key, coord_key, count_from_two,
  count_next, fallback_predictions,
}
use tableverse.FuzzyMatch.{fuzzy_match, in_order}
use tableverse.Stores.Bookmarks.{to_hex}
use tableverse.Stores.Stats.{StatsState}
use tableverse.ClientIndex.{is_in, complement, complement_from, includes, has_prefix}

abbrev stats : StatsState ℕ ℕ ℕ
stats = record { stats = []; pending = []; row_group_stats = []; correlations = none }

others : complement (1 ∷ 3 ∷ []) 5 ≡ 0 ∷ 2 ∷ 4 ∷ []
unfolding complement complement_from is_in
others = refl

inside : includes (text "bc") (text "abcd") ≡ true
unfolding includes has_prefix
inside = refl

abbrev steps : List TileCoord
steps = record { row = 0; col = 0 } ∷ record { row = 1; col = 0 } ∷ []

onward :
    predict (record_all empty_model steps)
    ≡ record { row = pos 2; col = pos 0 }
      ∷ record { row = pos 3; col = pos 0 }
      ∷ record { row = pos 2; col = pos 0 }
      ∷ []
unfolding predict record_all record_tile last_two state_key coord_key count_from_two count_next
    fallback_predictions to_string Dict.get Dict.set
onward = refl

fuzzy : (fuzzy_match (λ s. s) (text "ac") (text "abc")).matched ≡ true
unfolding fuzzy_match in_order includes has_prefix
fuzzy = refl

colour : to_hex 16 5 255 ≡ text "#1005ff"
unfolding to_hex to_string pad_start
colour = refl
