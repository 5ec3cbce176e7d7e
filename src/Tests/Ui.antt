-- ===== src/Tests/Ui.antt =====
-- The store of web/src/stores/ui.ts on small inputs.
use tableverse.Prelude.{
  ℕ, ◌+◌, ◌%◌, ◌≤◌, inr, ◌≡◌, refl, List, [], ◌∷◌, some, Text, text, true, false, not, arith,
}
use tableverse.Prelude.Int.{pos, ◌+ℤ◌, ◌-ℤ◌}
use tableverse.UiStore.{
  UiState, Page, initial_ui, initial_page, dark, system, null_map, outlier, NavHistoryEntry,
  adaptive_zoom_step, to_fixed,
}
use tableverse.UiStore.Actions.{
  quality, zoom_in, zoom_out, toggle_theme, is_layer_active, nav_history_back, nav_history_forward,
  push_nav_history, slice_to, elem_at,
}
use tableverse.UiStore.Zoom.{zoom_in-zoom_out}
use tableverse.UiStore.History.{
  NavAction, push, back, IsNavValid, act_nav, run_nav, run_nav-IsNavValid, forward-back, back-push,
}
use tableverse.UiStore.Layers
use tableverse.UiStore.Layers.{run_layers, flip_all, LayerAction, is_layer_active-run_layers}
use tableverse.UiStore.Look
use tableverse.UiStore.Look.{
  ThemeEvent, run_theme, IsShown, run_theme-IsShown, is_dark-toggle_theme,
}

abbrev page : Page
page = record { saved_theme = some dark; dark_class = false; prefers_dark = false }

abbrev Ui : Type 0
Ui = UiState ℕ

unfoldable start : Ui
unfolding initial_ui
start = initial_ui page

abbrev oddly_zoomed : Ui
oddly_zoomed = record start { zoom = 777000 }

-- From 0.777 out and in again to 0.78.
zoom_in-zoom_out_example :
    ((zoom_in (zoom_out oddly_zoomed)).zoom % 10000 ≡ 0)
    × ((zoom_in (zoom_out oddly_zoomed)).zoom ≤ oddly_zoomed.zoom + 5000)
    × (oddly_zoomed.zoom ≤ (zoom_in (zoom_out oddly_zoomed)).zoom + 5000)
zoom_in-zoom_out_example = zoom_in-zoom_out oddly_zoomed (inr (omega arith, omega arith))

rounded : (zoom_in (zoom_out oddly_zoomed)).zoom ≡ 780000
unfolding zoom_in zoom_out adaptive_zoom_step to_fixed
rounded = refl

-- At 0.5 the steps in and out differ.
no_round_trip : (zoom_in (zoom_out (record start { zoom = 500000 }))).zoom ≡ 450000
unfolding zoom_in zoom_out adaptive_zoom_step to_fixed
no_round_trip = refl

abbrev entry : ℕ → NavHistoryEntry
entry y = record { scroll_x = 0; scroll_y = y }

abbrev moves : List NavAction
moves = push (entry 1) ∷ push (entry 2) ∷ back ∷ push (entry 3) ∷ []

abbrev moved : Ui
moved = run_nav (initial_ui page) moves

-- A push after going back drops what was ahead.
after_moves : (moved.nav_history ≡ entry 1 ∷ entry 3 ∷ []) × (moved.nav_history_idx ≡ pos 1)
unfolding run_nav act_nav initial_ui push_nav_history nav_history_back slice_to elem_at ◌+ℤ◌ ◌-ℤ◌
after_moves = (refl, refl)

run_nav-IsNavValid_example : IsNavValid moved
run_nav-IsNavValid_example = run_nav-IsNavValid page moves

forward-back_example : nav_history_forward (nav_history_back moved).0 ≡ (moved, some (entry 3))
unfolding run_nav act_nav initial_ui push_nav_history nav_history_back slice_to elem_at ◌+ℤ◌ ◌-ℤ◌
forward-back_example = forward-back moved 0 (entry 3) refl refl

back-push_example : (nav_history_back (push_nav_history moved (entry 9))).1 ≡ some (entry 3)
unfolding run_nav act_nav initial_ui push_nav_history nav_history_back slice_to elem_at ◌+ℤ◌ ◌-ℤ◌
back-push_example = back-push moved 1 (entry 3) (entry 9) refl (omega arith) refl

abbrev layer_actions : List LayerAction
layer_actions = Layers.preset quality ∷ Layers.toggle outlier ∷ Layers.toggle null_map ∷ []

is_layer_active-run_layers_example :
    is_layer_active (run_layers (initial_ui {Value = ℕ} page) layer_actions) outlier
    ≡ flip_all (λ l. false) layer_actions outlier
is_layer_active-run_layers_example = is_layer_active-run_layers ℕ page layer_actions outlier

abbrev sorts : List Text
sorts = text "a" ∷ text "b" ∷ text "a" ∷ []

abbrev theme_events : List ThemeEvent
theme_events = Look.toggle ∷ Look.prefer true ∷ Look.choose system ∷ Look.prefer false ∷ []

run_theme-IsShown_example :
    IsShown
      (run_theme (initial_ui {Value = ℕ} page, initial_page page) theme_events)
      (record { theme = system; dark_when_set = true; dark_now = false })
unfolding Look.look_after
run_theme-IsShown_example = run_theme-IsShown page theme_events

is_dark-toggle_theme_example : (toggle_theme (start, page)).0.is_dark ≡ not start.is_dark
is_dark-toggle_theme_example = is_dark-toggle_theme (start, page)
