-- ===== src/UiStore/Zoom.antt =====
-- Zooming in web/src/stores/ui.ts.
use tableverse.Prelude.{ℕ, ◌+◌, ◌%◌, ◌≤◌, ◌<◌, ◌≡◌, ◌⊎◌, inl, inr, List, [], ◌∷◌, arith}
use tableverse.UiStore.{UiState, adaptive_zoom_step, to_fixed, zoom_min, zoom_max}
use tableverse.UiStore.Actions.{set_zoom, zoom_in, zoom_out, reset_zoom}

pub data ZoomAction : Type 0 where
  set : ℕ → ZoomAction
  step_in : ZoomAction
  step_out : ZoomAction
  reset : ZoomAction

abbrev pub InRange : ℕ → Type 0
InRange zoom = (zoom_min ≤ zoom) × (zoom ≤ zoom_max)

module _ {Value : Type 0} where
  unfoldable pub act_zoom : UiState Value → ZoomAction → UiState Value
  act_zoom s (set zoom) = set_zoom s zoom
  act_zoom s step_in = zoom_in s
  act_zoom s step_out = zoom_out s
  act_zoom s reset = reset_zoom s

  unfoldable pub run_zoom : UiState Value → List ZoomAction → UiState Value
  run_zoom s [] = s
  run_zoom s (a ∷ actions) = run_zoom (act_zoom s a) actions

  act_zoom-InRange :
      (s : UiState Value) (a : ZoomAction) → InRange s.zoom → InRange (act_zoom s a).zoom
  unfolding act_zoom set_zoom zoom_in zoom_out reset_zoom adaptive_zoom_step to_fixed
  act_zoom-InRange s (set zoom) h = ground arith
  act_zoom-InRange s step_in h = ground arith
  act_zoom-InRange s step_out h = ground arith
  act_zoom-InRange s reset h = ground arith

  -- Zoom actions keep the zoom between 0.05 and 3.
  pub run_zoom-InRange :
      (s : UiState Value) (actions : List ZoomAction)
      → InRange s.zoom
      → InRange (run_zoom s actions).zoom
  unfolding run_zoom
  run_zoom-InRange s [] h = h
  run_zoom-InRange s (a ∷ actions) h =
      run_zoom-InRange (act_zoom s a) actions (act_zoom-InRange s a h)

  -- Where the steps out and in are the same, from 0.1 to below 0.5 and from 0.6 to 3, zooming out and in
  -- again leads to a whole number of hundredths that is nearest to the zoom.
  pub zoom_in-zoom_out :
      (s : UiState Value)
      → ((100000 ≤ s.zoom) × (s.zoom < 500000)) ⊎ ((600000 ≤ s.zoom) × (s.zoom ≤ 3000000))
      → ((zoom_in (zoom_out s)).zoom % 10000 ≡ 0)
        × ((zoom_in (zoom_out s)).zoom ≤ s.zoom + 5000)
        × (s.zoom ≤ (zoom_in (zoom_out s)).zoom + 5000)
  unfolding zoom_in zoom_out adaptive_zoom_step to_fixed
  zoom_in-zoom_out s (inl h) = ground arith
  zoom_in-zoom_out s (inr h) = ground arith
