-- ===== src/Navigation/Input.antt =====
-- web/src/hooks/useNavigationBar.ts: the state of the bar and what its handlers do with it.
use tableverse.Prelude.{
  ℕ, List, [], ◌∷◌, Option, none, some, Bool, true, false, ◌&&◌, Text, text, text_key, ◌≟◌,
}
use tableverse.Prelude.Int.{ℤ}
use tableverse.TableStore.{SourceMeta}
use tableverse.Navigation.Words.{trim}
use tableverse.Navigation.Bar.{Target, parse_nav_expression, get_suggestions, format_display_value}

pub record NavBarState : Type 0 where
  pub input_value : Text
  pub focused : Bool
  pub error : Bool
  pub suggestions : List Text

abbrev pub empty_bar : NavBarState
empty_bar = record { input_value = []; focused = false; error = false; suggestions = [] }

unfoldable pub on_blur : NavBarState → NavBarState
on_blur s = record s { focused = false; error = false; suggestions = [] }

unfoldable pub is_blank : Text → Bool
is_blank [] = true
is_blank (c ∷ s) = false

unfoldable pub is_nowhere : Option Target → Bool
is_nowhere none = true
is_nowhere (some t) = false

-- What a key does: nothing, the end of the focus, or a move and the end of the focus.
pub data KeyEffect : Type 0 where
  nothing focus_end : KeyEffect
  navigate : Target → KeyEffect

module _ {F : Type 0} (parse_float : Text → Option F) (part_of : F → ℕ → ℤ) (to_lower : Text → Text)
    (show_local : ℕ → Text) (source : Option SourceMeta) (scroll_x scroll_y zoom : ℕ) where
  unfoldable pub on_focus : NavBarState → NavBarState
  on_focus s = elim source [
    | none ↦ s
    | some meta ↦ record s {
      focused = true;
      input_value = format_display_value show_local meta scroll_x scroll_y zoom;
      error = false;
    }
  ]

  unfoldable pub on_change : NavBarState → Text → NavBarState
  unfolding is_blank is_nowhere
  on_change s value = elim source [
    | none ↦ s
    | some meta ↦ record s {
      input_value = value;
      suggestions = get_suggestions to_lower value meta;
      error =
          (elim (is_blank (trim value)) [ true ↦ false | false ↦ true ])
          && is_nowhere
              (parse_nav_expression parse_float part_of value meta scroll_x scroll_y zoom);
    }
  ]

  unfoldable pub on_commit : NavBarState → NavBarState × Option Target
  unfolding is_nowhere
  on_commit s = elim source [
    | none ↦ (s, none)
    | some meta ↦
        let result =
          parse_nav_expression parse_float part_of s.input_value meta scroll_x scroll_y zoom in
        (record s { error = is_nowhere result }, result)
  ]

  unfoldable pub committed : NavBarState × Option Target → NavBarState × KeyEffect
  committed (s, none) = (s, nothing)
  committed (s, some t) = (s, navigate t)

  unfoldable pub on_key_down : NavBarState → Text → NavBarState × KeyEffect
  unfolding on_commit committed
  on_key_down s key = elim (key ≟ text "Escape") [
    | yes h ↦ (s, focus_end)
    | no h ↦ elim (key ≟ text "Enter") [ yes k ↦ committed (on_commit s) | no k ↦ (s, nothing) ]
  ]

  unfoldable pub display_value : Text
  display_value = elim source [
    | none ↦ []
    | some meta ↦ format_display_value show_local meta scroll_x scroll_y zoom
  ]
