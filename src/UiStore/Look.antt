-- ===== src/UiStore/Look.antt =====
-- The theme of web/src/stores/ui.ts, while the preference of the system may change at any time.
use tableverse.Prelude.{
  ◌≡◌, refl, inl, inr, Bool-cases, List, [], ◌∷◌, Option, none, some, Bool, true, false, not,
  if◌then◌else◌,
}
use tableverse.UiStore.{
  Theme, light, dark, system, UiState, Page, resolve_is_dark, apply_theme, saved_or_system,
  initial_ui, initial_page,
}
use tableverse.UiStore.Actions.{set_theme, toggle_theme}

-- A choice of a theme, a toggle, or a change of what the system prefers.
pub data ThemeEvent : Type 0 where
  choose : Theme → ThemeEvent
  toggle : ThemeEvent
  prefer : Bool → ThemeEvent

-- What the events should show: the theme, the preference when it was set, and the preference now.
pub record Look : Type 0 where
  pub theme : Theme
  pub dark_when_set : Bool
  pub dark_now : Bool

abbrev pub shows_dark : Look → Bool
shows_dark l = elim l.theme [ light ↦ false | dark ↦ true | system ↦ l.dark_when_set ]

abbrev pub put_on : Look → Theme → Look
put_on l theme = record { theme = theme; dark_when_set = l.dark_now; dark_now = l.dark_now }

unfoldable pub look_after : Look → List ThemeEvent → Look
look_after l [] = l
look_after l (choose theme ∷ events) = look_after (put_on l theme) events
look_after l (toggle ∷ events) = look_after (put_on l (if shows_dark l then light else dark)) events
look_after l (prefer b ∷ events) = look_after (record l { dark_now = b }) events

-- At loading the stored theme is set, and that of the system if there is none.
abbrev pub first_look : Option Theme → Bool → Look
first_look none b = record { theme = system; dark_when_set = b; dark_now = b }
first_look (some theme) b = record { theme = theme; dark_when_set = b; dark_now = b }

-- The store, the class of the document and the stored theme are those of a look.
pub record IsShown {Value : Type 0} (shown : UiState Value × Page) (l : Look) : Type 0 where
  pub chosen : shown.0.theme ≡ l.theme
  pub resolved : shown.0.is_dark ≡ shows_dark l
  pub drawn : shown.1.dark_class ≡ shows_dark l
  pub saved : saved_or_system shown.1.saved_theme ≡ l.theme
  pub preferred : shown.1.prefers_dark ≡ l.dark_now

resolve_is_dark_lem :
    (page : Page) (l : Look) (theme : Theme)
    → page.prefers_dark ≡ l.dark_now
    → resolve_is_dark page theme ≡ shows_dark (put_on l theme)
unfolding resolve_is_dark
resolve_is_dark_lem page l light h = refl
resolve_is_dark_lem page l dark h = refl
resolve_is_dark_lem page l system h = h

-- What is stored at loading and the preference give the first look.
first_look_lem :
    (page : Page) (o : Option Theme)
    → (saved_or_system o ≡ (first_look o page.prefers_dark).theme)
      × (resolve_is_dark page (saved_or_system o) ≡ shows_dark (first_look o page.prefers_dark))
      × (page.prefers_dark ≡ (first_look o page.prefers_dark).dark_now)
unfolding saved_or_system resolve_is_dark
first_look_lem page none = (refl, refl, refl)
first_look_lem page (some light) = (refl, refl, refl)
first_look_lem page (some dark) = (refl, refl, refl)
first_look_lem page (some system) = (refl, refl, refl)

module _ {Value : Type 0} where
  unfoldable pub act_theme : UiState Value × Page → ThemeEvent → UiState Value × Page
  act_theme shown (choose theme) = set_theme shown theme
  act_theme shown toggle = toggle_theme shown
  act_theme (s, page) (prefer b) = (s, record page { prefers_dark = b })

  unfoldable pub run_theme : UiState Value × Page → List ThemeEvent → UiState Value × Page
  run_theme shown [] = shown
  run_theme shown (a ∷ events) = run_theme (act_theme shown a) events

  set_theme-IsShown :
      (shown : UiState Value × Page) (l : Look) (theme : Theme)
      → shown.1.prefers_dark ≡ l.dark_now
      → IsShown (set_theme shown theme) (put_on l theme)
  unfolding set_theme apply_theme saved_or_system
  set_theme-IsShown (s, page) l theme h = record {
    chosen = refl;
    resolved = resolve_is_dark_lem page l theme h;
    drawn = resolve_is_dark_lem page l theme h;
    saved = refl;
    preferred = h;
  }

  toggle_theme-IsShown :
      (shown : UiState Value × Page) (l : Look)
      → IsShown shown l
      → IsShown (toggle_theme shown) (put_on l (if shows_dark l then light else dark))
  unfolding toggle_theme set_theme
  toggle_theme-IsShown (s, page) l h = rw h.resolved (set_theme-IsShown (s, page) l _ h.preferred)

  run_theme-IsShown_from :
      (shown : UiState Value × Page) (l : Look) (events : List ThemeEvent)
      → IsShown shown l
      → IsShown (run_theme shown events) (look_after l events)
  unfolding run_theme act_theme look_after
  run_theme-IsShown_from shown l [] h = h
  run_theme-IsShown_from shown l (choose theme ∷ events) h =
      run_theme-IsShown_from _ _ events (set_theme-IsShown shown l theme h.preferred)
  run_theme-IsShown_from shown l (toggle ∷ events) h =
      run_theme-IsShown_from _ _ events (toggle_theme-IsShown shown l h)
  run_theme-IsShown_from (s, page) l (prefer b ∷ events) h =
      run_theme-IsShown_from (s, record page { prefers_dark = b }) (record l { dark_now = b })
        events
        (record {
          chosen = h.chosen;
          resolved = h.resolved;
          drawn = h.drawn;
          saved = h.saved;
          preferred = refl;
        })

  initial-IsShown :
      (page : Page)
      → IsShown
          (initial_ui {Value = Value} page, initial_page page)
          (first_look page.saved_theme page.prefers_dark)
  unfolding initial_ui initial_page apply_theme
  initial-IsShown page =
      let (theme, is_dark, now) = first_look_lem page page.saved_theme in
      record { chosen = theme; resolved = is_dark; drawn = is_dark; saved = theme; preferred = now }

  -- From the loading of the page on, after any choices of a theme, toggles and changes of the system's
  -- preference, the theme of the store and the stored one are the one set last, and the store and the
  -- page are dark exactly if it is dark, or is the system's and the system preferred dark when the theme
  -- was set. So a preference that changes later is not followed.
  pub run_theme-IsShown :
      (page : Page) (events : List ThemeEvent)
      → IsShown
          (run_theme (initial_ui {Value = Value} page, initial_page page) events)
          (look_after (first_look page.saved_theme page.prefers_dark) events)
  run_theme-IsShown page events = run_theme-IsShown_from _ _ events (initial-IsShown page)

  -- Toggling shows the other of light and dark.
  pub is_dark-toggle_theme :
      (shown : UiState Value × Page) → (toggle_theme shown).0.is_dark ≡ not shown.0.is_dark
  unfolding toggle_theme set_theme resolve_is_dark
  is_dark-toggle_theme shown = elim (Bool-cases shown.0.is_dark) [
    | inl dark_now ↦ rw dark_now refl
    | inr light_now ↦ rw light_now refl
  ]
