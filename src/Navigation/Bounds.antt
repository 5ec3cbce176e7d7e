-- ===== src/Navigation/Bounds.antt =====
-- Where navigateTo of web/src/hooks/useNavigation.ts goes, and what teleportTo leaves of the history.
use tableverse.Prelude.{
  ℕ, ◌+◌, ◌-◌, ◌*◌, ◌≤◌, ◌<◌, ◌≡◌, refl, Option, none, some, Bool, true, false, ltb, if◌then◌else◌,
  arith, inl, inr, Bool-cases, dec_lt,
}
use tableverse.Prelude.Int.{ℤ, pos, negsuc, ◌-ℤ◌, abs}
use tableverse.Viewport.{zoom_one, header_height_for_zoom, scroll_bound}
use tableverse.TableStore.{SourceMeta, or_else}
use tableverse.TableStore.Actions.{set_viewport}
use tableverse.Navigation.{
  Stores, source_rows, source_cols, max_x, max_y, clamp, distance, is_far, scroll_to, push_position,
  navigate_to, teleport_to,
}

clamp_id : (max x : ℕ) → x ≤ max → clamp max (pos x) ≡ x
unfolding clamp
clamp_id max x h = ground arith

-- Clamping brings a target no farther from a position inside.
distance-clamp : (max : ℕ) (x : ℤ) (v : ℕ) → v ≤ max → distance (pos (clamp max x)) v ≤ distance x v
unfolding distance clamp abs ◌-ℤ◌
distance-clamp max (pos n) v h = ground arith
distance-clamp max (negsuc n) v h = ground arith

distance_self : (v : ℕ) → distance (pos v) v ≡ 0
unfolding distance abs ◌-ℤ◌
distance_self v = ground arith

-- The columns and the rows that are shown, none without a source; a view may have another number of rows.
abbrev pub count_cols : Option SourceMeta → ℕ
count_cols none = 0
count_cols (some source) = source.n_cols

abbrev pub count_rows : Option ℕ → Option SourceMeta → ℕ
count_rows (some rows) source = rows
count_rows none none = 0
count_rows none (some source) = source.n_rows

pub source_cols_lem : (o : Option SourceMeta) → source_cols o ≡ count_cols o
unfolding source_cols
source_cols_lem none = refl
source_cols_lem (some source) = refl

rows_lem :
    (rows : Option ℕ) (o : Option SourceMeta) → or_else rows (source_rows o) ≡ count_rows rows o
unfolding or_else source_rows
rows_lem (some rows) o = refl
rows_lem none none = refl
rows_lem none (some source) = refl

sub_sub : (a b c : ℕ) → a - b * zoom_one - c * zoom_one ≡ a - (b + c) * 1000000
sub_sub a b c = omega arith

-- Where a target leads in one direction, for the size of the table and of the window.
pub data Reached (total window : ℕ) : ℤ → ℕ → Type 0 where
  at_target : {x scroll : ℕ} → x + window ≤ total → scroll ≡ x → Reached total window (pos x) scroll
  at_end :
      {x scroll : ℕ}
      → total < x + window
      → scroll + window ≡ total
      → Reached total window (pos x) scroll
  before_start : {n scroll : ℕ} → scroll ≡ 0 → Reached total window (negsuc n) scroll
  all_shown : {x : ℤ} {scroll : ℕ} → total ≤ window → scroll ≡ 0 → Reached total window x scroll

clamp-Reached : (total window : ℕ) (x : ℤ) → Reached total window x (clamp (total - window) x)
unfolding clamp
clamp-Reached total window (negsuc n) = before_start (ground arith)
clamp-Reached total window (pos x) = elim (dec_lt window total) [
  | no small ↦ all_shown (omega arith) (ground arith)
  | yes large ↦ elim (dec_lt total (x + window)) [
    | yes far ↦ at_end far (ground arith)
    | no near ↦ at_target (omega arith) (ground arith)
  ]
]

module _ {Index Value : Type 0} where
  -- The scroll position is one that the table has.
  abbrev pub IsInside : Stores Index Value → Type 0
  IsInside s = (s.table.viewport.scroll_x ≤ max_x s) × (s.table.viewport.scroll_y ≤ max_y s)

  -- The size of the whole table at the zoom, and that of the part of the window that shows cells: without
  -- the row numbers, the minimap or its handle, the header and the scrollbar.
  abbrev pub total_x : Stores Index Value → ℕ
  total_x s = count_cols s.table.source * (140 * s.ui.zoom)

  abbrev pub total_y : Stores Index Value → ℕ
  total_y s = count_rows s.virtual_row_count s.table.source * (32 * s.ui.zoom)

  abbrev pub window_x : Stores Index Value → ℕ
  window_x s =
      s.table.viewport.width
      - (60 + (if s.ui.minimap_visible then s.ui.minimap_width else 12)) * 1000000

  abbrev pub window_y : Stores Index Value → ℕ
  window_y s = s.table.viewport.height - (header_height_for_zoom s.ui.zoom + 14) * 1000000

  pub max_x-eq : (s : Stores Index Value) → max_x s ≡ total_x s - window_x s
  unfolding max_x scroll_bound
  max_x-eq s =
      rw
        (
          source_cols_lem s.table.source,
          sub_sub s.table.viewport.width 60
              (if s.ui.minimap_visible then s.ui.minimap_width else 12),
        )
        refl

  pub max_y-eq : (s : Stores Index Value) → max_y s ≡ total_y s - window_y s
  unfolding max_y scroll_bound
  max_y-eq s =
      rw
        (
          rows_lem s.virtual_row_count s.table.source,
          sub_sub s.table.viewport.height (header_height_for_zoom s.ui.zoom) 14,
        )
        refl

  -- The position that navigateTo sets.
  pub navigate_to-viewport :
      (s : Stores Index Value) (x y : ℤ) (push : Bool)
      → (navigate_to s x y push).table.viewport ≡ record {
        scroll_x = clamp (max_x s) x;
        scroll_y = clamp (max_y s) y;
        width = s.table.viewport.width;
        height = s.table.viewport.height;
      }
  unfolding navigate_to scroll_to push_position set_viewport or_else
  navigate_to-viewport s x y false = refl
  navigate_to-viewport s x y true =
      elim (Bool-cases (is_far s.table.viewport (clamp (max_x s) x) (clamp (max_y s) y))) [
        | inl far ↦ rw (navigate_to, far) refl
        | inr near ↦ rw (navigate_to, near) refl
      ]

  -- navigateTo goes to the target where the window stays within the table there, in each direction by
  -- itself; before the start it goes to the start, and behind the last such position to where the cells of
  -- the window end with the table. Where the table is not larger than the window, it goes to the start.
  pub navigate_to-Reached :
      (s : Stores Index Value) (x y : ℤ) (push : Bool)
      → Reached (total_x s) (window_x s) x (navigate_to s x y push).table.viewport.scroll_x
        × Reached (total_y s) (window_y s) y (navigate_to s x y push).table.viewport.scroll_y
  navigate_to-Reached s x y push =
      rw (navigate_to-viewport s x y push, max_x-eq s, max_y-eq s)
        (clamp-Reached (total_x s) (window_x s) x, clamp-Reached (total_y s) (window_y s) y)

  navigate_to-near :
      (s : Stores Index Value) (x y : ℤ)
      → is_far s.table.viewport (clamp (max_x s) x) (clamp (max_y s) y) ≡ false
      → (navigate_to s x y true).ui ≡ s.ui
  unfolding navigate_to scroll_to
  navigate_to-near s x y near = rw (navigate_to, near) refl

  not_far :
      (s : Stores Index Value) (x y : ℤ)
      → IsInside s
      → ltb
          (distance x s.table.viewport.scroll_x + distance y s.table.viewport.scroll_y)
          (s.table.viewport.height * 2)
        ≡ true
      → is_far s.table.viewport (clamp (max_x s) x) (clamp (max_y s) y) ≡ false
  unfolding is_far
  not_far s x y inside short = ground (
    arith,
    distance-clamp (max_x s) x s.table.viewport.scroll_x inside.0,
    distance-clamp (max_y s) y s.table.viewport.scroll_y inside.1,
  )

  not_far_here :
      (s : Stores Index Value)
      → IsInside s
      → is_far s.table.viewport
          (clamp (max_x s) (pos s.table.viewport.scroll_x))
          (clamp (max_y s) (pos s.table.viewport.scroll_y))
        ≡ false
  unfolding is_far
  not_far_here s inside =
      rw
        (
          clamp_id (max_x s) s.table.viewport.scroll_x inside.0,
          clamp_id (max_y s) s.table.viewport.scroll_y inside.1,
          distance_self s.table.viewport.scroll_x,
          distance_self s.table.viewport.scroll_y,
        )
        (ground arith)

  -- From a position inside of the bounds teleportTo leaves the history as it is, wherever it goes: a near
  -- target is too near to be pushed, and for a far one the position that navigateTo is called with is the
  -- current one.
  pub teleport_to-ui :
      (s : Stores Index Value) (x y : ℤ) → IsInside s → (teleport_to s x y).0.ui ≡ s.ui
  unfolding teleport_to
  teleport_to-ui s x y inside =
      let v = s.table.viewport in
      elim (Bool-cases (ltb (distance x v.scroll_x + distance y v.scroll_y) (v.height * 2))) [
        | inl short ↦ rw (teleport_to, short) (navigate_to-near s x y (not_far s x y inside short))
        | inr long ↦
            rw (teleport_to, long)
              (navigate_to-near s (pos v.scroll_x) (pos v.scroll_y) (not_far_here s inside))
      ]
