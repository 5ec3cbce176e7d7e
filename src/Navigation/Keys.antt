-- ===== src/Navigation/Keys.antt =====
-- Where the keys of web/src/hooks/useKeyboard.ts that move lead.
use Prim.Native.Nat.{min}
use tableverse.Prelude.{
  ℕ, ◌-◌, ◌*◌, ◌≤◌, ◌<◌, ◌+◌, ◌≡◌, refl, ap, ◌∙◌, Option, none, some, Bool, true, false, ◌||◌, Text,
  arith, inl, inr, Bool-cases,
}
use tableverse.Prelude.Int.{pos}
use tableverse.TableStore.{SourceMeta}
use tableverse.Viewport.{scroll_bound}
use tableverse.Navigation.{source_rows, clamp}
use tableverse.Navigation.Bounds.{
  total_x, total_y, window_x, window_y, count_rows, max_x-eq, max_y-eq, navigate_to-viewport,
  source_cols_lem,
}
use tableverse.Navigation.Keyboard.{
  min as key_min, App, Key, KeyEvent, next_row, prev_row, go, go_to_row, key_max_x, key_max_y,
  on_key, handle_key, ignored, taken, arrow_right,
}
use tableverse.Navigation.Places.{
  IsMove, right, left, down, up, first, last, next, previous, Place, LeadsDown, LeadsUp, Leads,
  next_row_lem, prev_row_lem,
}

clamp-min : (m x : ℕ) → clamp m (pos x) ≡ min m x
unfolding clamp
clamp-min m x = ground arith

source_rows_lem : (o : Option SourceMeta) → source_rows o ≡ count_rows none o
unfolding source_rows
source_rows_lem none = refl
source_rows_lem (some source) = refl

module _ {Index Value : Type 0} where
  -- The place of the position of the stores. `useKeyboard` counts the rows of the source and has its bounds
  -- from the whole window.
  abbrev pub place : App Index Value → Place
  place a = record {
    x = a.stores.table.viewport.scroll_x;
    y = a.stores.table.viewport.scroll_y;
    cell_w = 140 * a.stores.ui.zoom;
    cell_h = 32 * a.stores.ui.zoom;
    height = a.stores.table.viewport.height;
    last_x = total_x a.stores - window_x a.stores;
    last_y = total_y a.stores - window_y a.stores;
    end_x = total_x a.stores - a.stores.table.viewport.width;
    end_y =
        count_rows none a.stores.table.source * (32 * a.stores.ui.zoom)
        - a.stores.table.viewport.height;
    landmarks = a.landmark_rows;
  }

  abbrev pub x_of : App Index Value → ℕ
  x_of a = a.stores.table.viewport.scroll_x

  abbrev pub y_of : App Index Value → ℕ
  y_of a = a.stores.table.viewport.scroll_y

  go-Is :
      (a : App Index Value) (to_x to_y : ℕ) (push : Bool) (x y : ℕ)
      → min (place a).last_x to_x ≡ x
      → min (place a).last_y to_y ≡ y
      → (x_of (go a to_x to_y push) ≡ x) × (y_of (go a to_x to_y push) ≡ y)
  unfolding go
  go-Is a to_x to_y push x y is_x is_y =
      rw (navigate_to-viewport a.stores (pos to_x) (pos to_y) push, max_x-eq, max_y-eq)
        (clamp-min (place a).last_x to_x ∙ is_x, clamp-min (place a).last_y to_y ∙ is_y)

  key_max_x-eq : (a : App Index Value) → key_max_x a ≡ (place a).end_x
  unfolding key_max_x scroll_bound
  key_max_x-eq a = rw (source_cols_lem a.stores.table.source) refl

  key_max_y-eq : (a : App Index Value) → key_max_y a ≡ (place a).end_y
  unfolding key_max_y scroll_bound
  key_max_y-eq a = rw (source_rows_lem a.stores.table.source) refl

  end_x-le : (a : App Index Value) → (place a).end_x ≤ (place a).last_x
  end_x-le a = omega arith

  next-LeadsDown :
      (a : App Index Value)
      → x_of a ≤ (place a).last_x
      → let row = next_row a.landmark_rows (place a).cell_h (y_of a) in
        (x_of (go_to_row a row) ≡ x_of a) × LeadsDown (place a) (y_of (go_to_row a row))
  unfolding go_to_row
  next-LeadsDown a ix = elim (next_row_lem a.landmark_rows (place a).cell_h (y_of a)) [
    | inl (out, all) ↦ rw (out, go_to_row) (refl, inl (all, refl))
    | inr (r, before, after, found, is, all, far) ↦
        let there = go-Is a (x_of a) (r * (place a).cell_h) true _ _ (omega arith) refl in
        rw (found, go_to_row) (there.0, inr (r, before, after, is, all, far, there.1))
  ]

  prev-LeadsUp :
      (a : App Index Value)
      → x_of a ≤ (place a).last_x
      → y_of a ≤ (place a).last_y
      → let row = prev_row a.landmark_rows (place a).cell_h (y_of a) in
        (x_of (go_to_row a row) ≡ x_of a) × LeadsUp (place a) (y_of (go_to_row a row))
  unfolding go_to_row
  prev-LeadsUp a ix iy = elim (prev_row_lem a.landmark_rows (place a).cell_h (y_of a)) [
    | inl (out, all) ↦ rw (out, go_to_row) (refl, inl (all, refl))
    | inr (r, before, after, found, is, all, far) ↦
        let there =
          go-Is a (x_of a) (r * (place a).cell_h) true _ (r * (place a).cell_h) (omega arith)
            (omega arith) in
        rw (found, go_to_row) (there.0, inr (r, before, after, is, all, far, there.1))
  ]

  module _ (now : ℕ) (show_local : ℕ → Text) where
    on_key-Leads :
        (a : App Index Value) (e : KeyEvent) (held : Bool) {k : Key}
        → IsMove k
        → e.alt ≡ false
        → x_of a ≤ (place a).last_x
        → y_of a ≤ (place a).last_y
        → Leads
            (place a)
            k
            held
            e.shift
            (x_of (on_key now show_local a e held k).app)
            (y_of (on_key now show_local a e held k).app)
    unfolding on_key ignored taken key_min
    on_key-Leads a e true right alt ix iy =
        let bound = key_max_x-eq a in
        go-Is a _ _ false _ _ (ground (arith, end_x-le a)) (omega arith)
    on_key-Leads a e false right alt ix iy =
        let bound = key_max_x-eq a in
        rw alt (go-Is a _ _ false _ _ (ground (arith, end_x-le a)) (omega arith))
    on_key-Leads a e true left alt ix iy = go-Is a _ _ false _ _ (omega arith) (omega arith)
    on_key-Leads a e false left alt ix iy =
        rw alt (go-Is a _ _ false _ _ (omega arith) (omega arith))
    on_key-Leads a e true down alt ix iy = next-LeadsDown a ix
    on_key-Leads a e false down alt ix iy =
        let bound = key_max_y-eq a in go-Is a _ _ false _ _ (omega arith) (ground arith)
    on_key-Leads a e true up alt ix iy = prev-LeadsUp a ix iy
    on_key-Leads a e false up alt ix iy = go-Is a _ _ false _ _ (omega arith) (omega arith)
    on_key-Leads a e true first alt ix iy = go-Is a 0 0 true _ _ (omega arith) (omega arith)
    on_key-Leads a e false first alt ix iy = go-Is a 0 _ false _ _ (omega arith) (omega arith)
    on_key-Leads a e true last alt ix iy =
        go-Is a _ _ true _ _ (omega (arith, key_max_x-eq a, end_x-le a))
          (ap (min (place a).last_y) (key_max_y-eq a))
    on_key-Leads a e false last alt ix iy =
        go-Is a _ _ false _ _ (omega (arith, key_max_x-eq a, end_x-le a)) (omega arith)
    on_key-Leads a e held next alt ix iy =
        let bound = key_max_y-eq a in
        elim (Bool-cases e.shift) [
          | inl shift ↦ rw shift (go-Is a _ _ true _ _ (omega arith) (ground arith))
          | inr plain ↦ rw plain (go-Is a _ _ false _ _ (omega arith) (ground arith))
        ]
    on_key-Leads a e held previous alt ix iy = elim (Bool-cases e.shift) [
      | inl shift ↦ rw shift (go-Is a _ _ true _ _ (omega arith) (omega arith))
      | inr plain ↦ rw plain (go-Is a _ _ false _ _ (omega arith) (omega arith))
    ]

    pub handle_key-Leads :
        (a : App Index Value) (e : KeyEvent)
        → IsMove e.key
        → e.in_field ≡ false
        → e.alt ≡ false
        → x_of a ≤ (place a).last_x
        → y_of a ≤ (place a).last_y
        → Leads
            (place a)
            e.key
            (e.ctrl || e.meta)
            e.shift
            (x_of (handle_key now show_local a e).app)
            (y_of (handle_key now show_local a e).app)
    unfolding handle_key
    handle_key-Leads a e move free alt ix iy =
        rw free (on_key-Leads a e (e.ctrl || e.meta) move alt ix iy)

    -- So ArrowRight moves to the left where the whole window reaches beyond the end of the table.
    pub arrow_right_back :
        (a : App Index Value) (e : KeyEvent)
        → e.key ≡ arrow_right
        → e.in_field ≡ false
        → e.alt ≡ false
        → 0 < x_of a
        → x_of a ≤ (place a).last_x
        → y_of a ≤ (place a).last_y
        → total_x a.stores < x_of a + a.stores.table.viewport.width
        → x_of (handle_key now show_local a e).app < x_of a
    unfolding handle_key
    arrow_right_back a e is free alt inner ix iy beyond =
        let there = on_key-Leads a e (e.ctrl || e.meta) right alt ix iy in
        rw (free, is) (omega (arith, there.0))
