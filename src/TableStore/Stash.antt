-- ===== src/TableStore/Stash.antt =====
-- `stashTilesAsStale` of web/src/stores/table.ts: the tiles of the last view, by position.
use tableverse.Prelude.{
  ℕ, ◌≡◌, ◌≢◌, refl, sym, ap, ◌∙◌, List, [], ◌∷◌, ◌++◌, Option, none, some, Text, text_key, nat_key,
  ℕ_discrete, ◌≟◌, arith, inl, inr, Option-cases,
}
use tableverse.Prelude.Dict
use tableverse.Prelude.Dict.{Distinct, get-set_self, get-set_ne}
use tableverse.Prelude.Radix.{All, IsDigit}
use tableverse.Viewport.{tile_key, pos_key}
use tableverse.Viewport.Key.{tile_key-injective, pos_key-injective, digits_no_colon}
use tableverse.TableStore.{BatchTable, TableState, after_colon, stash_tile, stash_loop}
use tableverse.TableStore.Actions.{stash_tiles_as_stale}

after_colon-append :
    (s rest : Text) → All (λ c. 58 ≢ c) s → after_colon (s ++ 58 ∷ rest) ≡ some rest
unfolding after_colon ℕ_discrete
after_colon-append [] rest h = refl
after_colon-append (c ∷ s) rest h = ground (arith, after_colon-append s rest h.1)

-- Behind the view hash, a tile key has the position.
pub after_colon-tile_key :
    (row col : ℕ) (h : Text)
    → All IsDigit h
    → after_colon (tile_key row col h) ≡ some (pos_key row col)
unfolding tile_key
after_colon-tile_key row col h d = after_colon-append h (pos_key row col) (digits_no_colon h d)

-- Every key is that of a tile of the view.
abbrev pub OfView : Text → List (Text × BatchTable) → Type 0
OfView h [] = Unit
OfView h ((k, t) ∷ m) = ((row : ℕ) × (col : ℕ) × (k ≡ tile_key row col h)) × OfView h m

unfoldable or_get : Option BatchTable → Option BatchTable → Option BatchTable
or_get none o = o
or_get (some t) o = some t

stash_tile_lem :
    (k : Text) (row col : ℕ) (h : Text) (t : BatchTable) (stale : List (Text × BatchTable))
    → All IsDigit h
    → k ≡ tile_key row col h
    → stash_tile stale (after_colon k) t ≡ Dict.set (pos_key row col) t stale
unfolding stash_tile
stash_tile_lem k row col h t stale d e = rw (e, after_colon-tile_key row col h d) refl

pos_key-ne :
    (row col row' col' : ℕ) (h k : Text)
    → k ≡ tile_key row' col' h
    → tile_key row col h ≢ k
    → pos_key row col ≢ pos_key row' col'
pos_key-ne row col row' col' h k e ne same =
    let (rows, cols) = pos_key-injective row col row' col' same in ne (rw (rows, cols) (sym e))

pos_key-eq :
    (row col row' col' : ℕ) (h k : Text)
    → All IsDigit h
    → k ≡ tile_key row' col' h
    → tile_key row col h ≡ k
    → pos_key row col ≡ pos_key row' col'
pos_key-eq row col row' col' h k d e same =
    let (rows, cols, hashes) = tile_key-injective row col row' col' h h d d (same ∙ e) in
    rw (rows, cols) refl

get-stash_loop :
    (row col : ℕ) (h : Text) (stale m : List (Text × BatchTable))
    → All IsDigit h
    → OfView h m
    → Distinct m
    → Dict.get (pos_key row col) (stash_loop stale m)
      ≡ or_get (Dict.get (tile_key row col h) m) (Dict.get (pos_key row col) stale)
unfolding stash_loop or_get Dict.get
get-stash_loop row col h stale [] d o u = refl
get-stash_loop row col h stale ((k, t) ∷ m) d o u =
    let (row', col', e) = o.0 in
    let rest = get-stash_loop row col h (Dict.set (pos_key row' col') t stale) m d o.1 u.1 in
    rw (stash_tile_lem k row' col' h t stale d e) (elim (tile_key row col h ≟ k) [
      | yes same ↦ ground (
        arith,
        same,
        rest,
        u.0,
        ap (λ j. Dict.get j m) same,
        pos_key-eq row col row' col' h k d e same,
        ap (λ j. Dict.get j (Dict.set (pos_key row' col') t stale))
            (pos_key-eq row col row' col' h k d e same),
        get-set_self (pos_key row' col') t stale,
      )
      | no ne ↦ ground (
        arith,
        ne,
        rest,
        get-set_ne (pos_key row col) (pos_key row' col') t stale
            (pos_key-ne row col row' col' h k e ne),
      )
    ])

-- Where every tile is of one view with a hash of digits, stashing keeps the table of each position
-- and no other.
pub get-stash_tiles_as_stale :
    {Index : Type 0} (s : TableState Index) (row col : ℕ) (h : Text)
    → All IsDigit h
    → OfView h s.tiles
    → Distinct s.tiles
    → Dict.get (pos_key row col) (stash_tiles_as_stale s).stale_tiles
      ≡ Dict.get (tile_key row col h) s.tiles
unfolding stash_tiles_as_stale or_get Dict.get
get-stash_tiles_as_stale s row col h d o u =
    elim (Option-cases (Dict.get (tile_key row col h) s.tiles)) [
      | inl absent ↦ rw (get-stash_loop row col h [] s.tiles d o u, absent) refl
      | inr (t, present) ↦ rw (get-stash_loop row col h [] s.tiles d o u, present) refl
    ]
