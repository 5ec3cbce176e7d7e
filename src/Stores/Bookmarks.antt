-- ===== src/Stores/Bookmarks.antt =====
-- web/src/stores/bookmarkStore.ts: the bookmarks and the counter of their ids. Storage by `persist` and
-- the list of colours are left out.
use tableverse.Prelude.{ℕ, ◌+◌, List, [], ◌∷◌, ◌++◌, Option, Text, text, text_key, ◌≟◌, ite}
use tableverse.Prelude.Radix.{to_string, pad_start}
use tableverse.TableStore.{or_else}

pub record Bookmark : Type 0 where
  pub id : Text
  pub scroll_x : ℕ
  pub scroll_y : ℕ
  pub label : Text
  pub color : Text

pub record NewBookmark : Type 0 where
  pub scroll_x : ℕ
  pub scroll_y : ℕ
  pub label : Text
  pub color : Text

pub record BookmarkChanges : Type 0 where
  pub label : Option Text
  pub color : Option Text

pub record BookmarkStore : Type 0 where
  pub bookmarks : List Bookmark
  pub id_counter : ℕ

unfoldable pub bookmark_id : ℕ → ℕ → Text
bookmark_id now counter = text "bm-" ++ to_string 10 now ++ 45 ∷ to_string 10 counter

unfoldable pub add_bookmark : ℕ → BookmarkStore → NewBookmark → BookmarkStore
add_bookmark now s b = record {
  bookmarks =
      s.bookmarks
      ++ record {
        id = bookmark_id now s.id_counter;
        scroll_x = b.scroll_x;
        scroll_y = b.scroll_y;
        label = b.label;
        color = b.color;
      }
        ∷ [];
  id_counter = s.id_counter + 1;
}

unfoldable pub other_bookmarks : Text → List Bookmark → List Bookmark
other_bookmarks id [] = []
other_bookmarks id (b ∷ bs) = ite (b.id ≟ id) (other_bookmarks id bs) (b ∷ other_bookmarks id bs)

unfoldable pub remove_bookmark : BookmarkStore → Text → BookmarkStore
unfolding other_bookmarks
remove_bookmark s id = record s { bookmarks = other_bookmarks id s.bookmarks }

unfoldable pub changed : Text → BookmarkChanges → List Bookmark → List Bookmark
changed id changes [] = []
changed id changes (b ∷ bs) =
    ite (b.id ≟ id)
      (record b { label = or_else changes.label b.label; color = or_else changes.color b.color }) b
    ∷ changed id changes bs

unfoldable pub update_bookmark : BookmarkStore → Text → BookmarkChanges → BookmarkStore
unfolding changed
update_bookmark s id changes = record s { bookmarks = changed id changes s.bookmarks }

-- `toHex`, of a colour with parts below 256.
unfoldable pub to_hex : ℕ → ℕ → ℕ → Text
to_hex r g b =
    35
    ∷ (pad_start 2 48 (to_string 16 r)
        ++ pad_start 2 48 (to_string 16 g)
        ++ pad_start 2 48 (to_string 16 b))
