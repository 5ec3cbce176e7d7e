-- ===== src/ClientIndex/Filter.antt =====
-- web/src/lib/client-index.ts: filter on the index that build makes.
use tableverse.Prelude.{ℕ, ◌≡◌, ◌<◌, List, Option, Bool, Text}
use tableverse.ViewExpr.{Predicate}
use tableverse.ClientIndex.{Numbers, eval_pred, is_in}
use tableverse.ClientIndex.Rowwise.{row_holds}
use tableverse.ClientIndex.Build.{ArrowTable, build}
use tableverse.ClientIndex.Built.{build-IsIndexed}
use tableverse.ClientIndex.Refine.{is_in-eval_pred}

module _ {N V : Type 0} (to_lower : Text → Text) (to_number : V → N) (to_text : V → Text)
    (nan zero_number : N) (numbers : Numbers N) (new_regex : Text → Option (Text → Bool)) where
  unfoldable pub filter : List (ArrowTable V) → Predicate N → List ℕ
  filter tables p =
      eval_pred numbers new_regex (build to_lower to_number to_text nan zero_number numbers tables)
        p

  -- On the index of any tables, a filter selects a row exactly if the row passes the predicate by itself,
  -- which is decided with no sets of rows, no sorted order and no search.
  pub is_in-filter :
      (tables : List (ArrowTable V)) (p : Predicate N) (i : ℕ)
      → i < (build to_lower to_number to_text nan zero_number numbers tables).total_rows
      → is_in i (filter tables p)
        ≡ row_holds numbers new_regex
            (build to_lower to_number to_text nan zero_number numbers tables)
            p
            i
  unfolding filter
  is_in-filter tables p i h =
      is_in-eval_pred numbers new_regex _ p i
        (build-IsIndexed to_lower to_number to_text nan zero_number numbers tables) h
