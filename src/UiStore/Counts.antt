-- ===== src/UiStore/Counts.antt =====
-- The counts of sorts by a column in web/src/stores/ui.ts.
use tableverse.Prelude.{ℕ, ◌+◌, ◌≡◌, ap, List, [], ◌∷◌, Text, text_key, ◌≟◌, ite, arith}
use tableverse.Prelude.Dict
use tableverse.Prelude.Dict.{get-set_self, get-set_ne}
use tableverse.TableStore.{or_else}
use tableverse.UiStore.{UiState}
use tableverse.UiStore.Actions.{sort_access_count, increment_sort_access}

unfoldable pub occurrences : Text → List Text → ℕ
occurrences col [] = 0
occurrences col (c ∷ cols) = ite (col ≟ c) 1 0 + occurrences col cols

module _ {Value : Type 0} where
  unfoldable pub sorted_by : UiState Value → List Text → UiState Value
  sorted_by s [] = s
  sorted_by s (col ∷ cols) = sorted_by (increment_sort_access s col).0 cols

  count-increment :
      (s : UiState Value) (c col : Text)
      → sort_access_count (increment_sort_access s c).0 col
        ≡ ite (col ≟ c) 1 0 + sort_access_count s col
  unfolding sort_access_count increment_sort_access or_else
  count-increment s c col = elim (col ≟ c) [
    | yes e ↦ ground (
      arith,
      e,
      ap (λ x. Dict.get x s.sort_access_counts) e,
      ap
          (λ x.
            Dict.get x
              (Dict.set c (or_else (Dict.get c s.sort_access_counts) 0 + 1) s.sort_access_counts))
          e,
      get-set_self c (or_else (Dict.get c s.sort_access_counts) 0 + 1) s.sort_access_counts,
    )
    | no e ↦ ground (
      arith,
      e,
      get-set_ne col c (or_else (Dict.get c s.sort_access_counts) 0 + 1) s.sort_access_counts e,
    )
  ]

  -- The count of a column grows by the number of sorts by it.
  pub sort_access_count-sorted_by :
      (s : UiState Value) (cols : List Text) (col : Text)
      → sort_access_count (sorted_by s cols) col ≡ occurrences col cols + sort_access_count s col
  unfolding sorted_by occurrences
  sort_access_count-sorted_by s [] col = omega arith
  sort_access_count-sorted_by s (c ∷ cols) col = omega (
    arith,
    sort_access_count-sorted_by (increment_sort_access s c).0 cols col,
    count-increment s c col,
  )
