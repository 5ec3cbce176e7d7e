-- ===== src/Tests/Index.antt =====
-- The index of a small source and a filter on it. NaN is `none`.
use tableverse.Prelude.{
  List-discrete, ℕ_discrete, ℕ, ◌≡◌, ◌<◌, refl, List, [], ◌∷◌, Option, none, some, Bool, true,
  false, Text, text, text_key, ltb, leb, ◌==◌, arith, length,
}
use tableverse.Prelude.Dict
use tableverse.ViewExpr.{Predicate, Literal}
use tableverse.ClientIndex
use tableverse.ClientIndex.{Numbers, is_in}
use tableverse.ClientIndex.Rowwise.{row_holds}
use tableverse.ClientIndex.Sorted.{text_at}
use tableverse.ClientIndex.Build
use tableverse.ClientIndex.Build.{ArrowTable, build}
use tableverse.ClientIndex.Filter.{filter, is_in-filter}

abbrev number_test : (ℕ → ℕ → Bool) → Option ℕ → Option ℕ → Bool
number_test f none b = false
number_test f (some a) none = false
number_test f (some a) (some b) = f a b

abbrev is_none : Option ℕ → Bool
is_none none = true
is_none (some n) = false

abbrev option_numbers : Numbers (Option ℕ)
option_numbers = record {
  equal = number_test (λ a b. a == b);
  less = number_test ltb;
  less_or_equal = number_test leb;
  is_nan = is_none;
}

abbrev names : List (Option Text) → ArrowTable Text
names values = record {
  fields = (text "name", text "utf8") ∷ [];
  num_rows = length values;
  children = (text "name", values) ∷ [];
}

abbrev source_tables : List (ArrowTable Text)
source_tables =
    names (some (text "b") ∷ some (text "a") ∷ []) ∷ names (some (text "b") ∷ none ∷ []) ∷ []

abbrev named_b : Predicate (Option ℕ)
named_b = Predicate.eq (text "name") (Literal.string (text "b"))

rows_b :
    filter (λ s. s) (λ v. none) (λ v. v) none none option_numbers (λ s. none) source_tables named_b
    ≡ 0 ∷ 2 ∷ []
unfolding filter ClientIndex.eval_pred ClientIndex.eval_eq ClientIndex.lower_bound
    ClientIndex.sorted_text ClientIndex.is_before ClientIndex.equal_run ClientIndex.sort_rows
    ClientIndex.insert_all ClientIndex.insert_sorted ClientIndex.rows_or_none ClientIndex.text_less
    ClientIndex.text_equal ClientIndex.rows_from ClientIndex.includes ClientIndex.has_prefix text_at
    Dict.get Dict.set build Build.build_columns Build.build_column Build.is_numeric_type_str
    Build.text_column Build.text_cell Build.write_all Build.sum_rows Build.build_sorted_indices_str
    Build.sort_by_text Build.insert_row List-discrete ℕ_discrete
rows_b = refl

in_source :
    2 < (build (λ s. s) (λ v. none) (λ v. v) none none option_numbers source_tables).total_rows
unfolding build Build.build_columns Build.build_column Build.is_numeric_type_str Build.sum_rows
    ClientIndex.includes ClientIndex.has_prefix List-discrete ℕ_discrete
in_source = omega arith

is_in-filter_example :
    is_in 2 (
      filter
        (λ s. s)
        (λ v. none)
        (λ v. v)
        none
        none
        option_numbers
        (λ s. none)
        source_tables
        named_b)
    ≡ row_holds option_numbers
        (λ s. none)
        (build (λ s. s) (λ v. none) (λ v. v) none none option_numbers source_tables)
        named_b
        2
is_in-filter_example =
    is_in-filter (λ s. s) (λ v. none) (λ v. v) none none option_numbers (λ s. none) source_tables
      named_b 2 in_source
