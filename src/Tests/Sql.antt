-- ===== src/Tests/Sql.antt =====
-- The SQL builder on small views.
use tableverse.Prelude.{
  ℕ, ◌≡◌, refl, List, [], ◌∷◌, ◌++◌, some, map, text, text_key, arith, suc, ◌≢◌,
}
use tableverse.Prelude.Radix.{to_string, to_string-IsDigit, All, All-map}
use tableverse.ViewExpr.{Literal, Predicate, Predicates, ViewOp, ScalarExpr}
use tableverse.SqlBuilder.{pred_sql, lit_sql, q, quote_text, replace_char, escape_like}
use tableverse.SqlBuilder.Query.{tile_sql}
use tableverse.SqlBuilder.Lex.{Same}
use tableverse.SqlBuilder.Erase.{erase_op, IsPlainOp, IsPlain, ArePlain, IsPlainScalar}
use tableverse.SqlBuilder.Safe.{IsUnquoted}
use tableverse.SqlBuilder.Views.{tile_sql-Same}
use tableverse.SqlBuilder.Quote.{read_part, read_part-q, Ends}

to_string-IsUnquoted : (n : ℕ) → IsUnquoted (to_string 10 n)
to_string-IsUnquoted n =
    All-map {Q = λ c. (34 ≢ c) × (39 ≢ c)} (to_string 10 n) (λ c h. ground arith)
      (to_string-IsDigit 10 n (omega arith) (omega arith))

abbrev named : Predicate ℕ
named = Predicate.eq (text "a\"b") (Literal.string (text "it's"))

named_sql : pred_sql (to_string 10) named ≡ text "\"a\"\"b\" = 'it''s'"
unfolding pred_sql lit_sql q quote_text replace_char
named_sql = refl

abbrev view : List (ViewOp ℕ)
view =
    ViewOp.filter (
      Predicate.and (
        Predicates.cons named
          (Predicates.cons (Predicate.contains (text "c") (text "50%")) Predicates.nil)))
    ∷ ViewOp.derive (text "d") (ScalarExpr.column (text "c"))
    ∷ []

view-IsPlain : All IsPlainOp view
unfolding IsPlainOp IsPlain ArePlain IsPlainScalar
view-IsPlain = ground arith

tile_sql-Same_example :
    Same
      (tile_sql (to_string 10) suc (text "f.parquet") view 0 64 (text "parquet"))
      (tile_sql (to_string 10) suc (text "o'brien.csv") (map erase_op view) 0 64 (text "parquet"))
tile_sql-Same_example =
    tile_sql-Same (to_string 10) to_string-IsUnquoted suc (text "f.parquet") (text "o'brien.csv")
      (text "parquet") view 0 64 view-IsPlain

-- A quote in the value of a LIKE ends its literal: what follows of the value is code.
open_like :
    pred_sql (to_string 10) (Predicate.contains (text "c") (text "' OR TRUE --"))
    ≡ text "\"c\" LIKE '%' OR TRUE --%' ESCAPE '\\'"
unfolding pred_sql q replace_char escape_like
open_like = refl

read_part-q_example :
    (Ends 34 (text " = 1")
      → read_part 34 (q (text "a\"b") ++ text " = 1") ≡ some (text "a\"b", text " = 1"))
    × (Ends 39 (text " = 1")
        → read_part 39 (quote_text (text "a\"b") ++ text " = 1") ≡ some (text "a\"b", text " = 1"))
read_part-q_example = read_part-q (text "a\"b") (text " = 1")
