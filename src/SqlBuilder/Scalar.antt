-- ===== src/SqlBuilder/Scalar.antt =====
-- The SQL of scalar expressions keeps names and values inside of quotes.
use Prim.Native.String.{String}
use tableverse.Prelude.{◌≡◌, refl, [], Text, text}
use tableverse.ViewExpr.{ScalarExpr, ScalarExprs, Whens, BinOp, DataType}
use tableverse.SqlBuilder.{bin_op_sql, data_type_sql, call, scalar_sql, scalars_sql, whens_sql}
use tableverse.SqlBuilder.Lex.{code, next, after, Same, ◌⊕◌, AllSame, join-Same, q-Same}
use tableverse.SqlBuilder.Erase.{
  erase_scalar, erase_scalars, erase_whens, IsPlainScalar, ArePlainScalars, ArePlainWhens,
}
use tableverse.SqlBuilder.Safe.{
  fixed, IsUnquoted, show-Same, lit_sql-Same, sort_keys_sql-Same, pred_sql-Same,
}

bin_op_sql-Same : (op : BinOp) → Same (bin_op_sql op) (bin_op_sql op)
unfolding bin_op_sql after next
bin_op_sql-Same BinOp.add = fixed "+" refl
bin_op_sql-Same BinOp.sub = fixed "-" refl
bin_op_sql-Same BinOp.mul = fixed "*" refl
bin_op_sql-Same BinOp.div = fixed "/" refl
bin_op_sql-Same BinOp.modulo = fixed "%" refl

data_type_sql-Same : (t : DataType) → Same (data_type_sql t) (data_type_sql t)
unfolding data_type_sql after next
data_type_sql-Same DataType.int32 = fixed "INTEGER" refl
data_type_sql-Same DataType.int64 = fixed "BIGINT" refl
data_type_sql-Same DataType.float32 = fixed "FLOAT" refl
data_type_sql-Same DataType.float64 = fixed "DOUBLE" refl
data_type_sql-Same DataType.text = fixed "VARCHAR" refl
data_type_sql-Same DataType.boolean = fixed "BOOLEAN" refl
data_type_sql-Same DataType.date = fixed "DATE" refl
data_type_sql-Same DataType.timestamp = fixed "TIMESTAMP" refl

call-Same :
    {s t : Text} (f : String)
    → after code (text f) ≡ code
    → Same s t
    → Same (call (text f) s) (call (text f) t)
unfolding call after next
call-Same f h k = fixed f h ⊕ fixed "(" refl ⊕ k ⊕ fixed ")" refl

-- Numbers print without quotes.
module _ {N : Type 0} (show : N → Text) (numbers : (n : N) → IsUnquoted (show n))
    (plus_one : N → N) where
  mutual
    unfolding scalar_sql scalars_sql whens_sql erase_scalar erase_scalars erase_whens IsPlainScalar
        ArePlainScalars ArePlainWhens after next

    pub scalar_sql-Same :
        (e : ScalarExpr N)
        → IsPlainScalar e
        → Same (scalar_sql show plus_one e) (scalar_sql show plus_one (erase_scalar e))
    scalar_sql-Same (ScalarExpr.column c) h = q-Same c []
    scalar_sql-Same (ScalarExpr.literal v) h = lit_sql-Same show numbers v
    scalar_sql-Same (ScalarExpr.bin_op op l r) h =
        fixed "(" refl
        ⊕ scalar_sql-Same l h.0
        ⊕ fixed " " refl
        ⊕ bin_op_sql-Same op
        ⊕ fixed " " refl
        ⊕ scalar_sql-Same r h.1
        ⊕ fixed ")" refl
    scalar_sql-Same (ScalarExpr.abs e) h = call-Same "ABS" refl (scalar_sql-Same e h)
    scalar_sql-Same (ScalarExpr.floor e) h = call-Same "FLOOR" refl (scalar_sql-Same e h)
    scalar_sql-Same (ScalarExpr.ceil e) h = call-Same "CEIL" refl (scalar_sql-Same e h)
    scalar_sql-Same (ScalarExpr.upper e) h = call-Same "UPPER" refl (scalar_sql-Same e h)
    scalar_sql-Same (ScalarExpr.lower e) h = call-Same "LOWER" refl (scalar_sql-Same e h)
    scalar_sql-Same (ScalarExpr.trim e) h = call-Same "TRIM" refl (scalar_sql-Same e h)
    scalar_sql-Same (ScalarExpr.length e) h = call-Same "LENGTH" refl (scalar_sql-Same e h)
    scalar_sql-Same (ScalarExpr.year e) h = call-Same "YEAR" refl (scalar_sql-Same e h)
    scalar_sql-Same (ScalarExpr.month e) h = call-Same "MONTH" refl (scalar_sql-Same e h)
    scalar_sql-Same (ScalarExpr.day e) h = call-Same "DAY" refl (scalar_sql-Same e h)
    scalar_sql-Same (ScalarExpr.round e n) h =
        fixed "ROUND(" refl
        ⊕ scalar_sql-Same e h
        ⊕ fixed ", " refl
        ⊕ show-Same show numbers n
        ⊕ fixed ")" refl
    scalar_sql-Same (ScalarExpr.substr_to e n len) h =
        fixed "SUBSTRING(" refl
        ⊕ scalar_sql-Same e h
        ⊕ fixed ", " refl
        ⊕ show-Same show numbers (plus_one n)
        ⊕ fixed ", " refl
        ⊕ show-Same show numbers len
        ⊕ fixed ")" refl
    scalar_sql-Same (ScalarExpr.substr_from e n) h =
        fixed "SUBSTRING(" refl
        ⊕ scalar_sql-Same e h
        ⊕ fixed ", " refl
        ⊕ show-Same show numbers (plus_one n)
        ⊕ fixed ")" refl
    scalar_sql-Same (ScalarExpr.concat es) h = call-Same "CONCAT" refl (
        join-Same (text ", ") (scalars_sql show plus_one es) _ (fixed ", " refl)
          (scalars_sql-Same es h))
    scalar_sql-Same (ScalarExpr.coalesce es) h = call-Same "COALESCE" refl (
        join-Same (text ", ") (scalars_sql show plus_one es) _ (fixed ", " refl)
          (scalars_sql-Same es h))
    scalar_sql-Same (ScalarExpr.cast e t) h =
        fixed "CAST(" refl
        ⊕ scalar_sql-Same e h
        ⊕ fixed " AS " refl
        ⊕ data_type_sql-Same t
        ⊕ fixed ")" refl
    scalar_sql-Same (ScalarExpr.case_else ws e) h =
        fixed "CASE " refl
        ⊕ join-Same (text " ") (whens_sql show plus_one ws) _ (fixed " " refl)
            (whens_sql-Same ws h.0)
        ⊕ fixed " ELSE " refl
        ⊕ scalar_sql-Same e h.1
        ⊕ fixed " END" refl
    scalar_sql-Same (ScalarExpr.case_only ws) h =
        fixed "CASE " refl
        ⊕ join-Same (text " ") (whens_sql show plus_one ws) _ (fixed " " refl) (whens_sql-Same ws h)
        ⊕ fixed " END" refl
    scalar_sql-Same (ScalarExpr.rank keys) h =
        fixed "ROW_NUMBER() OVER (ORDER BY " refl ⊕ sort_keys_sql-Same keys ⊕ fixed ")" refl
    scalar_sql-Same (ScalarExpr.n_tile n) h =
        fixed "NTILE(" refl ⊕ show-Same show numbers n ⊕ fixed ") OVER ()" refl

    scalars_sql-Same :
        (es : ScalarExprs N)
        → ArePlainScalars es
        → AllSame (scalars_sql show plus_one es) (scalars_sql show plus_one (erase_scalars es))
    scalars_sql-Same ScalarExprs.nil h = tt
    scalars_sql-Same (ScalarExprs.cons e es) h = (scalar_sql-Same e h.0, scalars_sql-Same es h.1)

    whens_sql-Same :
        (ws : Whens N)
        → ArePlainWhens ws
        → AllSame (whens_sql show plus_one ws) (whens_sql show plus_one (erase_whens ws))
    whens_sql-Same Whens.otherwise h = tt
    whens_sql-Same (Whens.when p e ws) h = (
      fixed "WHEN " refl
          ⊕ pred_sql-Same show numbers p h.0
          ⊕ fixed " THEN " refl
          ⊕ scalar_sql-Same e h.1,
      whens_sql-Same ws h.2,
    )
