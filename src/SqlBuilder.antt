-- ===== src/SqlBuilder.antt =====
-- web/src/api/duckdb/sql-builder.ts: the SQL text of predicates and scalar expressions. `show` is
-- `String` on numbers, `plus_one` is `+ 1`.
pub mod Query
pub mod Lex
pub mod Erase
pub mod Safe
pub mod Scalar
pub mod Views
pub mod Quote
use tableverse.Prelude.{
  ℕ, List, [], ◌∷◌, ◌++◌, Bool, true, false, map, Text, text, ◌==◌, if◌then◌else◌,
}
use tableverse.ViewExpr.{
  Literal, Predicate, Predicates, ScalarExpr, ScalarExprs, Whens, SortKey, BinOp, DataType,
}

-- `s.replace(/c/g, new)` for one code unit `c`.
unfoldable pub replace_char : ℕ → Text → Text → Text
replace_char c new [] = []
replace_char c new (x ∷ s) =
    let rest = replace_char c new s in if x == c then new ++ rest else x ∷ rest

-- `parts.join(separator)`
unfoldable pub join : Text → List Text → Text
join separator [] = []
join separator (x ∷ []) = x
join separator (x ∷ y ∷ xs) = x ++ separator ++ join separator (y ∷ xs)

unfoldable pub q : Text → Text
q ident = 34 ∷ replace_char 34 (34 ∷ 34 ∷ []) ident ++ 34 ∷ []

-- A text between single quotes, its own doubled.
unfoldable pub quote_text : Text → Text
quote_text s = 39 ∷ replace_char 39 (39 ∷ 39 ∷ []) s ++ 39 ∷ []

unfoldable pub escape_like : Text → Text
escape_like [] = []
escape_like (c ∷ s) =
    let rest = escape_like s in
    if c == 92
    then 92 ∷ c ∷ rest
    else if c == 37
    then 92 ∷ c ∷ rest
    else if c == 95
    then 92 ∷ c ∷ rest
    else c ∷ rest

unfoldable pub bin_op_sql : BinOp → Text
bin_op_sql BinOp.add = text "+"
bin_op_sql BinOp.sub = text "-"
bin_op_sql BinOp.mul = text "*"
bin_op_sql BinOp.div = text "/"
bin_op_sql BinOp.modulo = text "%"

unfoldable pub data_type_sql : DataType → Text
data_type_sql DataType.int32 = text "INTEGER"
data_type_sql DataType.int64 = text "BIGINT"
data_type_sql DataType.float32 = text "FLOAT"
data_type_sql DataType.float64 = text "DOUBLE"
data_type_sql DataType.text = text "VARCHAR"
data_type_sql DataType.boolean = text "BOOLEAN"
data_type_sql DataType.date = text "DATE"
data_type_sql DataType.timestamp = text "TIMESTAMP"

unfoldable pub sort_key_sql : SortKey → Text
sort_key_sql k =
    q k.column
    ++ text " "
    ++ (if k.descending then text "DESC" else text "ASC")
    ++ text " NULLS "
    ++ (if k.nulls_last then text "LAST" else text "FIRST")

unfoldable pub sort_keys_sql : List SortKey → Text
sort_keys_sql keys = join (text ", ") (map sort_key_sql keys)

module _ {N : Type 0} (show : N → Text) where
  unfoldable pub lit_sql : Literal N → Text
  lit_sql Literal.null = text "NULL"
  lit_sql (Literal.boolean b) = if b then text "TRUE" else text "FALSE"
  lit_sql (Literal.number n) = show n
  lit_sql (Literal.string s) = quote_text s

  unfoldable mutual
    unfolding lit_sql

    pub pred_sql : Predicate N → Text
    pred_sql (Predicate.eq c v) = q c ++ text " = " ++ lit_sql v
    pred_sql (Predicate.ne c v) = q c ++ text " != " ++ lit_sql v
    pred_sql (Predicate.gt c v) = q c ++ text " > " ++ lit_sql v
    pred_sql (Predicate.gte c v) = q c ++ text " >= " ++ lit_sql v
    pred_sql (Predicate.lt c v) = q c ++ text " < " ++ lit_sql v
    pred_sql (Predicate.lte c v) = q c ++ text " <= " ++ lit_sql v
    pred_sql (Predicate.between c lo hi) =
        q c ++ text " BETWEEN " ++ lit_sql lo ++ text " AND " ++ lit_sql hi
    pred_sql (Predicate.in_values c vs) =
        q c ++ text " IN (" ++ join (text ", ") (map lit_sql vs) ++ text ")"
    pred_sql (Predicate.not_in c vs) =
        q c ++ text " NOT IN (" ++ join (text ", ") (map lit_sql vs) ++ text ")"
    pred_sql (Predicate.contains c v) =
        q c ++ text " LIKE '%" ++ escape_like v ++ text "%' ESCAPE '\\'"
    pred_sql (Predicate.starts_with c v) =
        q c ++ text " LIKE '" ++ escape_like v ++ text "%' ESCAPE '\\'"
    pred_sql (Predicate.ends_with c v) =
        q c ++ text " LIKE '%" ++ escape_like v ++ text "' ESCAPE '\\'"
    pred_sql (Predicate.regex c pattern) =
        text "regexp_like(" ++ q c ++ text ", " ++ quote_text pattern ++ text ")"
    pred_sql (Predicate.is_null c) = q c ++ text " IS NULL"
    pred_sql (Predicate.is_not_null c) = q c ++ text " IS NOT NULL"
    pred_sql (Predicate.and ps) = text "(" ++ join (text " AND ") (preds_sql ps) ++ text ")"
    pred_sql (Predicate.or ps) = text "(" ++ join (text " OR ") (preds_sql ps) ++ text ")"
    pred_sql (Predicate.not p) = text "NOT (" ++ pred_sql p ++ text ")"

    pub preds_sql : Predicates N → List Text
    preds_sql Predicates.nil = []
    preds_sql (Predicates.cons p ps) = pred_sql p ∷ preds_sql ps

-- A function of one argument.
unfoldable pub call : Text → Text → Text
call f s = f ++ text "(" ++ s ++ text ")"

module _ {N : Type 0} (show : N → Text) (plus_one : N → N) where
  unfoldable mutual
    unfolding call

    pub scalar_sql : ScalarExpr N → Text
    scalar_sql (ScalarExpr.column c) = q c
    scalar_sql (ScalarExpr.literal v) = lit_sql show v
    scalar_sql (ScalarExpr.bin_op op l r) =
        text "("
        ++ scalar_sql l
        ++ text " "
        ++ bin_op_sql op
        ++ text " "
        ++ scalar_sql r
        ++ text ")"
    scalar_sql (ScalarExpr.abs e) = call (text "ABS") (scalar_sql e)
    scalar_sql (ScalarExpr.round e decimals) =
        text "ROUND(" ++ scalar_sql e ++ text ", " ++ show decimals ++ text ")"
    scalar_sql (ScalarExpr.floor e) = call (text "FLOOR") (scalar_sql e)
    scalar_sql (ScalarExpr.ceil e) = call (text "CEIL") (scalar_sql e)
    scalar_sql (ScalarExpr.upper e) = call (text "UPPER") (scalar_sql e)
    scalar_sql (ScalarExpr.lower e) = call (text "LOWER") (scalar_sql e)
    scalar_sql (ScalarExpr.trim e) = call (text "TRIM") (scalar_sql e)
    scalar_sql (ScalarExpr.length e) = call (text "LENGTH") (scalar_sql e)
    scalar_sql (ScalarExpr.substr_to e start len) =
        text "SUBSTRING("
        ++ scalar_sql e
        ++ text ", "
        ++ show (plus_one start)
        ++ text ", "
        ++ show len
        ++ text ")"
    scalar_sql (ScalarExpr.substr_from e start) =
        text "SUBSTRING(" ++ scalar_sql e ++ text ", " ++ show (plus_one start) ++ text ")"
    scalar_sql (ScalarExpr.concat es) = call (text "CONCAT") (join (text ", ") (scalars_sql es))
    scalar_sql (ScalarExpr.year e) = call (text "YEAR") (scalar_sql e)
    scalar_sql (ScalarExpr.month e) = call (text "MONTH") (scalar_sql e)
    scalar_sql (ScalarExpr.day e) = call (text "DAY") (scalar_sql e)
    scalar_sql (ScalarExpr.coalesce es) = call (text "COALESCE") (join (text ", ") (scalars_sql es))
    scalar_sql (ScalarExpr.cast e t) =
        text "CAST(" ++ scalar_sql e ++ text " AS " ++ data_type_sql t ++ text ")"
    scalar_sql (ScalarExpr.case_else ws e) =
        text "CASE "
        ++ join (text " ") (whens_sql ws)
        ++ text " ELSE "
        ++ scalar_sql e
        ++ text " END"
    scalar_sql (ScalarExpr.case_only ws) =
        text "CASE " ++ join (text " ") (whens_sql ws) ++ text " END"
    scalar_sql (ScalarExpr.rank keys) =
        text "ROW_NUMBER() OVER (ORDER BY " ++ sort_keys_sql keys ++ text ")"
    scalar_sql (ScalarExpr.n_tile n) = text "NTILE(" ++ show n ++ text ") OVER ()"

    pub scalars_sql : ScalarExprs N → List Text
    scalars_sql ScalarExprs.nil = []
    scalars_sql (ScalarExprs.cons e es) = scalar_sql e ∷ scalars_sql es

    pub whens_sql : Whens N → List Text
    whens_sql Whens.otherwise = []
    whens_sql (Whens.when p e ws) =
        (text "WHEN " ++ pred_sql show p ++ text " THEN " ++ scalar_sql e) ∷ whens_sql ws
