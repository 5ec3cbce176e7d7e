-- ===== src/SqlBuilder/Query.antt =====
-- web/src/api/duckdb/sql-builder.ts: the queries of a view, of a tile, of a count and of a schema, and
-- the code that the client exports.
use tableverse.Prelude.{
  List, [], ◌∷◌, ◌++◌, Option, none, some, map, Text, text, text_key, ◌≟◌, ite,
}
use tableverse.ViewExpr.{AggExpr, ViewOp, SampleStrategy}
use tableverse.SqlBuilder.{q, join, replace_char, quote_text, pred_sql, scalar_sql, sort_keys_sql}

-- ` AS "alias"`
unfoldable pub as_sql : Text → Text
as_sql alias = text " AS " ++ q alias

unfoldable pub mapping_sql : Text × Text → Text
mapping_sql (from, to) = q from ++ text " AS " ++ q to

unfoldable pub names_sql : List Text → Text
names_sql columns = join (text ", ") (map q columns)

unfoldable pub strategy_sql : SampleStrategy → Text
strategy_sql SampleStrategy.bernoulli = text "bernoulli"
strategy_sql SampleStrategy.system = text "system"

unfoldable pub reader_expr : Text → Text → Text
reader_expr filename format =
    ite (format ≟ text "csv") (text "read_csv_auto(" ++ quote_text filename ++ text ")") (
      ite (format ≟ text "json") (text "read_json_auto(" ++ quote_text filename ++ text ")") (
        ite (format ≟ text "arrow") (text "read_arrow(" ++ quote_text filename ++ text ")")
          (text "read_parquet(" ++ quote_text filename ++ text ")")))

unfoldable pub schema_sql : Text → Text → Text
schema_sql filename format = text "DESCRIBE SELECT * FROM " ++ reader_expr filename format

module _ {N : Type 0} (show : N → Text) (plus_one : N → N) where
  unfoldable pub agg_expr_sql : AggExpr N → Text
  unfolding as_sql
  agg_expr_sql (AggExpr.count a) = text "COUNT(*)" ++ as_sql a
  agg_expr_sql (AggExpr.count_distinct c a) = text "COUNT(DISTINCT " ++ q c ++ text ")" ++ as_sql a
  agg_expr_sql (AggExpr.sum c a) = text "SUM(" ++ q c ++ text ")" ++ as_sql a
  agg_expr_sql (AggExpr.min c a) = text "MIN(" ++ q c ++ text ")" ++ as_sql a
  agg_expr_sql (AggExpr.max c a) = text "MAX(" ++ q c ++ text ")" ++ as_sql a
  agg_expr_sql (AggExpr.mean c a) = text "AVG(" ++ q c ++ text ")" ++ as_sql a
  agg_expr_sql (AggExpr.median c a) = text "MEDIAN(" ++ q c ++ text ")" ++ as_sql a
  agg_expr_sql (AggExpr.std_dev c a) = text "STDDEV_SAMP(" ++ q c ++ text ")" ++ as_sql a
  agg_expr_sql (AggExpr.percentile c p a) =
      text "PERCENTILE_CONT("
      ++ show p
      ++ text ") WITHIN GROUP (ORDER BY "
      ++ q c
      ++ text ")"
      ++ as_sql a

  unfoldable pub seed_sql : Option N → Text
  seed_sql none = []
  seed_sql (some seed) = text " REPEATABLE (" ++ show seed ++ text ")"

  unfoldable pub apply_op : Text → ViewOp N → Text
  unfolding agg_expr_sql seed_sql
  apply_op inner (ViewOp.filter p) =
      text "SELECT * FROM (" ++ inner ++ text ") WHERE " ++ pred_sql show p
  apply_op inner (ViewOp.select columns) =
      text "SELECT " ++ names_sql columns ++ text " FROM (" ++ inner ++ text ")"
  apply_op inner (ViewOp.drop columns) =
      text "SELECT * EXCLUDE (" ++ names_sql columns ++ text ") FROM (" ++ inner ++ text ")"
  apply_op inner (ViewOp.sort keys) =
      text "SELECT * FROM (" ++ inner ++ text ") ORDER BY " ++ sort_keys_sql keys
  apply_op inner (ViewOp.derive name e) =
      text "SELECT *, "
      ++ scalar_sql show plus_one e
      ++ text " AS "
      ++ q name
      ++ text " FROM ("
      ++ inner
      ++ text ")"
  apply_op inner (ViewOp.deduplicate (some columns)) =
      text "SELECT * FROM (SELECT *, ROW_NUMBER() OVER (PARTITION BY "
      ++ names_sql columns
      ++ text ") AS __tv_rn__ FROM ("
      ++ inner
      ++ text ")) WHERE __tv_rn__ = 1"
  apply_op inner (ViewOp.deduplicate none) = text "SELECT DISTINCT * FROM (" ++ inner ++ text ")"
  apply_op inner (ViewOp.sample n strategy seed) =
      text "SELECT * FROM ("
      ++ inner
      ++ text ") USING SAMPLE "
      ++ strategy_sql strategy
      ++ text "("
      ++ show n
      ++ text " ROWS)"
      ++ seed_sql seed
  apply_op inner (ViewOp.group_by keys aggs) =
      text "SELECT "
      ++ join (text ", ") (map q keys ++ map agg_expr_sql aggs)
      ++ text " FROM ("
      ++ inner
      ++ text ") GROUP BY "
      ++ names_sql keys
  apply_op inner (ViewOp.rename mappings) =
      text "SELECT * RENAME ("
      ++ join (text ", ") (map mapping_sql mappings)
      ++ text ") FROM ("
      ++ inner
      ++ text ")"
  apply_op inner (ViewOp.limit n) = text "SELECT * FROM (" ++ inner ++ text ") LIMIT " ++ show n

  -- The loop of `buildViewSql`.
  unfoldable pub apply_ops : Text → List (ViewOp N) → Text
  unfolding apply_op
  apply_ops sql [] = sql
  apply_ops sql (op ∷ ops) = apply_ops (apply_op sql op) ops

  unfoldable pub view_sql : Text → List (ViewOp N) → Text → Text
  unfolding apply_ops
  view_sql filename ops format =
      apply_ops (text "SELECT * FROM " ++ reader_expr filename format) ops

  unfoldable pub tile_sql : Text → List (ViewOp N) → N → N → Text → Text
  unfolding view_sql
  tile_sql filename [] row rows format =
      text "SELECT * FROM "
      ++ reader_expr filename format
      ++ text " LIMIT "
      ++ show rows
      ++ text " OFFSET "
      ++ show row
  tile_sql filename (op ∷ ops) row rows format =
      text "SELECT * FROM ("
      ++ view_sql filename (op ∷ ops) format
      ++ text ") LIMIT "
      ++ show rows
      ++ text " OFFSET "
      ++ show row

  unfoldable pub count_sql : Text → List (ViewOp N) → Text → Text
  unfolding view_sql
  count_sql filename [] format = text "SELECT COUNT(*) AS n FROM " ++ reader_expr filename format
  count_sql filename (op ∷ ops) format =
      text "SELECT COUNT(*) AS n FROM (" ++ view_sql filename (op ∷ ops) format ++ text ")"

  -- `buildExportCode`, which reads the source as Parquet whatever its format is.
  unfoldable pub export_code : Text → List (ViewOp N) → Text → Text
  unfolding view_sql
  export_code filename ops format =
      let sql = view_sql filename ops (text "parquet") in
      let escaped = replace_char 34 (92 ∷ 34 ∷ []) sql in
      let plain = sql ++ text ";" in
      let duckdb = text "import duckdb\ndf = duckdb.sql(\"\"\"\n" ++ sql ++ text "\n\"\"\").df()" in
      let polars =
        text "import polars as pl\ndf = pl.read_database(\n    \""
        ++ escaped
        ++ text "\",\n    connection=duckdb.connect(),\n)" in
      let shell = text "duckdb -c \"" ++ escaped ++ text "\"" in
      ite (format ≟ text "sql") plain (
        ite (format ≟ text "ansi_sql") plain (
          ite (format ≟ text "python_duckdb") duckdb (
            ite (format ≟ text "python_polars") polars (
              ite (format ≟ text "python_pandas") duckdb (
                ite (format ≟ text "shell") shell (ite (format ≟ text "shell_csv") shell plain))))))
