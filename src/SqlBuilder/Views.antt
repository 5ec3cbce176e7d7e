-- ===== src/SqlBuilder/Views.antt =====
-- The queries of a view and of a tile keep names, values and the name of the file inside of quotes.
use tableverse.Prelude.{
  List, [], ◌∷◌, ◌++◌, Option, none, some, map, Text, text, text_key, ◌≟◌, ite, refl,
}
use tableverse.Prelude.Radix.{All}
use tableverse.ViewExpr.{AggExpr, ViewOp, SampleStrategy}
use tableverse.SqlBuilder.{q}
use tableverse.SqlBuilder.Query.{
  as_sql, mapping_sql, names_sql, strategy_sql, reader_expr, agg_expr_sql, seed_sql, apply_op,
  apply_ops, view_sql, tile_sql,
}
use tableverse.SqlBuilder.Lex.{
  next, after, Same, ◌⊕◌, AllSame, join-Same, map-AllSame, q-Same, quote_text-Same,
}
use tableverse.SqlBuilder.Erase.{erase_name, erase_pair, erase_agg, erase_op, IsPlainOp}
use tableverse.SqlBuilder.Safe.{fixed, IsUnquoted, show-Same, sort_keys_sql-Same, pred_sql-Same}
use tableverse.SqlBuilder.Scalar.{scalar_sql-Same}

ite-Same :
    {P : Type 0} (d : Dec P) {s t : Text} {u v : Text}
    → Same s t
    → Same u v
    → Same (ite d s u) (ite d t v)
ite-Same (yes p) h k = h
ite-Same (no p) h k = k

reader_expr-Same : (s t format : Text) → Same (reader_expr s format) (reader_expr t format)
unfolding reader_expr after next
reader_expr-Same s t format =
    ite-Same (format ≟ text "csv")
      (fixed "read_csv_auto(" refl ⊕ quote_text-Same s t ⊕ fixed ")" refl)
      (ite-Same (format ≟ text "json")
        (fixed "read_json_auto(" refl ⊕ quote_text-Same s t ⊕ fixed ")" refl)
        (ite-Same (format ≟ text "arrow")
          (fixed "read_arrow(" refl ⊕ quote_text-Same s t ⊕ fixed ")" refl)
          (fixed "read_parquet(" refl ⊕ quote_text-Same s t ⊕ fixed ")" refl)))

names_sql-Same : (xs : List Text) → Same (names_sql xs) (names_sql (map erase_name xs))
unfolding names_sql erase_name after next
names_sql-Same xs =
    join-Same (text ", ") _ _ (fixed ", " refl) (map-AllSame q erase_name xs (λ s. q-Same s []))

mapping_sql-Same : (m : Text × Text) → Same (mapping_sql m) (mapping_sql (erase_pair m))
unfolding mapping_sql erase_pair after next
mapping_sql-Same (from, to) = q-Same from [] ⊕ fixed " AS " refl ⊕ q-Same to []

as_sql-Same : (s t : Text) → Same (as_sql s) (as_sql t)
unfolding as_sql after next
as_sql-Same s t = fixed " AS " refl ⊕ q-Same s t

strategy_sql-Same : (s : SampleStrategy) → Same (strategy_sql s) (strategy_sql s)
unfolding strategy_sql after next
strategy_sql-Same SampleStrategy.bernoulli = fixed "bernoulli" refl
strategy_sql-Same SampleStrategy.system = fixed "system" refl

append-AllSame :
    (xs ys zs ws : List Text) → AllSame xs ys → AllSame zs ws → AllSame (xs ++ zs) (ys ++ ws)
append-AllSame [] [] zs ws h k = k
append-AllSame [] (y ∷ ys) zs ws h k = absurd h
append-AllSame (x ∷ xs) [] zs ws h k = absurd h
append-AllSame (x ∷ xs) (y ∷ ys) zs ws h k = (h.0, append-AllSame xs ys zs ws h.1 k)

module _ {N : Type 0} (show : N → Text) (numbers : (n : N) → IsUnquoted (show n))
    (plus_one : N → N) where
  agg_expr_sql-Same :
      (a : AggExpr N)
      → Same (agg_expr_sql show plus_one a) (agg_expr_sql show plus_one (erase_agg a))
  unfolding agg_expr_sql erase_agg after next
  agg_expr_sql-Same (AggExpr.count a) = fixed "COUNT(*)" refl ⊕ as_sql-Same a []
  agg_expr_sql-Same (AggExpr.count_distinct c a) =
      fixed "COUNT(DISTINCT " refl ⊕ q-Same c [] ⊕ fixed ")" refl ⊕ as_sql-Same a []
  agg_expr_sql-Same (AggExpr.sum c a) =
      fixed "SUM(" refl ⊕ q-Same c [] ⊕ fixed ")" refl ⊕ as_sql-Same a []
  agg_expr_sql-Same (AggExpr.min c a) =
      fixed "MIN(" refl ⊕ q-Same c [] ⊕ fixed ")" refl ⊕ as_sql-Same a []
  agg_expr_sql-Same (AggExpr.max c a) =
      fixed "MAX(" refl ⊕ q-Same c [] ⊕ fixed ")" refl ⊕ as_sql-Same a []
  agg_expr_sql-Same (AggExpr.mean c a) =
      fixed "AVG(" refl ⊕ q-Same c [] ⊕ fixed ")" refl ⊕ as_sql-Same a []
  agg_expr_sql-Same (AggExpr.median c a) =
      fixed "MEDIAN(" refl ⊕ q-Same c [] ⊕ fixed ")" refl ⊕ as_sql-Same a []
  agg_expr_sql-Same (AggExpr.std_dev c a) =
      fixed "STDDEV_SAMP(" refl ⊕ q-Same c [] ⊕ fixed ")" refl ⊕ as_sql-Same a []
  agg_expr_sql-Same (AggExpr.percentile c p a) =
      fixed "PERCENTILE_CONT(" refl
      ⊕ show-Same show numbers p
      ⊕ fixed ") WITHIN GROUP (ORDER BY " refl
      ⊕ q-Same c []
      ⊕ fixed ")" refl
      ⊕ as_sql-Same a []

  seed_sql-Same :
      (seed : Option N) → Same (seed_sql show plus_one seed) (seed_sql show plus_one seed)
  unfolding seed_sql after next
  seed_sql-Same none = fixed "" refl
  seed_sql-Same (some seed) =
      fixed " REPEATABLE (" refl ⊕ show-Same show numbers seed ⊕ fixed ")" refl

  -- Around the same inner query, but for what is quoted.
  apply_op-Same :
      (s t : Text) (op : ViewOp N)
      → IsPlainOp op
      → Same s t
      → Same (apply_op show plus_one s op) (apply_op show plus_one t (erase_op op))
  unfolding apply_op erase_op IsPlainOp after next
  apply_op-Same s t (ViewOp.filter p) h k =
      fixed "SELECT * FROM (" refl ⊕ k ⊕ fixed ") WHERE " refl ⊕ pred_sql-Same show numbers p h
  apply_op-Same s t (ViewOp.select columns) h k =
      fixed "SELECT " refl ⊕ names_sql-Same columns ⊕ fixed " FROM (" refl ⊕ k ⊕ fixed ")" refl
  apply_op-Same s t (ViewOp.drop columns) h k =
      fixed "SELECT * EXCLUDE (" refl
      ⊕ names_sql-Same columns
      ⊕ fixed ") FROM (" refl
      ⊕ k
      ⊕ fixed ")" refl
  apply_op-Same s t (ViewOp.sort keys) h k =
      fixed "SELECT * FROM (" refl ⊕ k ⊕ fixed ") ORDER BY " refl ⊕ sort_keys_sql-Same keys
  apply_op-Same s t (ViewOp.derive name e) h k =
      fixed "SELECT *, " refl
      ⊕ scalar_sql-Same show numbers plus_one e h
      ⊕ fixed " AS " refl
      ⊕ q-Same name []
      ⊕ fixed " FROM (" refl
      ⊕ k
      ⊕ fixed ")" refl
  apply_op-Same s t (ViewOp.deduplicate (some columns)) h k =
      fixed "SELECT * FROM (SELECT *, ROW_NUMBER() OVER (PARTITION BY " refl
      ⊕ names_sql-Same columns
      ⊕ fixed ") AS __tv_rn__ FROM (" refl
      ⊕ k
      ⊕ fixed ")) WHERE __tv_rn__ = 1" refl
  apply_op-Same s t (ViewOp.deduplicate none) h k =
      fixed "SELECT DISTINCT * FROM (" refl ⊕ k ⊕ fixed ")" refl
  apply_op-Same s t (ViewOp.sample n strategy seed) h k =
      fixed "SELECT * FROM (" refl
      ⊕ k
      ⊕ fixed ") USING SAMPLE " refl
      ⊕ strategy_sql-Same strategy
      ⊕ fixed "(" refl
      ⊕ show-Same show numbers n
      ⊕ fixed " ROWS)" refl
      ⊕ seed_sql-Same seed
  apply_op-Same s t (ViewOp.group_by keys aggs) h k =
      fixed "SELECT " refl
      ⊕ join-Same (text ", ") (map q keys ++ map (agg_expr_sql show plus_one) aggs) _
          (fixed ", " refl)
          (append-AllSame (map q keys) _ (map (agg_expr_sql show plus_one) aggs) _
            (map-AllSame q erase_name keys (λ c. q-Same c _))
            (map-AllSame (agg_expr_sql show plus_one) erase_agg aggs agg_expr_sql-Same))
      ⊕ fixed " FROM (" refl
      ⊕ k
      ⊕ fixed ") GROUP BY " refl
      ⊕ names_sql-Same keys
  apply_op-Same s t (ViewOp.rename mappings) h k =
      fixed "SELECT * RENAME (" refl
      ⊕ join-Same (text ", ") _ _ (fixed ", " refl)
          (map-AllSame mapping_sql erase_pair mappings mapping_sql-Same)
      ⊕ fixed ") FROM (" refl
      ⊕ k
      ⊕ fixed ")" refl
  apply_op-Same s t (ViewOp.limit n) h k =
      fixed "SELECT * FROM (" refl ⊕ k ⊕ fixed ") LIMIT " refl ⊕ show-Same show numbers n

  apply_ops-Same :
      (s t : Text) (ops : List (ViewOp N))
      → All IsPlainOp ops
      → Same s t
      → Same (apply_ops show plus_one s ops) (apply_ops show plus_one t (map erase_op ops))
  unfolding apply_ops
  apply_ops-Same s t [] h k = k
  apply_ops-Same s t (op ∷ ops) h k =
      apply_ops-Same (apply_op show plus_one s op) (apply_op show plus_one t (erase_op op)) ops h.1
        (apply_op-Same s t op h.0 k)

  -- Where numbers print without quotes and no value of a LIKE has a single quote, the query of a view
  -- closes its quotes, and what it has outside of them does not depend on the name of the file, the
  -- names in the view and its text values.
  pub view_sql-Same :
      (filename other format : Text) (ops : List (ViewOp N))
      → All IsPlainOp ops
      → Same
          (view_sql show plus_one filename ops format)
          (view_sql show plus_one other (map erase_op ops) format)
  unfolding view_sql after next
  view_sql-Same filename other format ops h =
      apply_ops-Same _ _ ops h
        (fixed "SELECT * FROM " refl ⊕ reader_expr-Same filename other format)

  -- The same of the query of a tile, whose rows it takes as numbers.
  pub tile_sql-Same :
      (filename other format : Text) (ops : List (ViewOp N)) (row rows : N)
      → All IsPlainOp ops
      → Same
          (tile_sql show plus_one filename ops row rows format)
          (tile_sql show plus_one other (map erase_op ops) row rows format)
  unfolding tile_sql after next
  tile_sql-Same filename other format [] row rows h =
      fixed "SELECT * FROM " refl
      ⊕ reader_expr-Same filename other format
      ⊕ fixed " LIMIT " refl
      ⊕ show-Same show numbers rows
      ⊕ fixed " OFFSET " refl
      ⊕ show-Same show numbers row
  tile_sql-Same filename other format (op ∷ ops) row rows h =
      fixed "SELECT * FROM (" refl
      ⊕ view_sql-Same filename other format (op ∷ ops) h
      ⊕ fixed ") LIMIT " refl
      ⊕ show-Same show numbers rows
      ⊕ fixed " OFFSET " refl
      ⊕ show-Same show numbers row
