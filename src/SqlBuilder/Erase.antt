-- ===== src/SqlBuilder/Erase.antt =====
-- A predicate, an expression and a view with every name and text value erased, and the values of LIKE
-- that have no single quote.
use tableverse.Prelude.{◌≢◌, [], none, some, map, Text}
use tableverse.Prelude.Radix.{All}
use tableverse.ViewExpr.{
  Literal, Predicate, Predicates, ScalarExpr, ScalarExprs, Whens, SortKey, AggExpr, ViewOp,
}

abbrev pub HasNoQuote : Text → Type 0
HasNoQuote s = All (λ c. 39 ≢ c) s

unfoldable pub erase_name : Text → Text
erase_name s = []

unfoldable pub erase_key : SortKey → SortKey
erase_key k = record k { column = [] }

unfoldable pub erase_pair : Text × Text → Text × Text
erase_pair (s, t) = ([], [])

unfoldable pub erase_literal : {N : Type 0} → Literal N → Literal N
erase_literal (Literal.string s) = Literal.string []
erase_literal v = v

unfoldable mutual
  pub erase_pred : {N : Type 0} → Predicate N → Predicate N
  erase_pred (Predicate.eq c v) = Predicate.eq [] (erase_literal v)
  erase_pred (Predicate.ne c v) = Predicate.ne [] (erase_literal v)
  erase_pred (Predicate.gt c v) = Predicate.gt [] (erase_literal v)
  erase_pred (Predicate.gte c v) = Predicate.gte [] (erase_literal v)
  erase_pred (Predicate.lt c v) = Predicate.lt [] (erase_literal v)
  erase_pred (Predicate.lte c v) = Predicate.lte [] (erase_literal v)
  erase_pred (Predicate.between c lo hi) =
      Predicate.between [] (erase_literal lo) (erase_literal hi)
  erase_pred (Predicate.in_values c vs) = Predicate.in_values [] (map erase_literal vs)
  erase_pred (Predicate.not_in c vs) = Predicate.not_in [] (map erase_literal vs)
  erase_pred (Predicate.contains c v) = Predicate.contains [] []
  erase_pred (Predicate.starts_with c v) = Predicate.starts_with [] []
  erase_pred (Predicate.ends_with c v) = Predicate.ends_with [] []
  erase_pred (Predicate.regex c pattern) = Predicate.regex [] []
  erase_pred (Predicate.is_null c) = Predicate.is_null []
  erase_pred (Predicate.is_not_null c) = Predicate.is_not_null []
  erase_pred (Predicate.and ps) = Predicate.and (erase_preds ps)
  erase_pred (Predicate.or ps) = Predicate.or (erase_preds ps)
  erase_pred (Predicate.not p) = Predicate.not (erase_pred p)

  pub erase_preds : {N : Type 0} → Predicates N → Predicates N
  erase_preds Predicates.nil = Predicates.nil
  erase_preds (Predicates.cons p ps) = Predicates.cons (erase_pred p) (erase_preds ps)

unfoldable mutual
  pub IsPlain : {N : Type 0} → Predicate N → Type 0
  IsPlain (Predicate.contains c v) = HasNoQuote v
  IsPlain (Predicate.starts_with c v) = HasNoQuote v
  IsPlain (Predicate.ends_with c v) = HasNoQuote v
  IsPlain (Predicate.and ps) = ArePlain ps
  IsPlain (Predicate.or ps) = ArePlain ps
  IsPlain (Predicate.not p) = IsPlain p
  IsPlain p = Unit

  pub ArePlain : {N : Type 0} → Predicates N → Type 0
  ArePlain Predicates.nil = Unit
  ArePlain (Predicates.cons p ps) = IsPlain p × ArePlain ps

unfoldable mutual
  pub erase_scalar : {N : Type 0} → ScalarExpr N → ScalarExpr N
  erase_scalar (ScalarExpr.column c) = ScalarExpr.column []
  erase_scalar (ScalarExpr.literal v) = ScalarExpr.literal (erase_literal v)
  erase_scalar (ScalarExpr.bin_op op l r) = ScalarExpr.bin_op op (erase_scalar l) (erase_scalar r)
  erase_scalar (ScalarExpr.abs e) = ScalarExpr.abs (erase_scalar e)
  erase_scalar (ScalarExpr.round e n) = ScalarExpr.round (erase_scalar e) n
  erase_scalar (ScalarExpr.floor e) = ScalarExpr.floor (erase_scalar e)
  erase_scalar (ScalarExpr.ceil e) = ScalarExpr.ceil (erase_scalar e)
  erase_scalar (ScalarExpr.upper e) = ScalarExpr.upper (erase_scalar e)
  erase_scalar (ScalarExpr.lower e) = ScalarExpr.lower (erase_scalar e)
  erase_scalar (ScalarExpr.trim e) = ScalarExpr.trim (erase_scalar e)
  erase_scalar (ScalarExpr.length e) = ScalarExpr.length (erase_scalar e)
  erase_scalar (ScalarExpr.year e) = ScalarExpr.year (erase_scalar e)
  erase_scalar (ScalarExpr.month e) = ScalarExpr.month (erase_scalar e)
  erase_scalar (ScalarExpr.day e) = ScalarExpr.day (erase_scalar e)
  erase_scalar (ScalarExpr.substr_to e n len) = ScalarExpr.substr_to (erase_scalar e) n len
  erase_scalar (ScalarExpr.substr_from e n) = ScalarExpr.substr_from (erase_scalar e) n
  erase_scalar (ScalarExpr.concat es) = ScalarExpr.concat (erase_scalars es)
  erase_scalar (ScalarExpr.coalesce es) = ScalarExpr.coalesce (erase_scalars es)
  erase_scalar (ScalarExpr.case_else ws e) = ScalarExpr.case_else (erase_whens ws) (erase_scalar e)
  erase_scalar (ScalarExpr.case_only ws) = ScalarExpr.case_only (erase_whens ws)
  erase_scalar (ScalarExpr.rank keys) = ScalarExpr.rank (map erase_key keys)
  erase_scalar (ScalarExpr.n_tile n) = ScalarExpr.n_tile n
  erase_scalar (ScalarExpr.cast e t) = ScalarExpr.cast (erase_scalar e) t

  pub erase_scalars : {N : Type 0} → ScalarExprs N → ScalarExprs N
  erase_scalars ScalarExprs.nil = ScalarExprs.nil
  erase_scalars (ScalarExprs.cons e es) = ScalarExprs.cons (erase_scalar e) (erase_scalars es)

  pub erase_whens : {N : Type 0} → Whens N → Whens N
  erase_whens Whens.otherwise = Whens.otherwise
  erase_whens (Whens.when p e ws) = Whens.when (erase_pred p) (erase_scalar e) (erase_whens ws)

unfoldable mutual
  pub IsPlainScalar : {N : Type 0} → ScalarExpr N → Type 0
  IsPlainScalar (ScalarExpr.column c) = Unit
  IsPlainScalar (ScalarExpr.literal v) = Unit
  IsPlainScalar (ScalarExpr.bin_op op l r) = IsPlainScalar l × IsPlainScalar r
  IsPlainScalar (ScalarExpr.abs e) = IsPlainScalar e
  IsPlainScalar (ScalarExpr.round e n) = IsPlainScalar e
  IsPlainScalar (ScalarExpr.floor e) = IsPlainScalar e
  IsPlainScalar (ScalarExpr.ceil e) = IsPlainScalar e
  IsPlainScalar (ScalarExpr.upper e) = IsPlainScalar e
  IsPlainScalar (ScalarExpr.lower e) = IsPlainScalar e
  IsPlainScalar (ScalarExpr.trim e) = IsPlainScalar e
  IsPlainScalar (ScalarExpr.length e) = IsPlainScalar e
  IsPlainScalar (ScalarExpr.year e) = IsPlainScalar e
  IsPlainScalar (ScalarExpr.month e) = IsPlainScalar e
  IsPlainScalar (ScalarExpr.day e) = IsPlainScalar e
  IsPlainScalar (ScalarExpr.substr_to e n len) = IsPlainScalar e
  IsPlainScalar (ScalarExpr.substr_from e n) = IsPlainScalar e
  IsPlainScalar (ScalarExpr.concat es) = ArePlainScalars es
  IsPlainScalar (ScalarExpr.coalesce es) = ArePlainScalars es
  IsPlainScalar (ScalarExpr.case_else ws e) = ArePlainWhens ws × IsPlainScalar e
  IsPlainScalar (ScalarExpr.case_only ws) = ArePlainWhens ws
  IsPlainScalar (ScalarExpr.rank keys) = Unit
  IsPlainScalar (ScalarExpr.n_tile n) = Unit
  IsPlainScalar (ScalarExpr.cast e t) = IsPlainScalar e

  pub ArePlainScalars : {N : Type 0} → ScalarExprs N → Type 0
  ArePlainScalars ScalarExprs.nil = Unit
  ArePlainScalars (ScalarExprs.cons e es) = IsPlainScalar e × ArePlainScalars es

  pub ArePlainWhens : {N : Type 0} → Whens N → Type 0
  ArePlainWhens Whens.otherwise = Unit
  ArePlainWhens (Whens.when p e ws) = IsPlain p × IsPlainScalar e × ArePlainWhens ws

module _ {N : Type 0} where
  unfoldable pub erase_agg : AggExpr N → AggExpr N
  erase_agg (AggExpr.count a) = AggExpr.count []
  erase_agg (AggExpr.count_distinct c a) = AggExpr.count_distinct [] []
  erase_agg (AggExpr.sum c a) = AggExpr.sum [] []
  erase_agg (AggExpr.min c a) = AggExpr.min [] []
  erase_agg (AggExpr.max c a) = AggExpr.max [] []
  erase_agg (AggExpr.mean c a) = AggExpr.mean [] []
  erase_agg (AggExpr.median c a) = AggExpr.median [] []
  erase_agg (AggExpr.std_dev c a) = AggExpr.std_dev [] []
  erase_agg (AggExpr.percentile c p a) = AggExpr.percentile [] p []

  unfoldable pub erase_op : ViewOp N → ViewOp N
  unfolding erase_agg
  erase_op (ViewOp.filter p) = ViewOp.filter (erase_pred p)
  erase_op (ViewOp.select columns) = ViewOp.select (map erase_name columns)
  erase_op (ViewOp.drop columns) = ViewOp.drop (map erase_name columns)
  erase_op (ViewOp.sort keys) = ViewOp.sort (map erase_key keys)
  erase_op (ViewOp.derive name e) = ViewOp.derive [] (erase_scalar e)
  erase_op (ViewOp.deduplicate (some columns)) = ViewOp.deduplicate (some (map erase_name columns))
  erase_op (ViewOp.deduplicate none) = ViewOp.deduplicate none
  erase_op (ViewOp.sample n strategy seed) = ViewOp.sample n strategy seed
  erase_op (ViewOp.group_by keys aggs) = ViewOp.group_by (map erase_name keys) (map erase_agg aggs)
  erase_op (ViewOp.rename mappings) = ViewOp.rename (map erase_pair mappings)
  erase_op (ViewOp.limit n) = ViewOp.limit n

  unfoldable pub IsPlainOp : ViewOp N → Type 0
  IsPlainOp (ViewOp.filter p) = IsPlain p
  IsPlainOp (ViewOp.derive name e) = IsPlainScalar e
  IsPlainOp op = Unit
