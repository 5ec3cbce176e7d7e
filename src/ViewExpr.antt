-- ===== src/ViewExpr.antt =====
-- web/src/lib/viewExpr.ts: predicates, scalar expressions and the operations of a view. `N` is the
-- type of JavaScript numbers. A list of predicates or expressions is a type of its block.
pub mod Labels
use tableverse.Prelude.{Bool, List, [], ◌∷◌, ◌++◌, Option, none, some, Text}

pub data Literal (N : Type 0) : Type 0 where
  null : Literal N
  boolean : Bool → Literal N
  number : N → Literal N
  string : Text → Literal N

mutual
  pub data Predicate (N : Type 0) : Type 0 where
    eq ne gt gte lt lte : Text → Literal N → Predicate N
    between : Text → Literal N → Literal N → Predicate N
    in_values not_in : Text → List (Literal N) → Predicate N
    contains starts_with ends_with regex : Text → Text → Predicate N
    is_null is_not_null : Text → Predicate N
    and or : Predicates N → Predicate N
    not : Predicate N → Predicate N

  pub data Predicates (N : Type 0) : Type 0 where
    nil : Predicates N
    cons : Predicate N → Predicates N → Predicates N

pub record SortKey : Type 0 where
  pub column : Text
  pub descending : Bool
  pub nulls_last : Bool

pub data SampleStrategy : Type 0 where
  bernoulli system : SampleStrategy

pub data BinOp : Type 0 where
  add sub mul div modulo : BinOp

pub data DataType : Type 0 where
  int32 int64 float32 float64 text boolean date timestamp : DataType

mutual
  pub data ScalarExpr (N : Type 0) : Type 0 where
    column : Text → ScalarExpr N
    literal : Literal N → ScalarExpr N
    bin_op : BinOp → ScalarExpr N → ScalarExpr N → ScalarExpr N
    abs floor ceil upper lower trim length year month day : ScalarExpr N → ScalarExpr N
    round : ScalarExpr N → N → ScalarExpr N
    substr_to : ScalarExpr N → N → N → ScalarExpr N
    substr_from : ScalarExpr N → N → ScalarExpr N
    concat coalesce : ScalarExprs N → ScalarExpr N
    case_else : Whens N → ScalarExpr N → ScalarExpr N
    case_only : Whens N → ScalarExpr N
    rank : List SortKey → ScalarExpr N
    n_tile : N → ScalarExpr N
    cast : ScalarExpr N → DataType → ScalarExpr N

  pub data ScalarExprs (N : Type 0) : Type 0 where
    nil : ScalarExprs N
    cons : ScalarExpr N → ScalarExprs N → ScalarExprs N

  pub data Whens (N : Type 0) : Type 0 where
    otherwise : Whens N
    when : Predicate N → ScalarExpr N → Whens N → Whens N

pub data AggExpr (N : Type 0) : Type 0 where
  count : Text → AggExpr N
  count_distinct sum min max mean median std_dev : Text → Text → AggExpr N
  percentile : Text → N → Text → AggExpr N

pub data ViewOp (N : Type 0) : Type 0 where
  filter : Predicate N → ViewOp N
  select drop : List Text → ViewOp N
  sort : List SortKey → ViewOp N
  derive : Text → ScalarExpr N → ViewOp N
  deduplicate : Option (List Text) → ViewOp N
  sample : N → SampleStrategy → Option N → ViewOp N
  group_by : List Text → List (AggExpr N) → ViewOp N
  rename : List (Text × Text) → ViewOp N
  limit : N → ViewOp N

-- `[pred.column]`
unfoldable pub columns_of_leaf : Option Text → List Text
columns_of_leaf none = []
columns_of_leaf (some c) = c ∷ []

module _ {N : Type 0} where
  unfoldable pub get_agg_alias : AggExpr N → Text
  get_agg_alias (count alias) = alias
  get_agg_alias (count_distinct c alias) = alias
  get_agg_alias (sum c alias) = alias
  get_agg_alias (min c alias) = alias
  get_agg_alias (max c alias) = alias
  get_agg_alias (mean c alias) = alias
  get_agg_alias (median c alias) = alias
  get_agg_alias (std_dev c alias) = alias
  get_agg_alias (percentile c p alias) = alias

  -- `pred.column`, which the three compound predicates do not have.
  unfoldable pub column_of : Predicate N → Option Text
  column_of (eq c v) = some c
  column_of (ne c v) = some c
  column_of (gt c v) = some c
  column_of (gte c v) = some c
  column_of (lt c v) = some c
  column_of (lte c v) = some c
  column_of (contains c v) = some c
  column_of (starts_with c v) = some c
  column_of (ends_with c v) = some c
  column_of (regex c v) = some c
  column_of (in_values c v) = some c
  column_of (not_in c v) = some c
  column_of (between c lo hi) = some c
  column_of (is_null c) = some c
  column_of (is_not_null c) = some c
  column_of (and exprs) = none
  column_of (or exprs) = none
  column_of (not expr) = none

-- `predicateColumns` and its `flatMap`.
unfoldable mutual
  unfolding column_of columns_of_leaf

  pub predicate_columns : {N : Type 0} → Predicate N → List Text
  predicate_columns (and exprs) = predicates_columns exprs
  predicate_columns (or exprs) = predicates_columns exprs
  predicate_columns (not expr) = predicate_columns expr
  predicate_columns p = columns_of_leaf (column_of p)

  pub predicates_columns : {N : Type 0} → Predicates N → List Text
  predicates_columns nil = []
  predicates_columns (cons p ps) = predicate_columns p ++ predicates_columns ps
