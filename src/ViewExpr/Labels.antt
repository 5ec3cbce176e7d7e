-- ===== src/ViewExpr/Labels.antt =====
-- web/src/lib/viewExpr.ts: the labels of operations. `show` is `String` on numbers, `show_local` is
-- `toLocaleString`.
use tableverse.Prelude.{
  List, [], ◌∷◌, ◌++◌, none, some, map, Text, text, ◌==◌, if◌then◌else◌, length,
}
use tableverse.Prelude.Radix.{to_string}
use tableverse.SqlBuilder.{join}
use tableverse.ViewExpr.{Literal, Predicate, Predicates, SortKey, ViewOp}

-- A text between double quotes, as it is.
unfoldable pub in_quotes : Text → Text
in_quotes s = 34 ∷ s ++ 34 ∷ []

unfoldable pub key_label : SortKey → Text
key_label k = (if k.descending then text "↓" else text "↑") ++ text " " ++ k.column

unfoldable pub mapping_label : Text × Text → Text
unfolding in_quotes
mapping_label (from, to) = in_quotes from ++ text " → " ++ in_quotes to

module _ {N : Type 0} (show : N → Text) where
  unfoldable pub format_lit : Literal N → Text
  unfolding in_quotes
  format_lit Literal.null = text "null"
  format_lit (Literal.boolean b) = if b then text "true" else text "false"
  format_lit (Literal.number n) = show n
  format_lit (Literal.string s) = in_quotes s

  unfoldable mutual
    unfolding format_lit

    pub pred_label : Predicate N → Text
    pred_label (Predicate.eq c v) = c ++ text " = " ++ format_lit v
    pred_label (Predicate.ne c v) = c ++ text " ≠ " ++ format_lit v
    pred_label (Predicate.gt c v) = c ++ text " > " ++ format_lit v
    pred_label (Predicate.gte c v) = c ++ text " ≥ " ++ format_lit v
    pred_label (Predicate.lt c v) = c ++ text " < " ++ format_lit v
    pred_label (Predicate.lte c v) = c ++ text " ≤ " ++ format_lit v
    pred_label (Predicate.between c lo hi) =
        c ++ text " between " ++ format_lit lo ++ text " and " ++ format_lit hi
    pred_label (Predicate.in_values c vs) =
        c ++ text " in [" ++ join (text ", ") (map format_lit vs) ++ text "]"
    pred_label (Predicate.not_in c vs) =
        c ++ text " not in [" ++ join (text ", ") (map format_lit vs) ++ text "]"
    pred_label (Predicate.contains c v) = c ++ text " contains \"" ++ v ++ text "\""
    pred_label (Predicate.starts_with c v) = c ++ text " starts with \"" ++ v ++ text "\""
    pred_label (Predicate.ends_with c v) = c ++ text " ends with \"" ++ v ++ text "\""
    pred_label (Predicate.regex c pattern) = c ++ text " ~ /" ++ pattern ++ text "/"
    pred_label (Predicate.is_null c) = c ++ text " is null"
    pred_label (Predicate.is_not_null c) = c ++ text " is not null"
    pred_label (Predicate.and ps) = join (text " AND ") (preds_labels ps)
    pred_label (Predicate.or ps) = join (text " OR ") (preds_labels ps)
    pred_label (Predicate.not p) = text "NOT (" ++ pred_label p ++ text ")"

    pub preds_labels : Predicates N → List Text
    preds_labels Predicates.nil = []
    preds_labels (Predicates.cons p ps) = pred_label p ∷ preds_labels ps

module _ {N : Type 0} (show show_local : N → Text) where
  unfoldable pub op_label : ViewOp N → Text
  op_label (ViewOp.filter p) = pred_label show p
  op_label (ViewOp.select columns) =
      text "select "
      ++ to_string 10 (length columns)
      ++ text " col"
      ++ (if length columns == 1 then text "" else text "s")
  op_label (ViewOp.drop columns) = text "drop " ++ join (text ", ") (map in_quotes columns)
  op_label (ViewOp.sort keys) = join (text ", ") (map key_label keys)
  op_label (ViewOp.derive name e) = text "derive " ++ in_quotes name
  op_label (ViewOp.deduplicate (some columns)) = text "dedup by " ++ join (text ", ") columns
  op_label (ViewOp.deduplicate none) = text "deduplicate"
  op_label (ViewOp.sample n strategy seed) = text "sample " ++ show_local n ++ text " rows"
  op_label (ViewOp.group_by keys aggs) = text "group by " ++ join (text ", ") keys
  op_label (ViewOp.rename mappings) = join (text ", ") (map mapping_label mappings)
  op_label (ViewOp.limit n) = text "limit " ++ show_local n
