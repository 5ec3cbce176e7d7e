-- ===== src/SqlBuilder/Safe.antt =====
-- The SQL of predicates and scalar expressions keeps names and values inside of quotes.
use Prim.Native.String.{String}
use tableverse.Prelude.{
  ◌≡◌, ◌≢◌, refl, List, [], ◌∷◌, ◌++◌, Bool, true, false, map, Text, text, arith, if◌then◌else◌,
}
use tableverse.Prelude.Radix.{All}
use tableverse.ViewExpr.{Literal, Predicate, Predicates, SortKey}
use tableverse.SqlBuilder.{
  q, escape_like, join, sort_key_sql, sort_keys_sql, lit_sql, pred_sql, preds_sql,
}
use tableverse.SqlBuilder.Lex.{
  code, string, next, after, Same, Same-refl, Same-Inert, ◌⊕◌, AllSame, join-Same, map-AllSame,
  escape_like-Inert, outside-append, after-append, q-Same, quote_text-Same,
}
use tableverse.SqlBuilder.Erase.{
  HasNoQuote, erase_key, erase_literal, erase_pred, erase_preds, IsPlain, ArePlain,
}

-- The fixed parts of a template.
pub fixed : (s : String) → after code (text s) ≡ code → Same (text s) (text s)
fixed s h = Same-refl (text s) h

-- A text without quotes is code.
abbrev pub IsUnquoted : Text → Type 0
IsUnquoted s = All (λ c. (34 ≢ c) × (39 ≢ c)) s

after_unquoted : (s : Text) → IsUnquoted s → after code s ≡ code
unfolding after next
after_unquoted [] h = refl
after_unquoted (c ∷ s) h = ground (arith, after_unquoted s h.1)

pub unquoted-Same : (s : Text) → IsUnquoted s → Same s s
unquoted-Same s h = Same-refl s (after_unquoted s h)

pub sort_key_sql-Same : (k : SortKey) → Same (sort_key_sql k) (sort_key_sql (erase_key k))
unfolding sort_key_sql erase_key after next
sort_key_sql-Same k =
    q-Same k.column []
    ⊕ fixed " " refl
    ⊕ direction k.descending
    ⊕ fixed " NULLS " refl
    ⊕ nulls k.nulls_last
  where
    direction :
        (b : Bool)
        → Same (if b then text "DESC" else text "ASC") (if b then text "DESC" else text "ASC")
    direction true = fixed "DESC" refl
    direction false = fixed "ASC" refl

    nulls :
        (b : Bool)
        → Same (if b then text "LAST" else text "FIRST") (if b then text "LAST" else text "FIRST")
    nulls true = fixed "LAST" refl
    nulls false = fixed "FIRST" refl

pub sort_keys_sql-Same :
    (keys : List SortKey) → Same (sort_keys_sql keys) (sort_keys_sql (map erase_key keys))
unfolding sort_keys_sql after next
sort_keys_sql-Same keys =
    join-Same (text ", ") _ _ (fixed ", " refl)
      (map-AllSame sort_key_sql erase_key keys sort_key_sql-Same)

like-Same :
    (c v : Text) (before behind : String)
    → after code (text before) ≡ string
    → after string (text behind) ≡ code
    → HasNoQuote v
    → Same
        (q c ++ text before ++ escape_like v ++ text behind)
        (q [] ++ text before ++ escape_like [] ++ text behind)
like-Same c v before behind enters leaves h =
    let names = q-Same c [] in
    Same-Inert string (q c ++ text before) (q [] ++ text before) (text behind) _ _
      (rw (
        outside-append code (q c) (text before),
        outside-append code (q []) (text before),
        names.closed_left,
        names.closed_right,
        names.same_code,
      ))
      (rw (after-append code (q c) (text before), names.closed_left, enters))
      (rw (after-append code (q []) (text before), names.closed_right, enters)) leaves
      (escape_like-Inert v h) (escape_like-Inert [] tt)

-- Numbers print without quotes.
module _ {N : Type 0} (show : N → Text) (numbers : (n : N) → IsUnquoted (show n)) where
  pub show-Same : (n : N) → Same (show n) (show n)
  show-Same n = unquoted-Same (show n) (numbers n)

  pub lit_sql-Same : (v : Literal N) → Same (lit_sql show v) (lit_sql show (erase_literal v))
  unfolding lit_sql erase_literal after next
  lit_sql-Same Literal.null = fixed "NULL" refl
  lit_sql-Same (Literal.boolean true) = fixed "TRUE" refl
  lit_sql-Same (Literal.boolean false) = fixed "FALSE" refl
  lit_sql-Same (Literal.number n) = show-Same n
  lit_sql-Same (Literal.string s) = quote_text-Same s []

  lits-Same :
      (vs : List (Literal N))
      → Same
          (join (text ", ") (map (lit_sql show) vs))
          (join (text ", ") (map (lit_sql show) (map erase_literal vs)))
  unfolding after next
  lits-Same vs =
      join-Same (text ", ") _ _ (fixed ", " refl)
        (map-AllSame (lit_sql show) erase_literal vs lit_sql-Same)

  mutual
    unfolding pred_sql preds_sql erase_pred erase_preds IsPlain ArePlain after next

    -- Where no value of a LIKE has a single quote, the SQL of a predicate closes its quotes, and what it has outside of them
    -- does not depend on the names and text values.
    pub pred_sql-Same :
        (p : Predicate N) → IsPlain p → Same (pred_sql show p) (pred_sql show (erase_pred p))
    pred_sql-Same (Predicate.eq c v) h = q-Same c [] ⊕ fixed " = " refl ⊕ lit_sql-Same v
    pred_sql-Same (Predicate.ne c v) h = q-Same c [] ⊕ fixed " != " refl ⊕ lit_sql-Same v
    pred_sql-Same (Predicate.gt c v) h = q-Same c [] ⊕ fixed " > " refl ⊕ lit_sql-Same v
    pred_sql-Same (Predicate.gte c v) h = q-Same c [] ⊕ fixed " >= " refl ⊕ lit_sql-Same v
    pred_sql-Same (Predicate.lt c v) h = q-Same c [] ⊕ fixed " < " refl ⊕ lit_sql-Same v
    pred_sql-Same (Predicate.lte c v) h = q-Same c [] ⊕ fixed " <= " refl ⊕ lit_sql-Same v
    pred_sql-Same (Predicate.between c lo hi) h =
        q-Same c []
        ⊕ fixed " BETWEEN " refl
        ⊕ lit_sql-Same lo
        ⊕ fixed " AND " refl
        ⊕ lit_sql-Same hi
    pred_sql-Same (Predicate.in_values c vs) h =
        q-Same c [] ⊕ fixed " IN (" refl ⊕ lits-Same vs ⊕ fixed ")" refl
    pred_sql-Same (Predicate.not_in c vs) h =
        q-Same c [] ⊕ fixed " NOT IN (" refl ⊕ lits-Same vs ⊕ fixed ")" refl
    pred_sql-Same (Predicate.contains c v) h = like-Same c v " LIKE '%" "%' ESCAPE '\\'" refl refl h
    pred_sql-Same (Predicate.starts_with c v) h =
        like-Same c v " LIKE '" "%' ESCAPE '\\'" refl refl h
    pred_sql-Same (Predicate.ends_with c v) h = like-Same c v " LIKE '%" "' ESCAPE '\\'" refl refl h
    pred_sql-Same (Predicate.regex c pattern) h =
        fixed "regexp_like(" refl
        ⊕ q-Same c []
        ⊕ fixed ", " refl
        ⊕ quote_text-Same pattern []
        ⊕ fixed ")" refl
    pred_sql-Same (Predicate.is_null c) h = q-Same c [] ⊕ fixed " IS NULL" refl
    pred_sql-Same (Predicate.is_not_null c) h = q-Same c [] ⊕ fixed " IS NOT NULL" refl
    pred_sql-Same (Predicate.and ps) h =
        fixed "(" refl
        ⊕ join-Same (text " AND ") (preds_sql show ps) _ (fixed " AND " refl) (preds_sql-Same ps h)
        ⊕ fixed ")" refl
    pred_sql-Same (Predicate.or ps) h =
        fixed "(" refl
        ⊕ join-Same (text " OR ") (preds_sql show ps) _ (fixed " OR " refl) (preds_sql-Same ps h)
        ⊕ fixed ")" refl
    pred_sql-Same (Predicate.not p) h = fixed "NOT (" refl ⊕ pred_sql-Same p h ⊕ fixed ")" refl

    preds_sql-Same :
        (ps : Predicates N)
        → ArePlain ps
        → AllSame (preds_sql show ps) (preds_sql show (erase_preds ps))
    preds_sql-Same Predicates.nil h = tt
    preds_sql-Same (Predicates.cons p ps) h = (pred_sql-Same p h.0, preds_sql-Same ps h.1)
