-- ===== src/ClientIndex/Rows.antt =====
-- The sets of rows of web/src/lib/client-index.ts.
use tableverse.Prelude.{
  ℕ, zero, suc, ◌+◌, ◌≡◌, refl, List, [], ◌∷◌, ◌++◌, Bool, false, not, ◌&&◌, ◌||◌, ltb, leb, ◌==◌,
  arith,
}
use tableverse.ClientIndex.{
  is_in, intersect, insert_sorted, insert_all, union_into, union, complement_from, complement,
}

-- `intersect` has the rows of both.
pub is_in-intersect : (x : ℕ) (a b : List ℕ) → is_in x (intersect a b) ≡ (is_in x a && is_in x b)
unfolding is_in intersect
is_in-intersect x [] b = refl
is_in-intersect x (y ∷ a) b = ground (arith, is_in-intersect x a b)

is_in-complement_from :
    (x : ℕ) (m : List ℕ) (i n : ℕ)
    → is_in x (complement_from m i n) ≡ (leb i x && ltb x (i + n) && not (is_in x m))
unfolding is_in complement_from
is_in-complement_from x m i zero = ground arith
is_in-complement_from x m i (suc n) = ground (arith, is_in-complement_from x m (suc i) n)

-- `complement` has the rows below the total that are no matches.
pub is_in-complement :
    (x : ℕ) (m : List ℕ) (total : ℕ)
    → is_in x (complement m total) ≡ (ltb x total && not (is_in x m))
unfolding complement
is_in-complement x m total = ground (arith, is_in-complement_from x m 0 total)

is_in-insert_sorted :
    (x y : ℕ) (ys : List ℕ) → is_in x (insert_sorted y ys) ≡ (x == y || is_in x ys)
unfolding is_in insert_sorted
is_in-insert_sorted x y [] = ground arith
is_in-insert_sorted x y (z ∷ ys) = ground (arith, is_in-insert_sorted x y ys)

pub is_in-insert_all :
    (x : ℕ) (a set : List ℕ) → is_in x (insert_all a set) ≡ (is_in x a || is_in x set)
unfolding is_in insert_all
is_in-insert_all x [] set = refl
is_in-insert_all x (y ∷ a) set =
    ground (arith, is_in-insert_all x a (insert_sorted y set), is_in-insert_sorted x y set)

pub is_in-append : (x : ℕ) (a b : List ℕ) → is_in x (a ++ b) ≡ (is_in x a || is_in x b)
unfolding is_in
is_in-append x [] b = refl
is_in-append x (y ∷ a) b = ground (arith, is_in-append x a b)

-- The rows of any of the lists.
unfoldable pub in_any : ℕ → List (List ℕ) → Bool
in_any x [] = false
in_any x (a ∷ arrays) = is_in x a || in_any x arrays

is_in-union_into :
    (x : ℕ) (set : List ℕ) (arrays : List (List ℕ))
    → is_in x (union_into set arrays) ≡ (is_in x set || in_any x arrays)
unfolding union_into in_any
is_in-union_into x set [] = ground arith
is_in-union_into x set (a ∷ arrays) =
    ground (arith, is_in-union_into x (insert_all a set) arrays, is_in-insert_all x a set)

-- `union` has the rows of any of the lists.
pub is_in-union : (x : ℕ) (arrays : List (List ℕ)) → is_in x (union arrays) ≡ in_any x arrays
unfolding union is_in
is_in-union x arrays = is_in-union_into x [] arrays
