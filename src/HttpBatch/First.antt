-- ===== src/HttpBatch/First.antt =====
-- The first frame of the bytes that fetchViewTileBatch of web/src/api/http.ts has pending.
use tableverse.Prelude.{
  ℕ, zero, suc, ◌+◌, ◌≤◌, ◌<◌, ◌≡◌, refl, sym, ap, ◌∙◌, List, [], ◌∷◌, ◌++◌, none, some, false,
  ◌&&◌, leb, length, get_or, take, drop, length-append, length-drop, arith, Bool-cases, inl, inr,
}
use tableverse.HttpBatch.{word, Frame, first_frame}

pub append_assoc {ℓ} : {A : Type ℓ} (xs ys zs : List A) → (xs ++ ys) ++ zs ≡ xs ++ (ys ++ zs)
append_assoc [] ys zs = refl
append_assoc (x ∷ xs) ys zs = ap (x ∷◌) (append_assoc xs ys zs)

pub append_nil {ℓ} : {A : Type ℓ} (xs : List A) → xs ++ [] ≡ xs
append_nil [] = refl
append_nil (x ∷ xs) = ap (x ∷◌) (append_nil xs)

pub get_or-append : (p s : List ℕ) (i : ℕ) → i < length p → get_or (p ++ s) i 0 ≡ get_or p i 0
get_or-append [] s i h = absurd (omega arith)
get_or-append (x ∷ p) s zero h = refl
get_or-append (x ∷ p) s (suc i) h = get_or-append p s i (omega arith)

pub drop-append : (n : ℕ) (p s : List ℕ) → n ≤ length p → drop n (p ++ s) ≡ drop n p ++ s
drop-append zero p s h = refl
drop-append (suc n) [] s h = absurd (omega arith)
drop-append (suc n) (x ∷ p) s h = drop-append n p s (omega arith)

pub take-append : (n : ℕ) (p s : List ℕ) → n ≤ length p → take n (p ++ s) ≡ take n p
take-append zero p s h = refl
take-append (suc n) [] s h = absurd (omega arith)
take-append (suc n) (x ∷ p) s h = ap (x ∷◌) (take-append n p s (omega arith))

word-append : (p s : List ℕ) (i : ℕ) → i + 3 < length p → word (p ++ s) i ≡ word p i
unfolding word
word-append p s i h = rw (
  get_or-append p s i (omega arith),
  get_or-append p s (i + 1) (omega arith),
  get_or-append p s (i + 2) (omega arith),
  get_or-append p s (i + 3) h,
)

pub first_frame-here :
    (p : List ℕ)
    → 8 ≤ length p
    → 8 + word p 4 ≤ length p
    → first_frame p
      ≡ some (
        record { tile_idx = word p 0; ipc_bytes = take (word p 4) (drop 8 p) },
        drop (word p 4) (drop 8 p),
      )
unfolding first_frame
first_frame-here p a b = ground arith

pub first_frame-out :
    (p : List ℕ) → leb 8 (length p) && leb (8 + word p 4) (length p) ≡ false → first_frame p ≡ none
unfolding first_frame
first_frame-out p h = rw h

-- The bytes of the first frame, if they are there.
first_frame-Is :
    (p : List ℕ) (found : Frame × List ℕ)
    → first_frame p ≡ some found
    → (8 ≤ length p)
      × (8 + word p 4 ≤ length p)
      × (found ≡ (
        record { tile_idx = word p 0; ipc_bytes = take (word p 4) (drop 8 p) },
        drop (word p 4) (drop 8 p),
      ))
first_frame-Is p found e = elim (Bool-cases (leb 8 (length p) && leb (8 + word p 4) (length p))) [
  | inl here ↦
      let eight : 8 ≤ length p = ground (arith, here) in
      let all : 8 + word p 4 ≤ length p = ground (arith, here) in
      let same = sym e ∙ first_frame-here p eight all in (eight, all, cc)
  | inr out ↦ let none_there = sym e ∙ first_frame-out p out in absurd (cc)
]

-- A frame that is there takes 8 bytes or more.
pub first_frame-length :
    (p : List ℕ) (found : Frame × List ℕ)
    → first_frame p ≡ some found
    → length found.1 + 8 ≤ length p
first_frame-length p found e =
    let (eight, all, is) = first_frame-Is p found e in
    rw is (omega (arith, length-drop (word p 4) (drop 8 p), length-drop 8 p))

-- A frame that is there stays, whatever comes behind.
pub first_frame-append :
    (p s : List ℕ) (found : Frame × List ℕ)
    → first_frame p ≡ some found
    → first_frame (p ++ s) ≡ some (found.0, found.1 ++ s)
first_frame-append p s found e =
    let (eight, all, is) = first_frame-Is p found e in
    let size = length-drop 8 p in
    rw is (
      first_frame-here (p ++ s) (omega (arith, length-append p s))
        (rw (word-append p s 4 (omega arith)) (omega (arith, length-append p s)))
      ∙ rw (
        word-append p s 4 (omega arith),
        word-append p s 0 (omega arith),
        drop-append 8 p s eight,
        take-append (word p 4) (drop 8 p) s (omega (arith, size)),
        drop-append (word p 4) (drop 8 p) s (omega (arith, size)),
      ))
