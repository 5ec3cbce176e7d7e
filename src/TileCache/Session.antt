-- ===== src/TileCache/Session.antt =====
-- Sequences of calls on the cache of web/src/lib/tile-cache.ts.
use tableverse.Prelude.{
  ℕ, ◌≤◌, ◌≡◌, ◌⊎◌, inl, inr, refl, ap, ◌∙◌, List, [], ◌∷◌, length, length-append, Text, text_key,
  arith, Option-cases,
}
use tableverse.Prelude.Dict
use tableverse.TileCache.{TileCache, Table, new, get, delete, set, clear}
use tableverse.TileCache.Invariant.{
  IsValid, new-IsValid, get-IsValid, delete-IsValid, set-IsValid, clear-IsValid,
  max_bytes-make_room,
}
use tableverse.TileCache.Eviction.{set_lem, get_lem}

pub data Call : Type 0 where
  get_call : Text → Call
  set_call : Text → Table → Call
  delete_call : Text → Call
  clear_call : Call

unfoldable pub call : TileCache → Call → TileCache
call c (get_call key) = (get c key).0
call c (set_call key t) = set c key t
call c (delete_call key) = delete c key
call c clear_call = clear c

unfoldable pub run : TileCache → List Call → TileCache
run c [] = c
run c (a ∷ calls) = run (call c a) calls

-- The budget of `limit` bytes, which one oversized entry alone may pass.
pub record IsBounded (limit : ℕ) (c : TileCache) : Type 0 where
  pub valid : IsValid c
  pub budget : c.max_bytes ≡ limit
  pub bounded : (c.current_bytes ≤ limit) ⊎ (length c.cache ≤ 1)

-- `get` moves an entry, `delete` at most removes one, and neither changes the budget.
get_sizes :
    (c : TileCache) (key : Text)
    → IsValid c
    → ((get c key).0.max_bytes ≡ c.max_bytes)
      × ((get c key).0.current_bytes ≡ c.current_bytes)
      × (length (get c key).0.cache ≡ length c.cache)
get_sizes c key v = elim (Option-cases (Dict.get key c.cache)) [
  | inl miss ↦ rw ((get_lem c key v).1 miss) (refl, refl, refl)
  | inr (e, hit) ↦ rw ((get_lem c key v).0 e hit) (
    refl,
    refl,
    omega (
      arith,
      length-append (Dict.delete key c.cache) ((key, e) ∷ []),
      Dict.length-delete key c.cache e hit,
    ),
  )
]

delete_sizes :
    (c : TileCache) (key : Text)
    → ((delete c key).max_bytes ≡ c.max_bytes)
      × ((delete c key).current_bytes ≤ c.current_bytes)
      × (length (delete c key).cache ≤ length c.cache)
unfolding delete
delete_sizes c key = elim (Option-cases (Dict.get key c.cache)) [
  | inl miss ↦ rw (miss, delete) (refl, omega arith, omega arith)
  | inr (e, hit) ↦
      rw (hit, delete) (refl, omega arith, omega (arith, Dict.length-delete key c.cache e hit))
]

max_bytes-set : (c : TileCache) (key : Text) (t : Table) → (set c key t).max_bytes ≡ c.max_bytes
unfolding set
max_bytes-set c key t =
    max_bytes-make_room (length (delete c key).cache) _ (delete c key) ∙ (delete_sizes c key).0

set-IsBounded :
    (limit : ℕ) (c : TileCache) (key : Text) (t : Table)
    → IsBounded limit c
    → IsBounded limit (set c key t)
set-IsBounded limit c key t h =
    let (n, stored) = set_lem c key t h.valid in
    record {
      valid = set-IsValid c key t h.valid;
      budget = max_bytes-set c key t ∙ h.budget;
      bounded = elim stored.bounded [
        | inl fits ↦ inl (omega (arith, h.budget))
        | inr alone ↦ inr (omega (arith, ap length alone))
      ];
    }

pub call-IsBounded :
    (limit : ℕ) (c : TileCache) (a : Call) → IsBounded limit c → IsBounded limit (call c a)
unfolding call clear
call-IsBounded limit c (get_call key) h =
    let (budget, bytes, entries) = get_sizes c key h.valid in
    record {
      valid = get-IsValid c key h.valid;
      budget = budget ∙ h.budget;
      bounded = omega (arith, h.bounded);
    }
call-IsBounded limit c (set_call key t) h = set-IsBounded limit c key t h
call-IsBounded limit c (delete_call key) h =
    let (budget, bytes, entries) = delete_sizes c key in
    record {
      valid = delete-IsValid c key h.valid;
      budget = budget ∙ h.budget;
      bounded = omega (arith, h.bounded);
    }
call-IsBounded limit c clear_call h = record {
  valid = clear-IsValid c;
  budget = h.budget;
  bounded = inl (omega arith);
}

run_from-IsBounded :
    (limit : ℕ) (calls : List Call) (c : TileCache)
    → IsBounded limit c
    → IsBounded limit (run c calls)
unfolding run
run_from-IsBounded limit [] c h = h
run_from-IsBounded limit (a ∷ calls) c h =
    run_from-IsBounded limit calls (call c a) (call-IsBounded limit c a h)

-- After any sequence of calls on a new cache, the byte count is the sum over the entries, no key
-- stands twice, and the count is within the limit unless a single entry is left.
pub run-IsBounded : (limit : ℕ) (calls : List Call) → IsBounded limit (run (new limit) calls)
unfolding new
run-IsBounded limit calls =
    run_from-IsBounded limit calls (new limit)
      (record { valid = new-IsValid limit; budget = refl; bounded = inl (omega arith) })
