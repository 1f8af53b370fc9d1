-- ===== src/Transform/Cache/Fifo.antt =====
-- The order of eviction: how long an entry stays.

use tarunner.Base.{
  ℕ, zero, suc, ◌+◌, ◌-◌, ◌≤◌, ◌<◌, String, ◌≡◌, refl, ◌≢◌, true, false, Option, some, arith, ◌==◌,
  nat_eq, string_eq, length, length-append, eq_iff, List, [], ◌∷◌, ◌++◌, Bool-cases, inl, inr, All,
}
use mathlib.Core.List.{append_assoc}
use tarunner.Base.Optional.{◌>>=◌}
use tarunner.Base.Dict.{lookup, lookup-insert, lookup-insert_self, lookup-erase}
use tarunner.Base.Dict.Size.{contains}
use tarunner.Transform.Limiter
use tarunner.Transform.Cache.{MemoryCache, get, add}
use tarunner.Transform.Cache.Invariant.{
  IsValid, room, evicted, added, add-added, added-IsValid, cap_keys-added, length-evicted,
}

module _ {ℓ} {V : Type ℓ} where
  -- A sequence of calls of `add`, whether they write or not.
  unfoldable pub add_all : MemoryCache V → List (String × V) → Option (MemoryCache V)
  add_all m [] = some m
  add_all m ((key, value) ∷ more) = do (m', _) ← add m key value; add_all m' more

  -- `n` more writes of other keys will not evict `k`: so many keys stand in front of it in the
  -- queue, or find room.
  record IsKept (n : ℕ) (k : String) (value : V) (m : MemoryCache V) : Type ℓ where
    valid : IsValid m
    readable : get m k ≡ some value
    before : List String
    after : List String
    split : m.keys ≡ before ++ k ∷ after
    unique : contains k before ≡ false
    enough : n + length m.keys ≤ length before + m.cap_keys

  evicted-kept :
      (m : MemoryCache V) (q before after : List String) (k : String) (value : V)
      → q ≡ before ++ k ∷ after
      → contains k before ≡ false
      → lookup k m.cache ≡ some value
      → 0 < length before
      → (rest : List String) × ((evicted m q).keys ≡ rest ++ k ∷ after)
        × (contains k rest ≡ false)
        × (lookup k (evicted m q).cache ≡ some value)
        × (suc (length rest) ≡ length before)
  unfolding contains
  evicted-kept m q [] after k value split unique found h = absurd (omega arith)
  evicted-kept m [] (b ∷ rest) after k value split unique found h = cc
  evicted-kept m (oldest ∷ q) (b ∷ rest) after k value split unique found h =
      (rest, cc, ground arith, ground (arith, lookup-erase k oldest m.cache), refl)

  room-kept :
      (n : ℕ) (k : String) (value : V) (m : MemoryCache V)
      → IsKept (suc n) k value m
      → (before after : List String) × ((room m).keys ≡ before ++ k ∷ after)
        × (contains k before ≡ false)
        × (lookup k (room m).cache ≡ some value)
        × (n + length (room m).keys + 1 ≤ length before + m.cap_keys)
  unfolding get
  room-kept n k value m h = elim (Bool-cases (length m.keys == m.cap_keys)) [
    | inl full ↦
        let same : length m.keys ≡ m.cap_keys = ground arith in
        let (rest, split, unique, found, shorter) =
          evicted-kept m m.keys h.before h.after k value h.split h.unique h.readable
            (omega (arith, h.enough)) in
        let sized : length (evicted m m.keys).keys + 1 ≡ length m.keys =
          length-evicted m m.keys (omega (arith, h.enough)) in
        rw full (rest, h.after, split, unique, found, omega (arith, h.enough, sized, shorter))
    | inr space ↦
        rw space (h.before, h.after, h.split, h.unique, h.readable, omega (arith, h.enough))
  ]

  added-IsKept :
      (n : ℕ) (k : String) (value : V) (m : MemoryCache V) (key : String) (other : V)
      → key ≢ k
      → IsKept (suc n) k value m
      → IsKept n k value (added m key other)
  unfolding get
  added-IsKept n k value m key other d h =
      let (before, after, split, unique, found, enough) = room-kept n k value m h in
      record {
        valid = added-IsValid m key other h.valid;
        readable = ground (arith, lookup-insert k key other (room m).cache, eq_iff key k);
        before = before;
        after = after ++ key ∷ [];
        split = rw split (append_assoc before (k ∷ after) (key ∷ []));
        unique = unique;
        enough =
            omega
              (arith, enough, length-append (room m).keys (key ∷ []), cap_keys-added m key other);
      }

  fewer :
      (n : ℕ) (k : String) (value : V) (m : MemoryCache V)
      → IsKept (suc n) k value m
      → IsKept n k value m
  fewer n k value m h = record {
    valid = h.valid;
    readable = h.readable;
    before = h.before;
    after = h.after;
    split = h.split;
    unique = h.unique;
    enough = omega (arith, h.enough);
  }

  evicted-contains :
      (m : MemoryCache V) (q : List String) (k : String)
      → contains k m.keys ≡ false
      → contains k q ≡ false
      → contains k (evicted m q).keys ≡ false
  unfolding contains
  evicted-contains m [] k h h' = h
  evicted-contains m (oldest ∷ q) k h h' = ground arith

  fresh-IsKept :
      (m : MemoryCache V) (k : String) (value : V)
      → IsValid m
      → contains k m.keys ≡ false
      → IsKept (m.cap_keys - 1) k value (added m k value)
  unfolding get
  fresh-IsKept m k value v new = record {
    valid = added-IsValid m k value v;
    readable = lookup-insert_self k value (room m).cache;
    before = (room m).keys;
    after = [];
    split = refl;
    unique = ground (arith, evicted-contains m m.keys k);
    enough =
        omega (arith, length-append (room m).keys (k ∷ []), cap_keys-added m k value, v.positive);
  }

  -- Any writes of other keys, up to the count, keep the entry.
  add_all-kept :
      (more : List (String × V)) (n : ℕ) (k : String) (value : V) (m : MemoryCache V)
      → All (λ e. e.0 ≢ k) more
      → length more ≤ n
      → IsKept n k value m
      → (m' : MemoryCache V) × (add_all m more ≡ some m') × (get m' k ≡ some value)
  unfolding add_all
  add_all-kept [] n k value m d l h = (m, refl, h.readable)
  add_all-kept ((key, other) ∷ more) zero k value m d l h = absurd (omega arith)
  add_all-kept ((key, other) ∷ more) (suc n) k value m (d, ds) l h =
      elim (Bool-cases (Limiter.throttled m.limiter)) [
        | inl full ↦
            rw (add-added m key other h.valid, full)
              (add_all-kept more n k value m ds (omega arith) (fewer n k value m h))
        | inr open_ ↦
            rw (add-added m key other h.valid, open_)
              (add_all-kept more n k value (added m key other) ds (omega arith)
                (added-IsKept n k value m key other d h))
      ]

  -- An entry whose key is not in the queue yet is still readable after as many further calls of
  -- `add` for other keys as the cache has places left for them: its size less one.
  get-add_all :
      (m m' : MemoryCache V) (k : String) (value : V) (more : List (String × V))
      → IsValid m
      → contains k m.keys ≡ false
      → add m k value ≡ some (m', true)
      → All (λ e. e.0 ≢ k) more
      → length more < m.cap_keys
      → (m'' : MemoryCache V) × (add_all m' more ≡ some m'') × (get m'' k ≡ some value)
  get-add_all m m' k value more v new e d l =
      let written : m' ≡ added m k value = ground (arith, add-added m k value v) in
      rw written (
        add_all-kept more (m.cap_keys - 1) k value (added m k value) d (omega arith)
          (fresh-IsKept m k value v new))
