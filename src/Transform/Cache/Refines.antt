-- ===== src/Transform/Cache/Refines.antt =====
-- `memoryCache` of internal/operator/transform/cache.go, between two ticks of its limiter, against
-- the map that it promises.
use tarunner.Base.{
  ℕ, ◌+◌, ◌-◌, ◌^◌, ◌<◌, String, ◌≡◌, refl, sym, ap, ◌∙◌, true, false, Option, none, some, List, [],
  ◌∷◌, map, length, length-map, arith, ◌==◌, nat_eq, string_eq, eq_iff, Bool-cases, Option-cases,
  inl, inr,
}
use mathlib.Core.List.{map-append}
use tarunner.Base.Optional.{◌>>=◌}
use tarunner.Base.Dict.{Dict, lookup, lookup-insert, lookup-erase}
use tarunner.Base.Dict.Size.{NodupKeys}
use tarunner.Transform.Limiter
use tarunner.Transform.Limiter.{AtomicLimiter, uint64_mod}
use tarunner.Transform.Limiter.Counting
use tarunner.Transform.Cache.{MemoryCache, new_memory_cache, get, add}
use tarunner.Transform.Cache.Invariant.{
  IsValid, new_memory_cache-IsValid, evicted, room, added, add-added, added-IsValid, cap_keys-added,
}
use tarunner.Transform.Fifo
use tarunner.Transform.Fifo.Entries.{
  lookup-append_one, NodupKeys-append_one, lookup-drop_oldest, lookup-kept,
}
use tarunner.Transform.Fifo.{FifoMap, drop_oldest, kept, left, pushed}

module _ {ℓ} {V : Type ℓ} where
  -- `get`, and `add` of a value if there is none.
  unfoldable pub remember : MemoryCache V → String → V → Option (MemoryCache V × Option V)
  remember m key value = elim (get m key) [
    | some found ↦ some (m, some found)
    | none ↦ do (m', _) ← add m key value; some (m', none)
  ]

  unfoldable pub run : MemoryCache V → List (String × V) → Option (List (Option V))
  run m [] = some []
  run m ((key, value) ∷ calls) = do
    (m', reply) ← remember m key value
    replies ← run m' calls
    some (reply ∷ replies)

  abbrev pub key_of : String × V → String
  key_of e = e.0

  pub record Refines (m : MemoryCache V) (q : FifoMap V) : Type ℓ where
    pub valid : IsValid m
    pub counted : Limiter.Counting.IsValid m.limiter
    pub queue : m.keys ≡ map key_of q.entries
    pub reads : (k : String) → lookup k m.cache ≡ lookup k q.entries
    pub distinct : NodupKeys q.entries
    pub same_size : m.cap_keys ≡ q.size
    pub spent : m.limiter.count + q.budget ≡ m.limiter.max

  -- The eviction leaves the queue and the readings of the list without its oldest entry.
  evicted-drop_oldest :
      (m : MemoryCache V) (q : List String) (d : Dict V)
      → q ≡ map key_of d
      → m.keys ≡ q
      → NodupKeys d
      → ((k : String) → lookup k m.cache ≡ lookup k d)
      → ((evicted m q).keys ≡ map key_of (drop_oldest d))
        × ((k : String) → lookup k (evicted m q).cache ≡ lookup k (drop_oldest d))
        × NodupKeys (drop_oldest d)
  unfolding lookup
  evicted-drop_oldest m [] [] e e' n reads = (e', reads, n)
  evicted-drop_oldest m (j ∷ q) [] e e' n reads = cc
  evicted-drop_oldest m [] (x ∷ d) e e' n reads = cc
  evicted-drop_oldest m (j ∷ q) ((key, value) ∷ d) e e' n reads = (
    cc,
    λ k.
        let same : j ≡ key = cc in
        let read : lookup k m.cache ≡ lookup k ((key, value) ∷ d) = reads k in
        ground (arith, same, read, lookup-erase k j m.cache, lookup-drop_oldest key value d k n),
    n.1,
  )

  length-keys : (m : MemoryCache V) (q : FifoMap V) → Refines m q → length m.keys ≡ length q.entries
  length-keys m q r = ap length r.queue ∙ length-map key_of q.entries

  room-kept :
      (m : MemoryCache V) (q : FifoMap V)
      → Refines m q
      → ((room m).keys ≡ map key_of (kept q))
        × ((k : String) → lookup k (room m).cache ≡ lookup k (kept q))
        × NodupKeys (kept q)
  room-kept m q r = elim (Bool-cases (length q.entries == q.size)) [
    | inl full ↦
        let full' : (length m.keys == m.cap_keys) ≡ true =
          ground (arith, length-keys m q r, r.same_size) in
        rw (full, full') (evicted-drop_oldest m m.keys q.entries r.queue refl r.distinct r.reads)
    | inr space ↦
        let space' : (length m.keys == m.cap_keys) ≡ false =
          ground (arith, length-keys m q r, r.same_size) in
        rw (space, space') (r.queue, r.reads, r.distinct)
  ]

  evicted-limiter :
      (m : MemoryCache V) (q : List String) (budget : ℕ)
      → 0 < length q
      → 0 < budget
      → Limiter.Counting.IsValid m.limiter
      → m.limiter.count + budget ≡ m.limiter.max
      → Limiter.Counting.IsValid (evicted m q).limiter
        × ((evicted m q).limiter.count + (budget - 1) ≡ (evicted m q).limiter.max)
  unfolding Limiter.increment
  evicted-limiter m [] budget h b c s = absurd (omega arith)
  evicted-limiter m (j ∷ q) budget h b c s =
      (Limiter.Counting.increment-IsValid m.limiter c, ground arith)

  room-limiter :
      (m : MemoryCache V) (q : FifoMap V)
      → Refines m q
      → 0 < q.budget
      → Limiter.Counting.IsValid (room m).limiter
        × ((room m).limiter.count + left q ≡ (room m).limiter.max)
  room-limiter m q r b = elim (Bool-cases (length q.entries == q.size)) [
    | inl full ↦
        let full' : (length m.keys == m.cap_keys) ≡ true =
          ground (arith, length-keys m q r, r.same_size) in
        let some_key : 0 < length m.keys =
          ground (arith, length-keys m q r, r.same_size, r.valid.positive) in
        rw (full, full') (evicted-limiter m m.keys q.budget some_key b r.counted r.spent)
    | inr space ↦
        let space' : (length m.keys == m.cap_keys) ≡ false =
          ground (arith, length-keys m q r, r.same_size) in
        rw (space, space') (r.counted, r.spent)
  ]

  -- A write refines a push, where the key is new and the budget is not spent.
  added-Refines :
      (m : MemoryCache V) (q : FifoMap V) (key : String) (value : V)
      → Refines m q
      → lookup key q.entries ≡ none
      → 0 < q.budget
      → Refines (added m key value) (pushed q key value)
  added-Refines m q key value r h b =
      let (queue, reads, distinct) = room-kept m q r in
      let (counted, spent) = room-limiter m q r b in
      let new : lookup key (kept q) ≡ none = lookup-kept q key r.distinct h in
      record {
        valid = added-IsValid m key value r.valid;
        counted = counted;
        queue = rw queue (sym (map-append key_of (kept q) ((key, value) ∷ [])));
        reads = λ k.
            rw (lookup-append_one (kept q) key value k new, lookup-insert)
              (ground (arith, reads k, eq_iff k key));
        distinct = NodupKeys-append_one (kept q) key value new distinct;
        same_size = cap_keys-added m key value ∙ r.same_size;
        spent = spent;
      }

  -- One call gives what the promised map gives, and never blocks.
  remember-Refines :
      (m : MemoryCache V) (q : FifoMap V) (key : String) (value : V)
      → Refines m q
      → (m' : MemoryCache V) × (remember m key value ≡ some (m', (Fifo.remember q key value).1))
        × Refines m' (Fifo.remember q key value).0
  unfolding remember Fifo.remember get Limiter.throttled
  remember-Refines m q key value r = elim (Option-cases (lookup key q.entries)) [
    | inl missing ↦
        let missing' : lookup key m.cache ≡ none = r.reads key ∙ missing in
        elim (Bool-cases (q.budget == 0)) [
          | inl spent ↦
              let full : Limiter.throttled m.limiter ≡ true = ground (arith, r.spent) in
              rw
                (
                  remember,
                  get,
                  Fifo.remember,
                  missing,
                  missing',
                  add-added m key value r.valid,
                  full,
                  Fifo.push,
                  spent,
                )
                (m, refl, r)
          | inr more ↦
              let open_ : Limiter.throttled m.limiter ≡ false =
                ground (arith, r.spent, r.counted.bounded) in
              let step = added-Refines m q key value r missing (ground (arith, more)) in
              rw
                (
                  remember,
                  get,
                  Fifo.remember,
                  missing,
                  missing',
                  add-added m key value r.valid,
                  open_,
                  Fifo.push,
                  more,
                )
                (added m key value, refl, step)
        ]
    | inr (found, e) ↦
        let e' : lookup key m.cache ≡ some found = r.reads key ∙ e in
        rw (remember, get, Fifo.remember, e, e') (m, refl, r)
  ]

  run-Refines :
      (m : MemoryCache V) (q : FifoMap V) (calls : List (String × V))
      → Refines m q
      → run m calls ≡ some (Fifo.run q calls)
  unfolding run Fifo.run
  run-Refines m q [] r = refl
  run-Refines m q ((key, value) ∷ calls) r =
      let (m', e, r') = remember-Refines m q key value r in
      rw (e, run-Refines m' (Fifo.remember q key value).0 calls r') refl

  new_memory_cache-Refines :
      (max_size interval : ℕ)
      → 0 < max_size
      → max_size < 2 ^ 16
      → Refines (new_memory_cache max_size interval) (Fifo.empty max_size (max_size + 1))
  unfolding new_memory_cache lookup Fifo.empty Limiter.new_started_atomic_limiter
  new_memory_cache-Refines max_size interval h h' = record {
    valid = new_memory_cache-IsValid max_size interval h;
    counted =
        Limiter.Counting.new_started_atomic_limiter-IsValid (max_size + 1) interval (omega arith);
    queue = refl;
    reads = λ k. refl;
    distinct = tt;
    same_size = refl;
    spent = omega arith;
  }

  -- A new cache of a size from 1 to 65535, to whose limiter no tick comes, answers any sequence of
  -- calls that read a key and add a value to it if there is none, without blocking, as the promised
  -- map of that size does whose budget of evictions is the size plus one.
  pub run-new_memory_cache :
      (max_size interval : ℕ) (calls : List (String × V))
      → 0 < max_size
      → max_size < 2 ^ 16
      → run (new_memory_cache max_size interval) calls
        ≡ some (Fifo.run (Fifo.empty max_size (max_size + 1)) calls)
  run-new_memory_cache max_size interval calls h h' =
      run-Refines (new_memory_cache max_size interval) (Fifo.empty max_size (max_size + 1)) calls
        (new_memory_cache-Refines max_size interval h h')
