-- ===== src/Transform/Cache/Invariant.antt =====
-- The invariant of `memoryCache` of internal/operator/transform/cache.go: of the map, of the queue
-- of keys, and of the size.
use tarunner.Base.{
  ℕ, ◌+◌, ◌≤◌, ◌<◌, String, ◌≡◌, refl, ◌≢◌, Bool, true, false, Option, none, some, List, [], ◌∷◌,
  ◌++◌, length, length-append, arith, ◌==◌, nat_eq, string_eq, eq_iff, if◌then◌else◌, Bool-cases,
  inl, inr,
}
use mathlib.Core.List.{head?}
use tarunner.Base.Dict.{lookup, insert, erase, lookup-insert, lookup-erase}
use tarunner.Base.Dict.Size.{
  NodupKeys, insert-NodupKeys, erase-NodupKeys, contains, contains-append, length-le_of_contains,
}
use tarunner.Transform.Limiter
use tarunner.Transform.Limiter.{AtomicLimiter}
use tarunner.Transform.Cache.{
  MemoryCache, new_memory_cache, store, add, write, evict, make_room, copy,
}

module _ {ℓ} {V : Type ℓ} where
  pub record IsValid (m : MemoryCache V) : Type ℓ where
    pub bounded : length m.keys ≤ m.cap_keys
    pub positive : 0 < m.cap_keys
    pub distinct : NodupKeys m.cache
    pub queued : (k : String) → lookup k m.cache ≢ none → contains k m.keys ≡ true

  pub new_memory_cache-IsValid :
      (max_size interval : ℕ) → 0 < max_size → IsValid (new_memory_cache {V = V} max_size interval)
  unfolding new_memory_cache lookup
  new_memory_cache-IsValid max_size interval h = record {
    bounded = omega arith;
    positive = h;
    distinct = tt;
    queued = λ k e. absurd (e refl);
  }

  -- The key that a full cache gives up for a new one.
  abbrev pub victim : MemoryCache V → Option String
  victim m = if length m.keys == m.cap_keys then head? m.keys else none

  abbrev pub evicted : MemoryCache V → List String → MemoryCache V
  evicted m [] = m
  evicted m (oldest ∷ rest) = record m {
    cache = erase oldest m.cache;
    keys = rest;
    limiter = Limiter.increment m.limiter;
  }

  abbrev pub room : MemoryCache V → MemoryCache V
  room m = if length m.keys == m.cap_keys then evicted m m.keys else m

  -- What an `add` that is not throttled leaves, with the channel operations gone.
  abbrev pub added : MemoryCache V → String → V → MemoryCache V
  added m key value = record (room m) {
    cache = insert key value (room m).cache;
    keys = (room m).keys ++ key ∷ [];
  }

  evicted-queued :
      (m : MemoryCache V) (q : List String) (k : String)
      → (lookup k m.cache ≢ none → contains k q ≡ true)
      → lookup k (evicted m q).cache ≢ none
      → contains k (evicted m q).keys ≡ true
  unfolding contains
  evicted-queued m [] k queued found = cc (queued found)
  evicted-queued m (oldest ∷ rest) k queued found =
      ground (arith, lookup-erase k oldest m.cache, eq_iff oldest k)

  pub length-evicted :
      (m : MemoryCache V) (q : List String)
      → 0 < length q
      → length (evicted m q).keys + 1 ≡ length q
  length-evicted m [] h = absurd (omega arith)
  length-evicted m (oldest ∷ rest) h = omega arith

  evicted-NodupKeys :
      (m : MemoryCache V) (q : List String) → NodupKeys m.cache → NodupKeys (evicted m q).cache
  evicted-NodupKeys m [] d = d
  evicted-NodupKeys m (oldest ∷ rest) d = erase-NodupKeys oldest m.cache d

  cap_keys-evicted : (m : MemoryCache V) (q : List String) → (evicted m q).cap_keys ≡ m.cap_keys
  cap_keys-evicted m [] = refl
  cap_keys-evicted m (oldest ∷ rest) = refl

  room-queued :
      (m : MemoryCache V) (k : String)
      → IsValid m
      → lookup k (room m).cache ≢ none
      → contains k (room m).keys ≡ true
  room-queued m k v found = elim (Bool-cases (length m.keys == m.cap_keys)) [
    | inl full ↦ rw full (evicted-queued m m.keys k (v.queued k) (rw full at found))
    | inr space ↦ rw space (v.queued k (rw space at found))
  ]

  length-room : (m : MemoryCache V) → IsValid m → length (room m).keys < (room m).cap_keys
  length-room m v = ground (arith, length-evicted m m.keys, cap_keys-evicted m m.keys)

  evict-evicted :
      (m : MemoryCache V) (q : List String) → 0 < length q → evict m q ≡ some (evicted m q)
  unfolding evict
  evict-evicted m [] h = absurd (omega arith)
  evict-evicted m (oldest ∷ rest) h = refl

  make_room-room : (m : MemoryCache V) → IsValid m → make_room m ≡ some (room m)
  unfolding make_room
  make_room-room m v = ground (arith, evict-evicted m m.keys)

  -- On a valid cache the part under the mutex never blocks, whatever the limiter counts.
  pub store-added :
      (m : MemoryCache V) (key : String) (value : V)
      → IsValid m
      → store m key value ≡ some (added m key value)
  unfolding store write
  store-added m key value v = rw (make_room-room m v, store) (ground (arith, length-room m v))

  -- On a valid cache `add` never blocks. It changes nothing when throttled, and writes the entry
  -- behind the eviction if not.
  pub add-added :
      (m : MemoryCache V) (key : String) (value : V)
      → IsValid m
      → add m key value
        ≡ some (if Limiter.throttled m.limiter then (m, false) else (added m key value, true))
  unfolding add
  add-added m key value v = rw (store-added m key value v, add) (ground arith)

  -- The entry's key enters the queue, and what `add` evicts leaves both the queue and the map.
  pub added-IsValid :
      (m : MemoryCache V) (key : String) (value : V) → IsValid m → IsValid (added m key value)
  unfolding contains
  added-IsValid m key value v = record {
    bounded = omega (arith, length-room m v, length-append (room m).keys (key ∷ []));
    positive = omega (arith, length-room m v);
    distinct =
        insert-NodupKeys key value (room m).cache
          (ground (arith, evicted-NodupKeys m m.keys v.distinct));
    queued = λ k found. ground (
      arith,
      lookup-insert k key value (room m).cache,
      contains-append k (room m).keys (key ∷ []),
      room-queued m k v,
    );
  }

  pub cap_keys-added :
      (m : MemoryCache V) (key : String) (value : V) → (added m key value).cap_keys ≡ m.cap_keys
  cap_keys-added m key value = ground (arith, cap_keys-evicted m m.keys)

  -- On a valid cache `add` returns, throttled or not, and leaves a valid cache of the same size.
  pub add-IsValid :
      (m : MemoryCache V) (key : String) (value : V)
      → IsValid m
      → (m' : MemoryCache V) × (written : Bool) × (add m key value ≡ some (m', written))
        × IsValid m'
        × (m'.cap_keys ≡ m.cap_keys)
  add-IsValid m key value v = elim (Bool-cases (Limiter.throttled m.limiter)) [
    | inl full ↦ (m, false, rw (add-added m key value v, full), v, refl)
    | inr open_ ↦ (
      added m key value,
      true,
      rw (add-added m key value v, open_),
      added-IsValid m key value v,
      cap_keys-added m key value,
    )
  ]

  -- A valid cache never holds more entries than its size.
  length-copy-le : (m : MemoryCache V) → IsValid m → length (copy m) ≤ m.cap_keys
  unfolding copy
  length-copy-le m v =
      omega (arith, length-le_of_contains m.cache m.keys v.distinct v.queued, v.bounded)
