-- ===== src/Transform/Cache.antt =====
-- `memoryCache` of internal/operator/transform/cache.go, for any type of values. The channel
-- `keys` is the list of its elements, oldest first, with its capacity. A method that takes the
-- mutex is one atomic step; `none` is a step that blocks forever on the channel.
-- A map entry whose value is nil cannot be told from a missing one; the program stores none.
pub mod Invariant
pub mod Reads
pub mod Fifo
pub mod Refines
use tarunner.Base.{
  ℕ, ◌+◌, ◌%◌, ◌^◌, String, Bool, true, false, Option, none, some, List, [], ◌∷◌, ◌++◌, length, ltb,
  ◌==◌, nat_eq, if◌then◌else◌,
}
use tarunner.Base.Optional.{◌>>=◌}
use tarunner.Base.Dict.{Dict, lookup, insert, erase}
use tarunner.Transform.Limiter
use tarunner.Transform.Limiter.{AtomicLimiter, new_started_atomic_limiter}

pub record MemoryCache {ℓ} (V : Type ℓ) : Type ℓ where
  pub limiter : AtomicLimiter
  pub cache : Dict V
  pub keys : List String
  -- cap(m.keys)
  pub cap_keys : ℕ

-- The arguments are a uint16 and a uint64; the limit is one more than the size.
unfoldable pub new_memory_cache {ℓ} : {V : Type ℓ} → ℕ → ℕ → MemoryCache V
new_memory_cache max_size interval = record {
  limiter = new_started_atomic_limiter (max_size + 1) interval;
  cache = [];
  keys = [];
  cap_keys = max_size;
}

module _ {ℓ} {V : Type ℓ} where
  unfoldable pub get : MemoryCache V → String → Option V
  get m key = lookup key m.cache

  -- `m.cache[key] = data`, then the send `m.keys <- key`, which blocks if the channel is full.
  unfoldable pub write : MemoryCache V → String → V → Option (MemoryCache V)
  write m key value =
      if ltb (length m.keys) m.cap_keys
      then some (record m { cache = insert key value m.cache; keys = m.keys ++ key ∷ [] })
      else none

  -- The eviction of `add`: `<-m.keys` blocks if the channel is empty.
  unfoldable pub evict : MemoryCache V → List String → Option (MemoryCache V)
  evict m [] = none
  evict m (oldest ∷ rest) = some (record m {
    cache = erase oldest m.cache;
    keys = rest;
    limiter = Limiter.increment m.limiter;
  })

  unfoldable pub make_room : MemoryCache V → Option (MemoryCache V)
  unfolding evict
  make_room m = if length m.keys == m.cap_keys then evict m m.keys else some m

  -- `add` behind the test of the limiter, under the mutex.
  unfoldable pub store : MemoryCache V → String → V → Option (MemoryCache V)
  unfolding make_room write
  store m key value = do m' ← make_room m; write m' key value

  unfoldable pub add : MemoryCache V → String → V → Option (MemoryCache V × Bool)
  unfolding store
  add m key value =
      if Limiter.throttled m.limiter
      then some (m, false)
      else (do m' ← store m key value; some (m', true))

  unfoldable pub copy : MemoryCache V → Dict V
  copy m = m.cache

  -- uint16(cap(m.keys))
  unfoldable pub max_size : MemoryCache V → ℕ
  max_size m = m.cap_keys % 2 ^ 16

  unfoldable pub stop : MemoryCache V → Option (MemoryCache V)
  stop m = do l ← Limiter.stop m.limiter; some (record m { limiter = l })
