-- ===== src/Transform/Cache/Reads.antt =====
-- What can be read after an `add`.
use tarunner.Base.{
  String, ◌≡◌, Bool, true, false, Option, none, some, arith, ◌==◌, nat_eq, string_eq, if◌then◌else◌,
  not, refl, List, [], ◌∷◌,
}
use mathlib.Core.List.{head?}
use tarunner.Base.Dict.{lookup, lookup-insert, lookup-erase}
use tarunner.Transform.Limiter
use tarunner.Transform.Cache.{MemoryCache, get, add}
use tarunner.Transform.Cache.Invariant.{IsValid, victim, room, evicted, added, add-added}

abbrev pub is_key : String → Option String → Bool
is_key j none = false
is_key j (some k) = k == j

module _ {ℓ} {V : Type ℓ} where
  lookup-evicted :
      (m : MemoryCache V) (q : List String) (j : String)
      → lookup j (evicted m q).cache ≡ (if is_key j (head? q) then none else lookup j m.cache)
  lookup-evicted m [] j = refl
  lookup-evicted m (oldest ∷ rest) j = lookup-erase j oldest m.cache

  pub lookup-room :
      (m : MemoryCache V) (j : String)
      → lookup j (room m).cache ≡ (if is_key j (victim m) then none else lookup j m.cache)
  lookup-room m j = ground (arith, lookup-evicted m m.keys j)

  -- Written, the new entry is read back, the oldest key of a full queue is gone, and every other
  -- key reads as before.
  pub get-add :
      (m m' : MemoryCache V) (key : String) (value : V) (j : String)
      → IsValid m
      → add m key value ≡ some (m', true)
      → get m' j ≡ (if key == j then some value else if is_key j (victim m) then none else get m j)
  unfolding get
  get-add m m' key value j v e =
      let written : m' ≡ added m key value = ground (arith, add-added m key value v) in
      rw (written, lookup-insert, lookup-room m j)

  -- `add` gives false exactly when the limiter throttles, and then it changes nothing.
  pub add-false_iff :
      (m m' : MemoryCache V) (key : String) (value : V) (written : Bool)
      → IsValid m
      → add m key value ≡ some (m', written)
      → (written ≡ not (Limiter.throttled m.limiter)) × (written ≡ false → m' ≡ m)
  add-false_iff m m' key value written v e = ground (arith, add-added m key value v)
