-- ===== src/Transform/Parser/Threads/Keeps.antt =====
-- One step of a call of `match` among others, and what holds of the memory that they share.
use tarunner.Base.{
  ℕ, ◌≡◌, refl, ◌⊎◌, inl, inr, String, Bool, true, false, Option, none, some, List, string_eq,
  eq_iff, arith, Bool-cases, Option-cases,
}
use tarunner.Base.Result.{ok}
use tarunner.Base.Dict.{Dict, lookup-insert}
use tarunner.Transform.Limiter
use tarunner.Transform.Cache
use tarunner.Transform.Cache.{MemoryCache}
use tarunner.Transform.Cache.Invariant.{room, added, added-IsValid, store-added}
use tarunner.Transform.Cache.Reads.{lookup-room}
use tarunner.Transform.Parser.{Parser, cached}
use tarunner.Transform.Parser.Coherence.{IsValidCache, IsFrom}
use tarunner.Transform.Parser.Threads.{
  Thread, start, missed, adding, locking, finished, Memory, after_add, store_in, advance,
}
use tarunner.Transform.Parser.Threads.Holds.{
  WillWrite, IsMadeFor, Holds, Owns, Holds-writers, Keeps,
}

-- What the part of `add` under the mutex leaves to be read.
store_in_lem :
    (c : Option (MemoryCache ℕ)) (key : String) (ref : ℕ)
    → IsValidCache c
    → (d : Option (MemoryCache ℕ)) × (store_in c key ref ≡ some d)
      × IsValidCache d
      × IsFrom c d key ref
unfolding cached Cache.get
store_in_lem none key ref v = (none, refl, tt, λ value r e. inr e)
store_in_lem (some m) key ref v = (
  some (added m key ref),
  rw (store-added m key ref v),
  added-IsValid m key ref v,
  λ value r e.
      ground
        (arith, lookup-insert value key ref (room m).cache, lookup-room m value, eq_iff key value),
)

module _ (p : Parser) (made_for : List String) (P : ℕ → Type 0) where
  abbrev pub Before : Memory → Thread → Type 0
  Before s x = Holds p made_for s (λ r. WillWrite r x ⊎ P r)

  -- A step that leaves the memory alone.
  pub unchanged :
      (s : Memory) (x x' : Thread)
      → Before s x
      → advance p s x ≡ some (s, x')
      → ((r : ℕ) → WillWrite r x → WillWrite r x')
      → Owns p made_for x'
      → Keeps p made_for s x P
  unchanged s x x' h e w own = (
    s,
    x',
    made_for,
    e,
    (λ ref value o. o),
    Holds-writers p made_for s _ _
        (λ r. λ y. elim y [ inl mine ↦ inl (w r mine) | inr other ↦ inr other ]) h,
    own,
  )

  pub keeps-start :
      (s : Memory) (value : String) → Before s (start value) → Keeps p made_for s (start value) P
  unfolding advance
  keeps-start s value h = elim (Option-cases (cached s.cache value)) [
    | inl miss ↦ unchanged s (start value) (missed value) h (rw (advance, miss) refl) (λ r w. w) tt
    | inr (ref, hit) ↦
        unchanged s (start value) (finished value (ok ref)) h (rw (advance, hit) refl) (λ r w. w)
          (h.entries value ref hit)
  ]

  after_add-WillWrite :
      (second : Bool) (value : String) (ref r : ℕ)
      → WillWrite r (adding second value ref)
      → WillWrite r (after_add second value ref)
  after_add-WillWrite true value ref r w = w
  after_add-WillWrite false value ref r w = w

  after_add-Owns :
      (second : Bool) (value : String) (ref : ℕ)
      → IsMadeFor made_for ref value
      → Owns p made_for (after_add second value ref)
  after_add-Owns true value ref o = o
  after_add-Owns false value ref o = o

  locking-WillWrite :
      (second : Bool) (value : String) (ref r : ℕ)
      → WillWrite r (adding second value ref)
      → WillWrite r (locking second value ref)
  locking-WillWrite true value ref r w = w
  locking-WillWrite false value ref r w = w

  pub keeps-adding :
      (c : Option (MemoryCache ℕ)) (heap : List (Dict String)) (second : Bool) (value : String)
      (ref : ℕ)
      → Before (record { cache = c; heap = heap }) (adding second value ref)
      → IsMadeFor made_for ref value
      → Keeps p made_for (record { cache = c; heap = heap }) (adding second value ref) P
  unfolding advance
  keeps-adding none heap second value ref h o =
      unchanged (record { cache = none; heap = heap }) (adding second value ref)
        (after_add second value ref) h refl (after_add-WillWrite second value ref)
        (after_add-Owns second value ref o)
  keeps-adding (some m) heap second value ref h o =
      elim (Bool-cases (Limiter.throttled m.limiter)) [
        | inl full ↦
            unchanged (record { cache = some m; heap = heap }) (adding second value ref)
              (after_add second value ref) h (rw (advance, full) refl)
              (after_add-WillWrite second value ref) (after_add-Owns second value ref o)
        | inr open_ ↦
            unchanged (record { cache = some m; heap = heap }) (adding second value ref)
              (locking second value ref) h (rw (advance, open_) refl)
              (locking-WillWrite second value ref) o
      ]

  -- The part of `add` under the mutex. Only its second call leaves no write of the body to come.
  locking_after :
      (second : Bool) (value : String) (ref r : ℕ)
      → WillWrite r (locking second value ref)
      → WillWrite r (after_add second value ref)
  locking_after true value ref r w = w
  locking_after false value ref r w = w

  pub keeps-locking :
      (s : Memory) (second : Bool) (value : String) (ref : ℕ)
      → Before s (locking second value ref)
      → IsMadeFor made_for ref value
      → Keeps p made_for s (locking second value ref) P
  unfolding advance
  keeps-locking s second value ref h o =
      let (c, e, v, from) = store_in_lem s.cache value ref h.valid in
      let h' =
        Holds-writers p made_for s _ (λ r. WillWrite r (after_add second value ref) ⊎ P r)
          (λ r. λ y. elim y [
            | inl mine ↦ inl (locking_after second value ref r mine)
            | inr other ↦ inr other
          ])
          h in
      (
        record s { cache = c },
        after_add second value ref,
        made_for,
        rw (e, advance) refl,
        (λ r k o'. o'),
        record {
          valid = v;
          same_length = h.same_length;
          entries = λ k r found. elim (from k r found) [
            | inl (same, here) ↦ rw (← same, ← here) o
            | inr old ↦ h.entries k r old
          ];
          filled = h'.filled;
        },
        after_add-Owns second value ref o,
      )
