-- ===== src/Transform/Limiter/Events.antt =====
-- Evictions and ticks in any order.
use tarunner.Base.{ℕ, suc, ◌+◌, ◌*◌, ◌≤◌, ◌<◌, ◌≡◌, true, List, [], ◌∷◌, length, arith, nat_eq}
use tarunner.Transform.Limiter.{AtomicLimiter, uint64_mod, increment, throttled, tenth, tick}
use tarunner.Transform.Limiter.Ticks.{IsRunning, two_complement, tick-two_complement}

pub data Event : Type 0 where
  evict reset : Event

unfoldable pub step : (ℕ → ℕ) → AtomicLimiter → Event → AtomicLimiter
step to_uint64 l evict = increment l
step to_uint64 l reset = tick to_uint64 l

unfoldable pub run : (ℕ → ℕ) → AtomicLimiter → List Event → AtomicLimiter
run to_uint64 l [] = l
run to_uint64 l (e ∷ events) = run to_uint64 (step to_uint64 l e) events

record IsStuck (room : ℕ) (l : AtomicLimiter) : Type 0 where
  running : IsRunning l
  large : 5 ≤ l.max
  small : l.max < uint64_mod
  full : l.max ≤ l.count
  fits : l.count + room * tenth l.max < uint64_mod

step-max : (to_uint64 : ℕ → ℕ) (l : AtomicLimiter) (e : Event) → (step to_uint64 l e).max ≡ l.max
unfolding step increment tick
step-max to_uint64 l evict = ground arith
step-max to_uint64 l reset = ground arith

step-IsRunning :
    (to_uint64 : ℕ → ℕ) (l : AtomicLimiter) (e : Event)
    → IsRunning l
    → IsRunning (step to_uint64 l e)
unfolding step increment tick
step-IsRunning to_uint64 l evict r = ground (arith, r.in_range)
step-IsRunning to_uint64 l reset r = ground (arith, r.in_range)

-- A throttled counter never falls, and rises by less than a tenth of the maximum.
step-count :
    (l : AtomicLimiter) (e : Event)
    → IsRunning l
    → 5 ≤ l.max
    → l.max ≤ l.count
    → l.count + tenth l.max < uint64_mod
    → (l.count ≤ (step two_complement l e).count)
      × ((step two_complement l e).count ≤ l.count + tenth l.max)
unfolding step increment tenth
step-count l evict r large full fits = ground arith
step-count l reset r large full fits =
    ground (arith, tick-two_complement l r large (omega arith) (omega arith) (omega arith))

step-IsStuck :
    (n : ℕ) (l : AtomicLimiter) (e : Event)
    → IsStuck (suc n) l
    → IsStuck n (step two_complement l e)
step-IsStuck n l e s =
    let (low, high) = step-count l e s.running s.large s.full (grind (arith, s.fits)) in
    record {
      running = step-IsRunning two_complement l e s.running;
      large = rw step-max s.large;
      small = rw step-max s.small;
      full = rw step-max (omega arith);
      fits = rw step-max (grind (arith, s.fits));
    }

run-throttled_from :
    (events : List Event) (l : AtomicLimiter)
    → IsStuck (length events) l
    → throttled (run two_complement l events) ≡ true
unfolding run throttled
run-throttled_from [] l s = ground arith
run-throttled_from (e ∷ events) l s =
    run-throttled_from events (step two_complement l e) (step-IsStuck (length events) l e s)

-- With the two's complement conversion a throttled limiter of maximum 5 or more stays throttled
-- through any evictions and ticks, for as long as the counter does not wrap around.
pub run-throttled :
    (events : List Event) (l : AtomicLimiter)
    → IsRunning l
    → 5 ≤ l.max
    → l.max < uint64_mod
    → l.count + length events * tenth l.max < uint64_mod
    → throttled l ≡ true
    → throttled (run two_complement l events) ≡ true
unfolding throttled
run-throttled events l r large small fits t =
    run-throttled_from events l
      (record { running = r; large = large; small = small; full = ground arith; fits = fits })
