-- ===== src/Transform/Limiter/Ticks.antt =====
-- What the reset goroutine does to the counter, under the conversions that Go's platforms have.
use tarunner.Base.{ℕ, ◌+◌, ◌-◌, ◌/◌, ◌%◌, ◌≤◌, ◌<◌, ◌≡◌, true, false, arith, nat_eq}
use tarunner.Transform.Limiter.{AtomicLimiter, uint64_mod, tenth, tick}

-- amd64: the low 64 bits of the two's complement.
abbrev pub two_complement : ℕ → ℕ
two_complement k = (uint64_mod - k) % uint64_mod

-- arm64: the conversion saturates at 0.
abbrev pub saturating : ℕ → ℕ
saturating k = 0

-- The limiter is running: its goroutine was started and not stopped.
pub record IsRunning (l : AtomicLimiter) : Type 0 where
  pub started : l.started ≡ true
  pub open_done : l.done ≡ false
  pub in_range : l.count < uint64_mod

-- Whatever else a conversion does, it maps 0 to 0. So below a maximum of 5, where the tenth rounds
-- to 0, a tick lowers a counter by one, and leaves it alone at 0.
tick_small :
    (to_uint64 : ℕ → ℕ) (l : AtomicLimiter)
    → to_uint64 0 ≡ 0
    → IsRunning l
    → l.max < 5
    → (tick to_uint64 l).count ≡ l.count - 1
unfolding tick
tick_small to_uint64 l z r h =
    let e : (l.max + 5) / 10 ≡ 0 = omega arith in rw (tick, e, z) (ground arith)

-- With a saturating conversion a tick lowers every counter by one, not by a tenth.
tick-saturating : (l : AtomicLimiter) → IsRunning l → (tick saturating l).count ≡ l.count - 1
unfolding tick
tick-saturating l r = ground arith

-- With the two's complement conversion a tick adds the tenth less one to a counter that is not 0.
pub tick-two_complement :
    (l : AtomicLimiter)
    → IsRunning l
    → 5 ≤ l.max
    → l.count + tenth l.max ≤ uint64_mod
    → l.max < uint64_mod
    → 0 < l.count
    → (tick two_complement l).count ≡ l.count + tenth l.max - 1
unfolding tick
tick-two_complement l r five fits small pos = ground arith
