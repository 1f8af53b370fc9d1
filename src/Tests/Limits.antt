-- ===== src/Tests/Limits.antt =====
-- The limiter, at concrete counts.
use tarunner.Base.{ℕ, ◌≡◌, refl, true, false, [], ◌∷◌, arith, leb}
use tarunner.Transform.Limiter.{AtomicLimiter, new_started_atomic_limiter, tenth, throttled}
use tarunner.Transform.Limiter.Ticks.{two_complement}
use tarunner.Transform.Limiter.Counting.{increments, increments-throttled}
use tarunner.Transform.Limiter.Events.{evict, reset, run, run-throttled}

-- A started limiter of this count and maximum.
abbrev at_count : ℕ → ℕ → AtomicLimiter
at_count n max = record {
  count = n;
  max = max;
  interval = 5_000_000_000;
  started = true;
  done = false;
}

run-throttled_example :
    throttled (run two_complement (at_count 100 100) (reset ∷ evict ∷ reset ∷ [])) ≡ true
unfolding throttled tenth
run-throttled_example =
    run-throttled (reset ∷ evict ∷ reset ∷ []) (at_count 100 100)
      (record { started = refl; open_done = refl; in_range = omega arith }) (omega arith)
      (omega arith) (omega arith) refl

increments-throttled_example : throttled (increments 3 (new_started_atomic_limiter 3 0)) ≡ leb 3 3
increments-throttled_example = increments-throttled 3 0 3 (omega arith)
