-- ===== src/Transform/Limiter/Counting.antt =====
-- What a limiter counts between two ticks.
use tarunner.Base.{ℕ, zero, suc, ◌+◌, ◌≤◌, ◌<◌, ◌≡◌, arith, leb, nat_eq}
use tarunner.Transform.Limiter.{
  AtomicLimiter, uint64_mod, new_started_atomic_limiter, increment, throttled,
}

-- The bound that `increment` keeps and the wrap-around needs.
pub record IsValid (l : AtomicLimiter) : Type 0 where
  pub bounded : l.count ≤ l.max
  pub fits : l.max < uint64_mod

pub new_started_atomic_limiter-IsValid :
    (max_val interval : ℕ)
    → max_val < uint64_mod
    → IsValid (new_started_atomic_limiter max_val interval)
unfolding new_started_atomic_limiter
new_started_atomic_limiter-IsValid max_val interval h = ground arith

pub increment-IsValid : (l : AtomicLimiter) → IsValid l → IsValid (increment l)
unfolding increment
increment-IsValid l v = ground arith

-- n evictions in a row.
unfoldable pub increments : ℕ → AtomicLimiter → AtomicLimiter
increments zero l = l
increments (suc n) l = increments n (increment l)

increments-throttled_from :
    (n : ℕ) (l : AtomicLimiter) → IsValid l → throttled (increments n l) ≡ leb l.max (l.count + n)
unfolding increments throttled increment
increments-throttled_from zero l v = ground arith
increments-throttled_from (suc n) l v =
    ground (arith, increments-throttled_from n (increment l) (increment-IsValid l v))

-- Without ticks, a new limiter is throttled after n evictions exactly when n has reached the
-- maximum; the counter stops there and never wraps around.
pub increments-throttled :
    (max_val interval n : ℕ)
    → max_val < uint64_mod
    → throttled (increments n (new_started_atomic_limiter max_val interval)) ≡ leb max_val n
unfolding new_started_atomic_limiter
increments-throttled max_val interval n h =
    rw
      (increments-throttled_from n (new_started_atomic_limiter max_val interval)
        (new_started_atomic_limiter-IsValid max_val interval h))
      (ground arith)
