-- ===== src/Transform/Limiter.antt =====
-- `atomicLimiter` of internal/operator/transform/cache.go. Each method is one atomic step on the
-- record; `tick` is one round of the reset goroutine that `init` starts.
-- The counter is a uint64. Go leaves the conversion of a negative float to uint64 to the
-- implementation, so the conversion is the parameter `to_uint64`: `to_uint64 k` is what
-- `uint64(x)` gives for the float x = -k.
pub mod Counting
pub mod Ticks
pub mod Events
use tarunner.Base.{
  ℕ, ◌+◌, ◌-◌, ◌*◌, ◌/◌, ◌%◌, ◌^◌, Bool, true, false, Option, none, some, not, ◌&&◌, ltb, leb, ◌==◌,
  nat_eq, if◌then◌else◌,
}

abbrev pub uint64_mod : ℕ
uint64_mod = 2 ^ 64

pub record AtomicLimiter : Type 0 where
  pub count : ℕ
  pub max : ℕ
  -- A time.Duration, in nanoseconds, as its bit pattern.
  pub interval : ℕ
  -- `sync.Once` has run, so that the goroutine was started.
  pub started : Bool
  -- The channel `done` is closed.
  pub done : Bool

-- `init`: only the first call starts the goroutine.
unfoldable pub init : AtomicLimiter → AtomicLimiter
init l = if l.started then l else record l { started = true }

unfoldable pub new_started_atomic_limiter : ℕ → ℕ → AtomicLimiter
unfolding init
new_started_atomic_limiter max_val interval =
    let interval' = if interval == 0 then 5 else interval in
    init (record {
      count = 0;
      max = max_val;
      interval = 1_000_000_000 * interval' % uint64_mod;
      started = false;
      done = false;
    })

unfoldable pub current_count : AtomicLimiter → ℕ
current_count l = l.count

unfoldable pub limit : AtomicLimiter → ℕ
limit l = l.max

unfoldable pub reset_interval : AtomicLimiter → ℕ
reset_interval l = l.interval

unfoldable pub increment : AtomicLimiter → AtomicLimiter
increment l = if l.count == l.max then l else record l { count = (l.count + 1) % uint64_mod }

unfoldable pub throttled : AtomicLimiter → Bool
unfolding current_count
throttled l = leb l.max (current_count l)

-- math.Round(-0.10 * float64(max)) is minus this. The two agree for every max up to 65536, the
-- largest that a cache asks for.
unfoldable pub tenth : ℕ → ℕ
tenth max = (max + 5) / 10

-- `^y` of a uint64.
unfoldable pub complement : ℕ → ℕ
complement y = uint64_mod - 1 - y

-- One firing of the ticker. The goroutine is there if `init` started it and `done` is open.
unfoldable pub tick : (ℕ → ℕ) → AtomicLimiter → AtomicLimiter
unfolding current_count tenth complement
tick to_uint64 l =
    if l.started && not l.done && ltb 0 (current_count l)
    then record l { count = (l.count + complement (to_uint64 (tenth l.max))) % uint64_mod }
    else l

-- `close(l.done)` panics on a closed channel: `none`.
unfoldable pub stop : AtomicLimiter → Option AtomicLimiter
stop l = if l.done then none else some (record l { done = true })
