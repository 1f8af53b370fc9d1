-- ===== src/Transform/Parser/Threads.antt =====
-- Calls of `match` of internal/operator/transform/parser.go that run at the same time on one parser,
-- in the steps that other goroutines can come between: the read of the cache, the making of the map,
-- the test of the limiter, which `add` makes before it takes the mutex, the part of `add` under the
-- mutex, and the write of the body into the map, which the cache may have given away already.
pub mod Holds
pub mod Keeps
pub mod Makes
pub mod Writes
pub mod Sound
pub mod Progress
pub mod Race
pub mod Solo
use tarunner.Base.{
  ℕ, zero, suc, String, Bool, true, false, Option, none, some, List, [], ◌∷◌, ◌++◌, map, length,
  set, get_elem?, ◌==◌, string_eq, if◌then◌else◌,
}
use tarunner.Base.Result.{Result, ok, err}
use tarunner.Base.Optional.{◌>>=◌}
use tarunner.Base.Dict.{Dict, insert}
use tarunner.Transform.Limiter
use tarunner.Transform.Cache
use tarunner.Transform.Cache.{MemoryCache}
use tarunner.Transform.Parser.{Parser, at_ref, cached, initial_values}

-- Where a call for a value stands. The flag of `adding` and `locking` is whether it is the second
-- `add`, behind the write of the body.
pub data Thread : Type 0 where
  start : String → Thread
  missed : String → Thread
  adding : Bool → String → ℕ → Thread
  locking : Bool → String → ℕ → Thread
  writing : String → ℕ → Thread
  finished : String → Result ℕ → Thread

-- What the calls share. The other fields of the parser are only read.
pub record Memory : Type 0 where
  pub cache : Option (MemoryCache ℕ)
  pub heap : List (Dict String)

-- Behind an `add`.
abbrev pub after_add : Bool → String → ℕ → Thread
after_add true value ref = finished value (ok ref)
after_add false value ref = writing value ref

-- The test of the limiter: a throttled `add` is over.
abbrev pub check : Option (MemoryCache ℕ) → Bool → String → ℕ → Thread
check none second value ref = after_add second value ref
check (some m) second value ref =
    if Limiter.throttled m.limiter then after_add second value ref else locking second value ref

-- The part of `add` under the mutex.
abbrev pub store_in : Option (MemoryCache ℕ) → String → ℕ → Option (Option (MemoryCache ℕ))
store_in none value ref = some none
store_in (some m) value ref = do m' ← Cache.store m value ref; some (some m')

module _ (p : Parser) where
  abbrev pub made : Memory → String → Result (Dict String) → Memory × Thread
  made s value (err e) = (s, finished value (err e))
  made s value (ok values) = (
    record s { heap = s.heap ++ values ∷ [] },
    if p.parse_values then adding false value (length s.heap) else writing value (length s.heap),
  )

  abbrev pub looked_up : String → Option ℕ → Thread
  looked_up value none = missed value
  looked_up value (some ref) = finished value (ok ref)

  -- One step of a call; `none` is a step that blocks forever.
  unfoldable pub advance : Memory → Thread → Option (Memory × Thread)
  advance s (start value) = some (s, looked_up value (cached s.cache value))
  advance s (missed value) = some (made s value (initial_values p value))
  advance s (adding second value ref) = some (s, check s.cache second value ref)
  advance s (locking second value ref) = do
    c ← store_in s.cache value ref
    some (record s { cache = c }, after_add second value ref)
  advance s (writing value ref) =
      if p.replacement == ""
      then some (s, finished value (ok ref))
      else some (
        record s {
          heap =
              set s.heap ref (
                insert "body" (p.regexp.replace_all_string value p.replacement)
                  (at_ref s.heap ref));
        },
        adding true value ref,
      )
  advance s (finished value r) = some (s, finished value r)

  -- A turn of one of the threads; of one that is not there, nothing.
  unfoldable pub turn_of : ℕ → Memory → List Thread → Option (Memory × List Thread)
  unfolding advance
  turn_of i s [] = some (s, [])
  turn_of zero s (x ∷ xs) = do (s', x') ← advance s x; some (s', x' ∷ xs)
  turn_of (suc i) s (x ∷ xs) = do (s', xs') ← turn_of i s xs; some (s', x ∷ xs')

-- A tick of the limiter, with the conversion of `Limiter.tick`.
unfoldable pub ticked : (ℕ → ℕ) → Option (MemoryCache ℕ) → Option (MemoryCache ℕ)
ticked to_uint64 none = none
ticked to_uint64 (some m) = some (record m { limiter = Limiter.tick to_uint64 m.limiter })

-- What comes next: a turn of a thread, or a tick.
pub data Event : Type 0 where
  turn : ℕ → Event
  limiter_tick : Event

module _ (p : Parser) (to_uint64 : ℕ → ℕ) where
  unfoldable pub run : List Event → Memory → List Thread → Option (Memory × List Thread)
  unfolding turn_of ticked
  run [] s xs = some (s, xs)
  run (turn i ∷ events) s xs = do (s', xs') ← turn_of p i s xs; run events s' xs'
  run (limiter_tick ∷ events) s xs = run events (record s { cache = ticked to_uint64 s.cache }) xs

-- The memory of a parser, as `Build` makes it.
abbrev pub memory_of : Parser → Memory
memory_of p = record { cache = p.cache; heap = p.heap }
