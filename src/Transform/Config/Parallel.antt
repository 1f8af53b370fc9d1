-- ===== src/Transform/Config/Parallel.antt =====
-- A parser that `Build` returns, used by many goroutines at the same time.
use tarunner.Base.{ℕ, ◌≤◌, ◌≡◌, String, some, List, map, get_elem?, All}
use tarunner.Base.Result.{Result, ok}
use tarunner.Transform.Config.{Config, build}
use tarunner.Transform.Config.Build.{build_lem, build-heap}
use tarunner.Transform.Parser.{Regexp, Parser}
use tarunner.Transform.Parser.Threads.{Thread, start, finished, Memory, Event, run, memory_of}
use tarunner.Transform.Parser.Threads.Sound.{HasResult, run-HasResult}
use tarunner.Transform.Parser.Threads.Progress.{turns, run-finished}

-- Of any number of calls of `match` on a parser that `Build` returns, under every schedule of their
-- steps and of the ticks of the limiter: no step blocks, every call that has had seven turns has
-- returned, and what a call has returned is an error or a map that fits the value, or else the map
-- of its groups alone, to which a call that has not returned yet will add the body.
pub build-run :
    (parser_build : Config → Result (Unit {0})) (compile : String → Result Regexp) (c : Config)
    (p : Parser) (to_uint64 : ℕ → ℕ) (events : List Event) (values : List String)
    → build parser_build compile c ≡ ok p
    → (s : Memory) × (xs : List Thread) × (run p to_uint64 events (memory_of p) (map start values)
        ≡ some (s, xs))
      × ((i : ℕ) (value : String)
          → get_elem? values i ≡ some value
          → 7 ≤ turns i events
          → (r : Result ℕ) × (get_elem? xs i ≡ some (finished value r)))
      × All (HasResult p s.heap xs) xs
build-run parser_build compile c p to_uint64 events values e =
    let (s, xs, ran, results) =
      run-HasResult p to_uint64 events values (build_lem parser_build compile c p e).4
        (build-heap parser_build compile c p e) in
    (
      s,
      xs,
      ran,
      λ i value. run-finished p to_uint64 events (memory_of p) s values xs i value ran,
      results,
    )
