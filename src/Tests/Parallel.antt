-- ===== src/Tests/Parallel.antt =====
-- Two calls of `match` at the same time on the parser of a small configuration.
use tarunner.Base.{
  ℕ, ◌≤◌, ◌≡◌, refl, String, true, false, none, some, List, [], ◌∷◌, map, get_elem?, All, arith,
}
use tarunner.Base.Result.{Result, ok}
use tarunner.Base.Dict.{lookup}
use tarunner.Transform.Limiter
use tarunner.Transform.Limiter.{new_started_atomic_limiter}
use tarunner.Transform.Cache
use tarunner.Transform.Cache.{MemoryCache, new_memory_cache}
use tarunner.Transform.Cache.Invariant.{new_memory_cache-IsValid}
use tarunner.Transform.Config.{Config, build, build_parser, named_capture_groups}
use tarunner.Transform.Config.Build.{build_lem}
use tarunner.Transform.Config.Parallel.{build-run}
use tarunner.Transform.Parser.{Regexp, Parser, cached, initial_values}
use tarunner.Transform.Parser.Coherence.{IsCoherent, Denotes, expected}
use tarunner.Transform.Parser.Threads.{
  Thread, start, writing, finished, Memory, Event, turn, limiter_tick, run, memory_of,
}
use tarunner.Transform.Parser.Threads.Sound.{HasResult}
use tarunner.Transform.Parser.Threads.Progress.{turns}
use tarunner.Transform.Parser.Threads.Race.{between, race}
use tarunner.Transform.Parser.Threads.Solo.{alone, alone-expected}

-- A regular expression with the named group `user` that takes in the whole value.
abbrev whole : Regexp
whole = record {
  subexp_names = "" ∷ "user" ∷ [];
  match_values = λ value. ok (("user", value) ∷ []);
  replace_all_string = λ value replacement. replacement;
}

abbrev config : Config
config = record {
  operator_id = "transforms-x";
  regex = "(?P<user>.*)";
  replacement = "hidden";
  cache_size = 2;
}

abbrev parser : Parser
parser = record {
  regexp = whole;
  replacement = "hidden";
  parse_values = true;
  cache = some (new_memory_cache 2 0);
  heap = [];
}

built : build (λ c. ok tt) (λ regex. ok whole) config ≡ ok parser
unfolding build build_parser named_capture_groups
built = refl

-- Nothing is below 0 to convert.
abbrev to_uint64 : ℕ → ℕ
to_uint64 k = 0

abbrev events : List Event
events =
    turn 0
    ∷ turn 1
    ∷ turn 0
    ∷ limiter_tick
    ∷ turn 1
    ∷ turn 0
    ∷ turn 0
    ∷ turn 0
    ∷ turn 0
    ∷ turn 0
    ∷ []

build-run_example :
    (s : Memory) × (xs : List Thread) × (run parser to_uint64 events
        (memory_of parser)
        (map start ("ann" ∷ "ann" ∷ []))
      ≡ some (s, xs))
    × ((i : ℕ) (value : String)
        → get_elem? ("ann" ∷ "ann" ∷ []) i ≡ some value
        → 7 ≤ turns i events
        → (r : Result ℕ) × (get_elem? xs i ≡ some (finished value r)))
    × All (HasResult parser s.heap xs) xs
build-run_example =
    build-run (λ c. ok tt) (λ regex. ok whole) config parser to_uint64 events ("ann" ∷ "ann" ∷ [])
      built

enough : turns 0 events ≡ 7
unfolding turns
enough = refl

abbrev cache : MemoryCache ℕ
cache = new_memory_cache 2 0

open_ : Limiter.throttled cache.limiter ≡ false
unfolding Limiter.throttled new_memory_cache new_started_atomic_limiter Limiter.init
open_ = refl

miss : cached (some cache) "ann" ≡ none
unfolding cached Cache.get new_memory_cache lookup
miss = refl

groups : initial_values parser "ann" ≡ ok (("user", "ann") ∷ [])
unfolding initial_values
groups = refl

nobody : lookup {V = String} "body" (("user", "ann") ∷ []) ≡ none
unfolding lookup
nobody = refl

race_example :
    (s : Memory) × (run parser to_uint64 between
        (record { cache = some cache; heap = [] })
        (start "ann" ∷ start "ann" ∷ [])
      ≡ some (s, writing "ann" 0 ∷ finished "ann" (ok 0) ∷ []))
    × (get_elem? s.heap 0 ≡ some (("user", "ann") ∷ []))
    × (¬ Denotes s.heap (ok 0) (expected parser "ann"))
race_example =
    race parser to_uint64 cache [] "ann" (("user", "ann") ∷ [])
      (new_memory_cache-IsValid 2 0 (omega arith)) open_ miss refl refl groups nobody

alone-expected_example :
    (q : Parser) × (r : Result ℕ) × (alone parser 7 (memory_of parser) (start "ann")
      ≡ some (memory_of q, finished "ann" r))
    × IsCoherent q
    × Denotes q.heap r (expected parser "ann")
    × (expected q ≡ expected parser)
alone-expected_example =
    alone-expected parser "ann" (build_lem (λ c. ok tt) (λ regex. ok whole) config parser built).4
