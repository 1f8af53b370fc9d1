-- ===== src/Tests/Cached.antt =====
-- A cache that is used as the map that it promises.
use tarunner.Base.{ℕ, ◌+◌, ◌≡◌, refl, String, none, some, List, [], ◌∷◌, arith}
use tarunner.Base.Dict.{lookup}
use tarunner.Transform.Cache.{new_memory_cache}
use tarunner.Transform.Cache.Refines.{run, run-new_memory_cache}
use tarunner.Transform.Fifo

-- The third key evicts the first.
abbrev calls : List (String × ℕ)
calls = ("a", 1) ∷ ("a", 2) ∷ ("b", 3) ∷ ("c", 4) ∷ ("a", 5) ∷ []

run-new_memory_cache_example :
    run (new_memory_cache 2 0) calls ≡ some (Fifo.run (Fifo.empty 2 (2 + 1)) calls)
run-new_memory_cache_example = run-new_memory_cache 2 0 calls (omega arith) (omega arith)

replies : Fifo.run (Fifo.empty 2 3) calls ≡ none ∷ some 1 ∷ none ∷ none ∷ none ∷ []
unfolding Fifo.run Fifo.remember Fifo.push Fifo.empty lookup
replies = refl
