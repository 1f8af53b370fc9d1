-- ===== src/Transform/Parser/Threads/Race.antt =====
-- Two calls of `match` for one value at the same time.
use tarunner.Base.{
  ℕ, ◌≡◌, refl, ap, String, true, false, none, some, List, [], ◌∷◌, ◌++◌, length, get_elem?,
  get_elem?-append_length, ◌==◌, string_eq,
}
use tarunner.Base.Result.{ok}
use tarunner.Base.Dict.{Dict, lookup, insert, lookup-insert_self}
use tarunner.Transform.Limiter
use tarunner.Transform.Cache
use tarunner.Transform.Cache.{MemoryCache}
use tarunner.Transform.Cache.Invariant.{IsValid, room, added, store-added}
use tarunner.Transform.Parser.{Parser, cached, initial_values}
use tarunner.Transform.Parser.Coherence.{Denotes, expected}
use tarunner.Transform.Parser.Threads.{
  start, writing, finished, Memory, advance, turn_of, Event, turn, run,
}

-- The first call runs up to the write of the body, then the second reads the cache.
abbrev pub between : List Event
between = turn 0 ∷ turn 0 ∷ turn 0 ∷ turn 0 ∷ turn 1 ∷ []

module _ (p : Parser) (to_uint64 : ℕ → ℕ) (m : MemoryCache ℕ) (heap : List (Dict String))
    (value : String) (values : Dict String) where
  bare-not_expected :
      (s : Memory)
      → get_elem? s.heap (length heap) ≡ some values
      → (p.replacement == "") ≡ false
      → initial_values p value ≡ ok values
      → lookup "body" values ≡ none
      → ¬ Denotes s.heap (ok (length heap)) (expected p value)
  unfolding expected
  bare-not_expected s here present good nobody d =
      let text = p.regexp.replace_all_string value p.replacement in
      let full : get_elem? s.heap (length heap) ≡ some (insert "body" text values) =
        rw (expected, good, present) at d in
      let same : values ≡ insert "body" text values = cc in
      cc (ap (lookup "body") same, lookup-insert_self "body" text values)

  -- On a parser that takes the named groups and replaces, and whose cache is not throttled and has
  -- no entry for the value: of two calls for it, the second can return while the first is still
  -- about to write the body, and what it returns is then the map of the groups alone, which is not
  -- what the regular expression and the replacement give, where no group is named `body`.
  pub race :
      IsValid m
      → Limiter.throttled m.limiter ≡ false
      → cached (some m) value ≡ none
      → p.parse_values ≡ true
      → (p.replacement == "") ≡ false
      → initial_values p value ≡ ok values
      → lookup "body" values ≡ none
      → (s : Memory) × (run p to_uint64 between
            (record { cache = some m; heap = heap })
            (start value ∷ start value ∷ [])
          ≡ some (s, writing value (length heap) ∷ finished value (ok (length heap)) ∷ []))
        × (get_elem? s.heap (length heap) ≡ some values)
        × (¬ Denotes s.heap (ok (length heap)) (expected p value))
  unfolding run turn_of advance cached Cache.get
  race v open_ miss groups present good nobody =
      let s : Memory = record {
        cache = some (added m value (length heap));
        heap = heap ++ values ∷ [];
      } in
      let here = get_elem?-append_length heap values [] in
      (
        s,
        rw
            (
              miss,
              good,
              groups,
              open_,
              store-added m value (length heap) v,
              lookup-insert_self value (length heap) (room m).cache,
            )
            refl,
        here,
        bare-not_expected s here present good nobody,
      )
