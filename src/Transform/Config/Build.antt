-- ===== src/Transform/Config/Build.antt =====
-- What `Build` guarantees of the parser that it returns.
use tarunner.Base.{
  ℕ, ◌≡◌, refl, ap, ◌⊎◌, inl, inr, ◌≢◌, String, true, Option, none, some, List, [], ◌∷◌, ltb, ◌==◌,
  nat_eq, string_eq, if◌then◌else◌, arith, eq_iff, Bool-cases,
}
use tarunner.Base.Result.{Result, ok, err, >>=-eq-ok}
use tarunner.Base.Optional
use tarunner.Base.Dict.{lookup}
use tarunner.Transform.Cache
use tarunner.Transform.Cache.{MemoryCache}
use tarunner.Transform.Cache.Invariant.{new_memory_cache-IsValid}
use tarunner.Transform.Parser.{Regexp, Parser, cached, match}
use tarunner.Transform.Parser.Coherence.{
  IsCoherent, IsValidCache, Denotes, expected, match-expected,
}
use tarunner.Transform.Config.{Config, wrap_compile, build_parser, build}

abbrev new_cache : ℕ → Option (MemoryCache ℕ)
new_cache size = if ltb 0 size then some (Cache.new_memory_cache size 0) else none

new_cache-IsValidCache : (size : ℕ) → IsValidCache (new_cache size)
new_cache-IsValidCache size = elim (Bool-cases (ltb 0 size)) [
  | inl some' ↦ rw some' (new_memory_cache-IsValid size 0 (ground arith))
  | inr none' ↦ rw none' tt
]

cached-new_cache : (size : ℕ) (value : String) → cached (new_cache size) value ≡ none
unfolding cached Cache.get Cache.new_memory_cache lookup
cached-new_cache size value = ground arith

new_cache-IsCoherent : (p : Parser) (size : ℕ) → p.cache ≡ new_cache size → IsCoherent p
new_cache-IsCoherent p size e = record {
  valid = rw e (new_cache-IsValidCache size);
  entries = λ value ref found. cc (cached-new_cache size value, ap (λ c. cached c value) e);
}

build_parser_lem :
    (c : Config) (r : Regexp) (p : Parser)
    → build_parser c r ≡ ok p
    → (r ≡ p.regexp)
      × (p.replacement ≡ c.replacement)
      × ((p.parse_values ≡ true) ⊎ (p.replacement ≢ ""))
      × (p.cache ≡ new_cache c.cache_size)
unfolding build_parser
build_parser_lem c r p e = ground (arith, eq_iff c.replacement "")

wrap_compile-eq-ok : (x : Result Regexp) {r : Regexp} → wrap_compile x ≡ ok r → x ≡ ok r
wrap_compile-eq-ok (ok r) h = h
wrap_compile-eq-ok (err e) h = cc

-- A parser that `Build` returns has the compiled expression and the configured replacement; it
-- parses named groups, replaces, or does both, never neither; and its cache is coherent.
pub build_lem :
    (parser_build : Config → Result (Unit {0})) (compile : String → Result Regexp) (c : Config)
    (p : Parser)
    → build parser_build compile c ≡ ok p
    → (compile c.regex ≡ ok p.regexp)
      × (c.regex ≢ "")
      × (p.replacement ≡ c.replacement)
      × ((p.parse_values ≡ true) ⊎ (p.replacement ≢ ""))
      × IsCoherent p
unfolding build
build_lem parser_build compile c p e =
    let (_, _, later) = >>=-eq-ok (parser_build c) _ e in
    elim (Bool-cases (c.regex == "")) [
      | inl missing ↦ cc (rw missing at later)
      | inr present ↦
          let (r, compiled, built) =
            >>=-eq-ok (wrap_compile (compile c.regex)) (build_parser c) (rw present at later) in
          let (same, replacement, useful, cache) = build_parser_lem c r p built in
          (
            rw (wrap_compile-eq-ok (compile c.regex) compiled) (ap ok same),
            ground (arith, eq_iff c.regex ""),
            replacement,
            useful,
            new_cache-IsCoherent p c.cache_size cache,
          )
    ]

build_parser-heap : (c : Config) (r : Regexp) (p : Parser) → build_parser c r ≡ ok p → p.heap ≡ []
unfolding build_parser
build_parser-heap c r p e = ground (arith, eq_iff c.replacement "")

-- No map has been made yet.
pub build-heap :
    (parser_build : Config → Result (Unit {0})) (compile : String → Result Regexp) (c : Config)
    (p : Parser)
    → build parser_build compile c ≡ ok p
    → p.heap ≡ []
unfolding build
build-heap parser_build compile c p e =
    let (_, _, later) = >>=-eq-ok (parser_build c) _ e in
    elim (Bool-cases (c.regex == "")) [
      | inl missing ↦ cc (rw missing at later)
      | inr present ↦
          let (r, _, built) =
            >>=-eq-ok (wrap_compile (compile c.regex)) (build_parser c) (rw present at later) in
          build_parser-heap c r p built
    ]

-- Calls of `match` in turn, the results thrown away.
unfoldable pub match_all : Parser → List String → Option Parser
match_all p [] = some p
match_all p (value ∷ values) = Optional.◌>>=◌ (match p value) λ r. match_all r.0 values

match_all-expected :
    (values : List String) (p : Parser) (value : String)
    → IsCoherent p
    → (p' p'' : Parser) × (r : Result ℕ) × (match_all p values ≡ some p')
      × (match p' value ≡ some (p'', r))
      × Denotes p''.heap r (expected p value)
unfolding match_all
match_all-expected [] p value h =
    let (p'', r, e, _, d, _) = match-expected p value h in (p, p'', r, refl, e, d)
match_all-expected (v ∷ values) p value h =
    let (q, s, e, h', _, same) = match-expected p v h in
    let (p', p'', r, run, last, d) = match_all-expected values q value h' in
    (p', p'', r, rw e run, last, rw same at d)

-- Whatever values a built parser has matched before, and whatever size its cache has, the next
-- match returns what the regular expression and the replacement give for the value.
pub build-match_all :
    (parser_build : Config → Result (Unit {0})) (compile : String → Result Regexp) (c : Config)
    (p : Parser) (values : List String) (value : String)
    → build parser_build compile c ≡ ok p
    → (p' p'' : Parser) × (r : Result ℕ) × (match_all p values ≡ some p')
      × (match p' value ≡ some (p'', r))
      × Denotes p''.heap r (expected p value)
build-match_all parser_build compile c p values value e =
    match_all-expected values p value (build_lem parser_build compile c p e).4
