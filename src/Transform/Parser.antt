-- ===== src/Transform/Parser.antt =====
-- `Parser` of internal/operator/transform/parser.go. Maps are shared by reference, between the
-- cache and the results, so they live on a heap, and a value is an index into it.
-- `regexp.Regexp` and `helper.MatchValues` are not part of the repository: a record of functions.
-- The values of the maps are texts, which is what a regular expression's groups give.
pub mod Coherence
pub mod Threads
use tarunner.Base.{
  ℕ, String, Bool, true, false, Option, none, some, List, [], ◌∷◌, ◌++◌, length, set, get_elem?,
  ◌==◌, string_eq, if◌then◌else◌,
}
use tarunner.Base.Result.{Result, ok, err, Error, not_a_string}
use tarunner.Base.Optional.{◌>>=◌}
use tarunner.Base.Dict.{Dict, insert}
use tarunner.Transform.Cache
use tarunner.Transform.Cache.{MemoryCache}

pub record Regexp : Type 0 where
  -- r.SubexpNames()
  pub subexp_names : List String
  -- helper.MatchValues(value, r)
  pub match_values : String → Result (Dict String)
  -- r.ReplaceAllString(value, replacement)
  pub replace_all_string : String → String → String

pub record Parser : Type 0 where
  pub regexp : Regexp
  pub replacement : String
  pub parse_values : Bool
  pub cache : Option (MemoryCache ℕ)
  pub heap : List (Dict String)

-- `p.cache.get(value)`, with the test for a nil cache.
unfoldable pub cached : Option (MemoryCache ℕ) → String → Option ℕ
cached none value = none
cached (some m) value = Cache.get m value

-- `if p.cache != nil { p.cache.add(value, parsedValues) }`: the result of `add` is not looked at.
unfoldable pub cache_add : Option (MemoryCache ℕ) → String → ℕ → Option (Option (MemoryCache ℕ))
cache_add none value ref = some none
cache_add (some m) value ref = do (m', _) ← Cache.add m value ref; some (some m')

unfoldable pub allocate : Parser → Dict String → Parser
allocate p values = record p { heap = p.heap ++ values ∷ [] }

abbrev pub at_ref : List (Dict String) → ℕ → Dict String
at_ref heap ref = elim (get_elem? heap ref) [ none ↦ [] | some values ↦ values ]

-- `parsedValues["body"] = …` writes through the reference, which the cache may hold already.
unfoldable pub write_body : Parser → ℕ → String → Parser
write_body p ref text = record p { heap = set p.heap ref (insert "body" text (at_ref p.heap ref)) }

unfoldable pub remember : Parser → String → ℕ → Option Parser
remember p value ref = do c ← cache_add p.cache value ref; some (record p { cache = c })

-- The map that the two `if`s start from: the values of the groups, or an empty map.
unfoldable pub initial_values : Parser → String → Result (Dict String)
initial_values p value = if p.parse_values then p.regexp.match_values value else ok []

unfoldable pub after_parse : Parser → String → ℕ → Option Parser
after_parse p value ref = if p.parse_values then remember p value ref else some p

unfoldable pub after_replace : Parser → String → ℕ → Option Parser
after_replace p value ref =
    if p.replacement == ""
    then some p
    else remember (write_body p ref (p.regexp.replace_all_string value p.replacement)) value ref

unfoldable pub compute : Parser → String → Option (Parser × Result ℕ)
compute p value = elim (initial_values p value) [
  | err e ↦ some (p, err e)
  | ok values ↦ do
    let ref = length p.heap
    p₁ ← after_parse (allocate p values) value ref
    p₂ ← after_replace p₁ value ref
    some (p₂, ok ref)
]

-- `none` is a call that blocks forever.
unfoldable pub match : Parser → String → Option (Parser × Result ℕ)
unfolding compute
match p value = elim (cached p.cache value) [ some ref ↦ some (p, ok ref) | none ↦ compute p value ]

-- The dynamic type of a value matters only in so far as it is a string.
pub data Any : Type 0 where
  text : String → Any
  other : Any

unfoldable pub parse : Parser → Any → Option (Parser × Result ℕ)
unfolding match
parse p (text raw) = match p raw
parse p other = some (p, err not_a_string)

unfoldable pub stop : Parser → Option Parser
stop p = elim p.cache [
  | none ↦ some p
  | some m ↦ do m' ← Cache.stop m; some (record p { cache = some m' })
]
