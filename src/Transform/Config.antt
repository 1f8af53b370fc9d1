-- ===== src/Transform/Config.antt =====
-- `Config` of internal/operator/transform/config.go. The embedded `helper.ParserConfig` is the
-- identifier, which the source chooses, and what its own `Build` gives, which it does not.
-- `%q` of the fmt package is the parameter `quote`; `regexp.Compile` is the parameter `compile`.
pub mod Build
pub mod Parallel
use tarunner.Base.{
  ℕ, suc, String, ◌<>◌, Bool, true, false, Option, none, some, List, [], ◌∷◌, ltb, ◌==◌, ◌&&◌,
  nat_eq, string_eq, if◌then◌else◌, not,
}
use tarunner.Base.Result.{
  Result, ok, err, Error, missing_regex, compiling_regex, no_named_capture_groups, ◌>>=◌,
}
use tarunner.Conf.Data.{Transform}
use tarunner.Transform.Cache
use tarunner.Transform.Parser.{Regexp, Parser}

pub record Config : Type 0 where
  pub operator_id : String
  pub regex : String
  pub replacement : String
  -- Cache.Size, a uint16
  pub cache_size : ℕ

-- Nothing in the repository sets `cache_size`: a transform of a TA runs without a cache.
unfoldable pub new_config : (String → String) → String → Transform → Config
new_config quote scope t = record {
  operator_id = "transforms-" <> quote scope <> "-" <> quote t.name;
  regex = t.regex;
  replacement = t.format;
  cache_size = 0;
}

unfoldable pub named_capture_groups : List String → ℕ
named_capture_groups [] = 0
named_capture_groups (group_name ∷ names) =
    let rest = named_capture_groups names in if not (group_name == "") then suc rest else rest

-- The steps of `Build` after the regular expression has compiled.
unfoldable pub build_parser : Config → Regexp → Result Parser
build_parser c r =
    let groups = named_capture_groups r.subexp_names in
    if groups == 0 && c.replacement == ""
    then err no_named_capture_groups
    else ok (record {
      regexp = r;
      replacement = c.replacement;
      parse_values = ltb 0 groups;
      cache = if ltb 0 c.cache_size then some (Cache.new_memory_cache c.cache_size 0) else none;
      heap = [];
    })

abbrev pub wrap_compile : Result Regexp → Result Regexp
wrap_compile (ok r) = ok r
wrap_compile (err e) = err (compiling_regex e)

-- `parser_build` is `c.ParserConfig.Build(set)`.
unfoldable pub build :
    (Config → Result (Unit {0})) → (String → Result Regexp) → Config → Result Parser
unfolding build_parser
build parser_build compile c = do
  _ ← parser_build c
  if c.regex == ""
      then err missing_regex
      else (do r ← wrap_compile (compile c.regex); build_parser c r)
