-- ===== src/Tests/Transforms.antt =====
-- The cache and the parser of internal/operator/transform on a cache of two entries.
use tarunner.Base.{ℕ, ◌≡◌, refl, String, true, some, [], ◌∷◌, string_eq}
use tarunner.Base.Result.{Result, ok}
use tarunner.Transform.Cache.{new_memory_cache}
use tarunner.Transform.Parser.{Regexp, Parser, match}
use tarunner.Transform.Parser.Coherence.{Denotes, expected}
use tarunner.Transform.Config.{Config, build, build_parser, named_capture_groups}
use tarunner.Transform.Config.Build.{match_all, build-match_all}

abbrev key_a : String
key_a = "a"

-- A regular expression with the named group `user` that takes in the whole value.
abbrev whole : Regexp
whole = record {
  subexp_names = "" ∷ "user" ∷ [];
  match_values = λ value. ok (("user", value) ∷ []);
  replace_all_string = λ value replacement. replacement;
}

abbrev compile : String → Result Regexp
compile regex = ok whole

abbrev config : Config
config = record {
  operator_id = "transforms-x";
  regex = "(?P<user>.*)";
  replacement = "hidden";
  cache_size = 2;
}

abbrev parser : Parser
parser = record {
  regexp = whole;
  replacement = "hidden";
  parse_values = true;
  cache = some (new_memory_cache 2 0);
  heap = [];
}

built : build (λ c. ok tt) compile config ≡ ok parser
unfolding build build_parser named_capture_groups
built = refl

build-match_all_example :
    (p' p'' : Parser) × (r : Result ℕ) × (match_all parser ("ann" ∷ "bob" ∷ "ann" ∷ []) ≡ some p')
    × (match p' "bob" ≡ some (p'', r))
    × Denotes p''.heap r (expected parser "bob")
build-match_all_example =
    build-match_all (λ c. ok tt) compile config parser ("ann" ∷ "bob" ∷ "ann" ∷ []) "bob" built
