-- ===== src/Ini.antt =====
-- What the program takes from the library gopkg.in/ini.v1, which is not part of the repository: a
-- loaded file as its sections in order, and the conversions of a key's text.
use tarunner.Base.{ℕ, String, ◌≡◌, Bool, true, false, List, ◌∷◌, ◌==◌, string_eq, All}
use tarunner.Base.Result.{Result}

pub record Key : Type 0 where
  pub name : String
  -- key.Value()
  pub value : String

pub record Section : Type 0 where
  -- section.Name()
  pub name : String
  -- section.Keys()
  pub keys : List Key
  -- section.Key(name).String(), the empty text for a missing key
  pub key_string : String → String
  -- section.Key(name).Int() and section.Key(name).Bool()
  pub key_int : String → Result ℕ
  pub key_bool : String → Result Bool

-- ini.DefaultSection
abbrev pub default_section : String
default_section = "DEFAULT"

abbrev pub is_default : Section → Bool
is_default s = s.name == default_section

-- ini.Load of a file's bytes.
abbrev pub Load : Type 0
Load = String → Result (List Section)

-- `f.Sections()` of a loaded file has the default section exactly once, as its first.
pub record HasDefaultFirst (sections : List Section) : Type 0 where
  pub rest : List Section
  pub default : Section
  pub split : sections ≡ default ∷ rest
  pub is_first : is_default default ≡ true
  pub once : All (λ s. is_default s ≡ false) rest
