-- ===== src/Conf/Read.antt =====
-- `ReadInput`, `ReadTransforms` and `ReadProps` of internal/conf. Each makes a slice of one element
-- less than there are sections, and fills it from the sections that are not the default one. A
-- write behind the end of the slice panics: `none`.
pub mod Filled
pub mod Printed
use tarunner.Base.{
  ℕ, suc, ◌+◌, ◌-◌, String, Bool, true, false, Option, none, some, List, [], ◌∷◌, ◌++◌, map, length,
  set, replicate, ltb, starts_with, ◌==◌, string_eq, if◌then◌else◌,
}
use tarunner.Base.Optional
use tarunner.Base.Result.{Result, ok, err, ◌>>=◌}
use tarunner.Conf.Data.{Param, Stanza, Input, Transform, FieldAlias, PropsTransforms, Prop}
use tarunner.Ini.{Key, Section, Load, is_default}

-- `result[s] = v`
unfoldable pub write {ℓ} : {A : Type ℓ} → List A → ℕ → A → Option (List A)
write result s v = if ltb s (length result) then some (set result s v) else none

-- The loop that the three functions have in common, over what one section is read into.
-- `none` is a panic; an error ends the loop.
unfoldable pub fill {ℓ} :
    {A : Type ℓ} → (Section → Result A) → List Section → List A → ℕ → Option (Result (List A))
unfolding write
fill read [] result s = some (ok result)
fill read (section ∷ sections) result s =
    let skipped = fill read sections result s in
    if is_default section then skipped else elim (read section) [
      | err e ↦ some (err e)
      | ok v ↦ elim (write result s v) [
        | none ↦ none
        | some result' ↦ fill read sections result' (s + 1)
      ]
    ]

-- `make([]T, n)`, from the zero value of T: of no sections at all the length would be -1, a panic.
unfoldable pub read_all {ℓ} :
    {A : Type ℓ} → A → (Section → Result A) → List Section → Option (Result (List A))
unfolding fill
read_all zero_value read [] = none
read_all zero_value read (section ∷ sections) =
    fill read (section ∷ sections) (replicate (length (section ∷ sections) - 1) zero_value) 0

unfoldable pub param_of_key : Key → Param
param_of_key key = record { name = key.name; value = key.value }

unfoldable pub input_of_section : Section → Input
unfolding param_of_key
input_of_section section = record {
  server_host = "";
  server_uri = "";
  session_key = "";
  checkpoint_dir = "";
  stanza = record { name = section.name; app = "tarunner"; params = map param_of_key section.keys };
}

abbrev pub no_input : Input
no_input = record {
  server_host = "";
  server_uri = "";
  session_key = "";
  checkpoint_dir = "";
  stanza = record { name = ""; app = ""; params = [] };
}

unfoldable pub read_input : Load → String → Option (Result (List Input))
unfolding read_all
read_input load payload = elim (load payload) [
  | err e ↦ some (err e)
  | ok sections ↦ read_all no_input (λ s. ok (input_of_section s)) sections
]

unfoldable pub transform_of_section : Section → Transform
transform_of_section section = record {
  name = section.name;
  regex = section.key_string "REGEX";
  format = section.key_string "FORMAT";
}

abbrev pub no_transform : Transform
no_transform = record { name = ""; regex = ""; format = "" }

unfoldable pub read_transforms : Load → String → Option (Result (List Transform))
unfolding read_all
read_transforms load payload = elim (load payload) [
  | err e ↦ some (err e)
  | ok sections ↦ read_all no_transform (λ s. ok (transform_of_section s)) sections
]
