-- ===== src/Conf/Read/Printed.antt =====
-- `ReadInput` and `ReadTransforms` of internal/conf on the files that print given records.
use tarunner.Base.{
  ℕ, String, ◌≡◌, refl, ap, Bool, false, some, List, [], ◌∷◌, map, All, ◌==◌, string_eq,
  if◌then◌else◌,
}
use tarunner.Base.Result.{Result, ok, err, external}
use tarunner.Conf.Data.{Param, Input, Transform}
use tarunner.Conf.Read.{
  read_all, param_of_key, input_of_section, no_input, read_input, transform_of_section,
  no_transform, read_transforms,
}
use tarunner.Conf.Read.Filled.{read_each, read_each-ok, read_all-read_each}
use tarunner.Ini.{Key, Section, Load, is_default, default_section, HasDefaultFirst}

-- The value of the first key of the name.
unfoldable pub value_of : String → List Key → String
value_of name [] = ""
value_of name (key ∷ keys) = if key.name == name then key.value else value_of name keys

-- A section of the given keys, with the conversions of numbers and truth values.
abbrev pub section_of : (String → Result ℕ) → (String → Result Bool) → String → List Key → Section
section_of to_int to_bool name keys = record {
  name = name;
  keys = keys;
  key_string = λ k. value_of k keys;
  key_int = λ k. to_int (value_of k keys);
  key_bool = λ k. to_bool (value_of k keys);
}

-- Sections that hold no numbers and no truth values.
abbrev pub text_section : String → List Key → Section
text_section = section_of (λ s. err (external s)) (λ s. err (external s))

abbrev pub default_first : List Section → List Section
default_first sections = text_section default_section [] ∷ sections

module _ {ℓ} {A : Type ℓ} (read : Section → Result A) (print : A → Section) where
  abbrev pub IsPrinted : A → Type ℓ
  IsPrinted x = (is_default (print x) ≡ false) × (read (print x) ≡ ok x)

  read_each-print : (xs : List A) → All IsPrinted xs → read_each read (map print xs) ≡ ok xs
  unfolding read_each
  read_each-print [] h = refl
  read_each-print (x ∷ xs) ((_, h), hs) =
      rw (read_each-ok read (print x) (map print xs) x h, read_each-print xs hs) refl

  All-is_default : (xs : List A) → All IsPrinted xs → All (λ s. is_default s ≡ false) (map print xs)
  All-is_default [] h = tt
  All-is_default (x ∷ xs) ((d, _), hs) = (d, All-is_default xs hs)

  default_first-HasDefaultFirst :
      (xs : List A) → All IsPrinted xs → HasDefaultFirst (default_first (map print xs))
  default_first-HasDefaultFirst xs h = record {
    rest = map print xs;
    default = text_section default_section [];
    split = refl;
    is_first = refl;
    once = All-is_default xs h;
  }

  pub read_all-default_first :
      (z : A) (xs : List A)
      → All IsPrinted xs
      → read_all z read (default_first (map print xs)) ≡ some (ok xs)
  unfolding default_first-HasDefaultFirst
  read_all-default_first z xs h =
      rw
        (read_all-read_each read z (default_first (map print xs))
          (default_first-HasDefaultFirst xs h))
        (rw (read_each-print xs h) refl)

abbrev key_of_param : Param → Key
key_of_param p = record { name = p.name; value = p.value }

abbrev pub section_of_input : Input → Section
section_of_input i = text_section i.stanza.name (map key_of_param i.stanza.params)

-- What a file can say of an input.
pub record IsPlain (i : Input) : Type 0 where
  pub named : (i.stanza.name == default_section) ≡ false
  pub app : i.stanza.app ≡ "tarunner"
  pub server_host : i.server_host ≡ ""
  pub server_uri : i.server_uri ≡ ""
  pub session_key : i.session_key ≡ ""
  pub checkpoint_dir : i.checkpoint_dir ≡ ""

param_of_key-key_of_param : (ps : List Param) → map param_of_key (map key_of_param ps) ≡ ps
unfolding param_of_key
param_of_key-key_of_param [] = refl
param_of_key-key_of_param (p ∷ ps) = ap (p ∷◌) (param_of_key-key_of_param ps)

input_of_section-section_of_input :
    (i : Input) → IsPlain i → input_of_section (section_of_input i) ≡ i
unfolding input_of_section
input_of_section-section_of_input i h = cc (
  param_of_key-key_of_param i.stanza.params,
  h.app,
  h.server_host,
  h.server_uri,
  h.session_key,
  h.checkpoint_dir,
)

IsPlain-IsPrinted :
    (inputs : List Input)
    → All IsPlain inputs
    → All (IsPrinted (λ s. ok (input_of_section s)) section_of_input) inputs
IsPlain-IsPrinted [] h = tt
IsPlain-IsPrinted (i ∷ inputs) (h, hs) =
    ((h.named, ap ok (input_of_section-section_of_input i h)), IsPlain-IsPrinted inputs hs)

-- `ReadInput` of a file that has, behind the default section, a section for each of some inputs
-- gives back these inputs, in order.
pub read_input-section_of_input :
    (load : Load) (payload : String) (inputs : List Input)
    → load payload ≡ ok (default_first (map section_of_input inputs))
    → All IsPlain inputs
    → read_input load payload ≡ some (ok inputs)
unfolding read_input
read_input-section_of_input load payload inputs e h =
    rw (read_input, e)
      (read_all-default_first (λ s. ok (input_of_section s)) section_of_input no_input inputs
        (IsPlain-IsPrinted inputs h))

abbrev pub section_of_transform : Transform → Section
section_of_transform t =
    text_section t.name (
      record { name = "REGEX"; value = t.regex }
      ∷ record { name = "FORMAT"; value = t.format }
      ∷ [])

transforms-IsPrinted :
    (transforms : List Transform)
    → All (λ (t : Transform). (t.name == default_section) ≡ false) transforms
    → All (IsPrinted (λ s. ok (transform_of_section s)) section_of_transform) transforms
unfolding transform_of_section value_of
transforms-IsPrinted [] h = tt
transforms-IsPrinted (t ∷ transforms) (h, hs) = ((h, refl), transforms-IsPrinted transforms hs)

-- `ReadTransforms` of a file that has, behind the default section, a section for each of some
-- transforms, with the keys REGEX and FORMAT, gives back these transforms, in order.
read_transforms-section_of_transform :
    (load : Load) (payload : String) (transforms : List Transform)
    → load payload ≡ ok (default_first (map section_of_transform transforms))
    → All (λ (t : Transform). (t.name == default_section) ≡ false) transforms
    → read_transforms load payload ≡ some (ok transforms)
unfolding read_transforms
read_transforms-section_of_transform load payload transforms e h =
    rw (read_transforms, e)
      (read_all-default_first (λ s. ok (transform_of_section s)) section_of_transform no_transform
        transforms (transforms-IsPrinted transforms h))
