-- ===== src/Conf/Props.antt =====
-- `ReadProps` of internal/conf/props.go: the stanzas of props.conf, read and put in order.
pub mod Order
pub mod Printed
pub mod Insertion
pub mod Names
use tarunner.Base.{
  ℕ, String, starts_with, Bool, true, false, Option, none, some, List, [], ◌∷◌, map, ltb, ◌==◌,
  string_eq, nat_eq, if◌then◌else◌,
}
use tarunner.Base.Result.{Result, ok, err, ◌>>=◌}
use tarunner.Conf.Data.{FieldAlias, PropsTransforms, Prop}
use tarunner.Conf.Types.{prop_type, rank}
use tarunner.Conf.Read.{read_all}
use tarunner.Ini.{Key, Section, Load}

-- What the functions take from Go's library.
pub record Text : Type 0 where
  -- strings.Split(s, ",") and strings.TrimSpace
  pub split_commas : String → List String
  pub trim_space : String → String
  -- fieldAliasRegex.FindStringSubmatch
  pub field_alias_submatch : String → List String
  -- `s < t` of two strings
  pub string_less : String → String → Bool
  -- sort.Slice, from the test of two elements
  pub sort_slice : (Prop → Prop → Bool) → List Prop → List Prop

abbrev pub no_prop : Prop
no_prop = record {
  name = "";
  time_prefix = "";
  time_format = "";
  datetime_config = "";
  category = "";
  source_type = "";
  field_aliases = [];
  transforms = [];
  max_timestamp_look_ahead = 0;
  no_binary_check = false;
  should_line_merge = false;
}

module _ (text : Text) where
  unfoldable pub read_props_transforms : List Key → List PropsTransforms
  read_props_transforms [] = []
  read_props_transforms (key ∷ keys) =
      let rest = read_props_transforms keys in
      if starts_with key.name "TRANSFORMS-"
      then record { class = key.name; stanza = map text.trim_space (text.split_commas key.value) }
        ∷ rest
      else rest

  -- Anything but three captures gives two empty names.
  abbrev from_to : List String → String × String
  from_to (whole ∷ from ∷ to ∷ []) = (from, to)
  from_to _ = ("", "")

  unfoldable pub parse_field_alias_expr : String → String × String
  parse_field_alias_expr expr = from_to (text.field_alias_submatch expr)

  unfoldable pub read_field_aliases : List Key → List FieldAlias
  unfolding parse_field_alias_expr
  read_field_aliases [] = []
  read_field_aliases (key ∷ keys) =
      let rest = read_field_aliases keys in
      if starts_with key.name "FIELDALIAS-"
      then (let (from_, to_) = parse_field_alias_expr key.value in
          record { name = key.name; from = from_; to = to_ } ∷ rest)
      else rest

  -- A value that is not there is not converted.
  unfoldable pub int_or_zero : Section → String → Result ℕ
  int_or_zero section name = if section.key_string name == "" then ok 0 else section.key_int name

  unfoldable pub bool_or_false : Section → String → Result Bool
  bool_or_false section name =
      if section.key_string name == "" then ok false else section.key_bool name

  unfoldable pub prop_of_section : Section → Result Prop
  unfolding int_or_zero bool_or_false read_props_transforms read_field_aliases
  prop_of_section section = do
    look_ahead ← int_or_zero section "MAX_TIMESTAMP_LOOKAHEAD"
    no_binary ← bool_or_false section "NO_BINARY_CHECK"
    line_merge ← bool_or_false section "SHOULD_LINEMERGE"
    ok (record {
      name = section.name;
      time_prefix = section.key_string "TIME_PREFIX";
      time_format = section.key_string "TIME_FORMAT";
      datetime_config = section.key_string "DATETIME_CONFIG";
      category = section.key_string "category";
      source_type = section.key_string "sourcetype";
      field_aliases = read_field_aliases section.keys;
      transforms = read_props_transforms section.keys;
      max_timestamp_look_ahead = look_ahead;
      no_binary_check = no_binary;
      should_line_merge = line_merge;
    })

  -- The test that `orderProps` sorts by.
  unfoldable pub props_less : Prop → Prop → Bool
  unfolding prop_type
  props_less p q =
      let ti = rank (prop_type p) in
      let tj = rank (prop_type q) in if ti == tj then text.string_less p.name q.name else ltb ti tj

  unfoldable pub order_props : List Prop → List Prop
  unfolding props_less
  order_props props = text.sort_slice props_less props

  unfoldable pub read_props : Load → String → Option (Result (List Prop))
  unfolding read_all order_props
  read_props load payload = elim (load payload) [
    | err e ↦ some (err e)
    | ok sections ↦ elim (read_all no_prop prop_of_section sections) [
      | none ↦ none
      | some (err e) ↦ some (err e)
      | some (ok result) ↦ some (ok (order_props result))
    ]
  ]
