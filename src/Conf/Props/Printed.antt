-- ===== src/Conf/Props/Printed.antt =====
-- `ReadProps` of internal/conf/props.go on the files that print given props.
use tarunner.Base.{
  ℕ, String, starts_with, ◌≡◌, refl, Bool, true, false, some, List, [], ◌∷◌, ◌++◌, map, All, ◌==◌,
  string_eq,
}
use tarunner.Base.Result.{Result, ok}
use tarunner.Conf.Data.{FieldAlias, PropsTransforms, Prop}
use tarunner.Conf.Props.{
  Text, no_prop, read_props_transforms, parse_field_alias_expr, read_field_aliases, int_or_zero,
  bool_or_false, prop_of_section, order_props, read_props,
}
use tarunner.Conf.Read.Printed.{
  value_of, section_of, default_first, IsPrinted, read_all-default_first,
}
use tarunner.Ini.{Key, Section, Load, default_section}

-- How the values are written, and how the library reads numbers and truth values.
pub record Printer : Type 0 where
  pub print_int : ℕ → String
  pub print_bool : Bool → String
  pub join_commas : List String → String
  -- The expression of an alias, from its two names.
  pub alias_expr : String → String → String
  pub to_int : String → Result ℕ
  pub to_bool : String → Result Bool

module _ (text : Text) (printer : Printer) where
  abbrev key_of_alias : FieldAlias → Key
  key_of_alias a = record { name = a.name; value = printer.alias_expr a.from a.to }

  abbrev key_of_transforms : PropsTransforms → Key
  key_of_transforms t = record { name = t.class; value = printer.join_commas t.stanza }

  abbrev setting : String → String → Key
  setting name value = record { name = name; value = value }

  abbrev settings : Prop → List Key → List Key
  settings p keys =
      setting "MAX_TIMESTAMP_LOOKAHEAD" (printer.print_int p.max_timestamp_look_ahead)
      ∷ setting "NO_BINARY_CHECK" (printer.print_bool p.no_binary_check)
      ∷ setting "SHOULD_LINEMERGE" (printer.print_bool p.should_line_merge)
      ∷ setting "TIME_PREFIX" p.time_prefix
      ∷ setting "TIME_FORMAT" p.time_format
      ∷ setting "DATETIME_CONFIG" p.datetime_config
      ∷ setting "category" p.category
      ∷ setting "sourcetype" p.source_type
      ∷ keys

  abbrev pub section_of_prop : Prop → Section
  section_of_prop p =
      section_of printer.to_int printer.to_bool p.name
        (settings p (map key_of_alias p.field_aliases ++ map key_of_transforms p.transforms))

  -- A truth value that is written can be read, and is not the empty text.
  pub record Inverse : Type 0 where
    pub bool_back : (b : Bool) → printer.to_bool (printer.print_bool b) ≡ ok b
    pub bool_written : (b : Bool) → (printer.print_bool b == "") ≡ false

  unfoldable pub IsAlias : FieldAlias → Type 0
  IsAlias a =
      (starts_with a.name "FIELDALIAS-" ≡ true)
      × (starts_with a.name "TRANSFORMS-" ≡ false)
      × (parse_field_alias_expr text (printer.alias_expr a.from a.to) ≡ (a.from, a.to))

  unfoldable pub IsClass : PropsTransforms → Type 0
  IsClass t =
      (starts_with t.class "TRANSFORMS-" ≡ true)
      × (starts_with t.class "FIELDALIAS-" ≡ false)
      × (map text.trim_space (text.split_commas (printer.join_commas t.stanza)) ≡ t.stanza)

  pub record IsPlain (p : Prop) : Type 0 where
    pub int_back :
        printer.to_int (printer.print_int p.max_timestamp_look_ahead)
        ≡ ok p.max_timestamp_look_ahead
    pub int_written : (printer.print_int p.max_timestamp_look_ahead == "") ≡ false
    pub named : (p.name == default_section) ≡ false
    pub aliases : All IsAlias p.field_aliases
    pub classes : All IsClass p.transforms

  read_field_aliases-classes :
      (ts : List PropsTransforms)
      → All IsClass ts
      → read_field_aliases text (map key_of_transforms ts) ≡ []
  unfolding read_field_aliases IsClass
  read_field_aliases-classes [] h = refl
  read_field_aliases-classes (t ∷ ts) ((_, other, _), hs) =
      rw (other, read_field_aliases-classes ts hs) refl

  read_field_aliases-keys :
      (as_ : List FieldAlias) (ts : List PropsTransforms)
      → All IsAlias as_
      → All IsClass ts
      → read_field_aliases text (map key_of_alias as_ ++ map key_of_transforms ts) ≡ as_
  unfolding read_field_aliases IsAlias
  read_field_aliases-keys [] ts h k = read_field_aliases-classes ts k
  read_field_aliases-keys (a ∷ as_) ts ((is_alias, _, back), hs) k =
      rw (is_alias, back, read_field_aliases-keys as_ ts hs k) refl

  read_props_transforms-classes :
      (ts : List PropsTransforms)
      → All IsClass ts
      → read_props_transforms text (map key_of_transforms ts) ≡ ts
  unfolding read_props_transforms IsClass
  read_props_transforms-classes [] h = refl
  read_props_transforms-classes (t ∷ ts) ((is_class, _, back), hs) =
      rw (is_class, back, read_props_transforms-classes ts hs) refl

  read_props_transforms-keys :
      (as_ : List FieldAlias) (ts : List PropsTransforms)
      → All IsAlias as_
      → All IsClass ts
      → read_props_transforms text (map key_of_alias as_ ++ map key_of_transforms ts) ≡ ts
  unfolding read_props_transforms IsAlias
  read_props_transforms-keys [] ts h k = read_props_transforms-classes ts k
  read_props_transforms-keys (a ∷ as_) ts ((_, other, _), hs) k =
      rw (other, read_props_transforms-keys as_ ts hs k) refl

  prop_of_section-section_of_prop :
      (p : Prop) → Inverse → IsPlain p → prop_of_section text (section_of_prop p) ≡ ok p
  unfolding prop_of_section int_or_zero bool_or_false read_field_aliases read_props_transforms
      value_of
  prop_of_section-section_of_prop p i h =
      rw
        (
          h.int_written,
          h.int_back,
          i.bool_written p.no_binary_check,
          i.bool_back p.no_binary_check,
          i.bool_written p.should_line_merge,
          i.bool_back p.should_line_merge,
          read_field_aliases-keys p.field_aliases p.transforms h.aliases h.classes,
          read_props_transforms-keys p.field_aliases p.transforms h.aliases h.classes,
        )
        refl

  IsPlain-IsPrinted :
      (props : List Prop)
      → Inverse
      → All IsPlain props
      → All (IsPrinted (prop_of_section text) section_of_prop) props
  IsPlain-IsPrinted [] i h = tt
  IsPlain-IsPrinted (p ∷ props) i (h, hs) =
      ((h.named, prop_of_section-section_of_prop p i h), IsPlain-IsPrinted props i hs)

  -- `ReadProps` of a file that has, behind the default section, a section for each of some props
  -- gives back these props, put in order: where numbers, truth values, alias expressions and lists
  -- of stanzas are written so that the library and the program read them back, and the keys of the
  -- aliases and of the transforms have the two prefixes.
  pub read_props-section_of_prop :
      (load : Load) (payload : String) (props : List Prop)
      → Inverse
      → load payload ≡ ok (default_first (map section_of_prop props))
      → All IsPlain props
      → read_props text load payload ≡ some (ok (order_props text props))
  unfolding read_props
  read_props-section_of_prop load payload props i e h =
      rw
        (
          read_props,
          e,
          read_all-default_first (prop_of_section text) section_of_prop no_prop props
              (IsPlain-IsPrinted props i h),
        )
        refl
