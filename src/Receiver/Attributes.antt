-- ===== src/Receiver/Attributes.antt =====
-- The attributes that an input puts on its entries.
use tarunner.Base.{
  String, ◌≡◌, refl, Bool-cases, inl, inr, Bool, true, false, Option, none, some, arith, eq_iff,
  ◌==◌, string_eq, ◌||◌, if◌then◌else◌,
}
use tarunner.Base.Dict.{Dict, lookup, lookup-nil, lookup-insert}
use tarunner.Conf.Data.{Param, Params}
use tarunner.Conf.Params.{get}
use tarunner.Receiver.{set_attribute, input_attributes}

abbrev pub value_of : Option Param → Option String
value_of none = none
value_of (some p) = some p.value

or_value : Option String → Option Param → Option String
or_value o none = o
or_value o (some p) = some p.value

-- What one parameter leaves of the attribute, if it has the attribute's name and if it has not.
abbrev step : Bool → Option Param → Option String → Option String
step true o x = or_value x o
step false o x = x

lookup-set_attribute :
    (j name : String) (params : Params) (m : Dict String)
    → lookup j (set_attribute params name m) ≡ step (name == j) (get params j) (lookup j m)
unfolding set_attribute or_value
lookup-set_attribute j name params m = elim (Bool-cases (name == j)) [
  | inl same ↦ rw (same, ← (eq_iff name j).0 same) (at_name (get params name) refl)
  | inr other ↦ rw other (elsewhere other (get params name) refl)
]
  where
    at_name :
        (o : Option Param)
        → get params name ≡ o
        → lookup name (set_attribute params name m) ≡ or_value (lookup name m) (get params name)
    at_name none e = rw (set_attribute, e) refl
    at_name (some p) e =
        rw (set_attribute, e) (ground (arith, lookup-insert name name p.value m, eq_iff name name))

    elsewhere :
        (name == j) ≡ false
        → (o : Option Param) → get params name ≡ o
        → lookup j (set_attribute params name m) ≡ lookup j m
    elsewhere other none e = rw (set_attribute, e) refl
    elsewhere other (some p) e =
        rw (set_attribute, e) (ground (arith, lookup-insert j name p.value m))

collapse :
    (a b c d : Bool) (o : Option Param)
    → step d o (step c o (step b o (step a o none)))
      ≡ (if a || b || c || d then value_of o else none)
unfolding or_value
collapse a b c d none = ground arith
collapse a b c d (some p) = ground arith

-- The parameters that become attributes.
unfoldable pub is_metadata : String → Bool
is_metadata name = "host" == name || "index" == name || "sourcetype" == name || "source" == name

-- The attributes of an input are the four parameters host, index, sourcetype and source, each with
-- the value that `Get` finds and left out where `Get` finds none, and no others.
pub lookup-input_attributes :
    (name : String) (params : Params)
    → lookup name (input_attributes params)
      ≡ (if is_metadata name then value_of (get params name) else none)
unfolding input_attributes is_metadata
lookup-input_attributes name params =
    rw
      (
        lookup-set_attribute name "source" params _,
        lookup-set_attribute name "sourcetype" params _,
        lookup-set_attribute name "index" params _,
        lookup-set_attribute name "host" params _,
        lookup-nil name,
      )
      (collapse ("host" == name) ("index" == name) ("sourcetype" == name) ("source" == name)
        (get params name))
