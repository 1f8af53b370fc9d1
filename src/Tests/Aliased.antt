-- ===== src/Tests/Aliased.antt =====
-- A stanza pipeline that also copies, and the entry of a prop with a field alias in it.
use text.Mathlib.TextPositions.{len-append, slice-append_middle}
use Prim.Native.String.{slice, len}
use tarunner.Base.{
  ◌+◌, ◌-◌, ◌≡◌, refl, ap, ◌∙◌, String, ◌<>◌, true, Option, none, some, [], ◌∷◌, arith, eq_iff,
  string_eq,
}
use tarunner.Base.Dict.{Dict, lookup, insert, lookup-insert}
use tarunner.Base.Dict.Size.{contains}
use tarunner.Conf.Data.{Prop}
use tarunner.Operator.{Action, noop, attribute, move, copy, parsed}
use tarunner.Operator.Stanza.{Pipeline, Copying, copied, moved}
use tarunner.Operator.Routing.Route.{DistinctIds, routing_of_distinct}
use tarunner.Receiver.{Config}
use tarunner.Receiver.Becomes.{Becomes}
use tarunner.Receiver.Kinds.{monitor, base_config}
use tarunner.Receiver.Kinds.Distinct.{base_config-DistinctIds_cooked}
use tarunner.Conf.Props.Names.{DistinctTexts}
use tarunner.Receiver.Kinds.Aliased.{aliased, with_source, base_config-aliases}
use tarunner.Receiver.Metadata.{renamed, with_path}
use tarunner.Tests.Delivered
use tarunner.Tests.Delivered.{access, config, attributes}

abbrev field : String → String
field name = "attributes[" <> (name <> "]")

-- The name in a field.
abbrev name_in : String → String
name_in text = slice text 11 (len text - 1)

name_in-field : (name : String) → name_in (field name) ≡ name
name_in-field name =
    let size : len (field name) ≡ 11 + (len name + 1) =
      len-append "attributes[" (name <> "]") ∙ ap (λ n. 11 + n) (len-append name "]") in
    let last : len (field name) - 1 ≡ 11 + len name = omega arith in
    ap (slice (field name) 11) last ∙ slice-append_middle "attributes[" name "]"

abbrev copy_value : String → String → Dict String → Dict String
copy_value from to a = elim (lookup from a) [ none ↦ a | some v ↦ insert to v a ]

lookup-copy_value :
    (from to k : String) (a : Dict String)
    → lookup k (copy_value from to a) ≡ copied from to (λ j. lookup j a) k
unfolding copied
lookup-copy_value from to k a = by_value (lookup from a) refl
  where
    by_value :
        (o : Option String)
        → lookup from a ≡ o
        → lookup k (elim o [ none ↦ a | some v ↦ insert to v a ])
          ≡ copied from to (λ j. lookup j a) k
    by_value none e = ground (arith, eq_iff to k)
    by_value (some v) e = ground (arith, eq_iff to k, lookup-insert k to v a)

-- Delivered's pipeline, with copies.
unfoldable apply : Action → Dict String → Dict String
apply (copy (parsed from) (parsed to)) a = copy_value (name_in from) (name_in to) a
apply action a = Delivered.apply action a

apply-noop : (condition : String) (a : Dict String) → apply (noop condition) a ≡ a
unfolding apply
apply-noop condition a = Delivered.apply-noop condition a

lookup-apply-move :
    (from to k : String) (a : Dict String)
    → lookup k (apply (move (attribute from) (attribute to) "send_quiet") a)
      ≡ moved from to (λ j. lookup j a) k
unfolding apply
lookup-apply-move from to k a = Delivered.lookup-apply-move from to k a

abbrev copying_stanza : Pipeline
copying_stanza = record {
  apply = apply;
  apply-noop = apply-noop;
  lookup-apply-move = lookup-apply-move;
}

lookup-apply-copy :
    (from to k : String) (a : Dict String)
    → lookup k (apply (copy (parsed (field from)) (parsed (field to))) a)
      ≡ copied from to (λ j. lookup j a) k
unfolding apply
lookup-apply-copy from to k a =
    ap (λ f. lookup k (copy_value f (name_in (field to)) a)) (name_in-field from)
    ∙ ap (λ t. lookup k (copy_value from t a)) (name_in-field to)
    ∙ lookup-copy_value from to k a

abbrev quote : String → String
quote s = s

copying : Copying copying_stanza quote
copying = record { lookup-apply-copy = lookup-apply-copy }

abbrev aliased_access : Prop
aliased_access = record access {
  source_type = "";
  field_aliases = record { name = "FIELDALIAS-a"; from = "host"; to = "dest" } ∷ [];
}

abbrev other : Prop
other = record aliased_access {
  name = "other";
  field_aliases = record { name = "FIELDALIAS-b"; from = "host"; to = "src" } ∷ [];
}

abbrev aliased_config : Config
aliased_config = record config { props = aliased_access ∷ other ∷ [] }

aliased_ids-Distinct : DistinctIds (base_config true quote monitor aliased_config)
unfolding DistinctTexts contains
aliased_ids-Distinct =
    base_config-DistinctIds_cooked quote monitor aliased_config (refl, (refl, tt))
      (refl, (refl, tt)) ((refl, refl), ((refl, refl), tt))

base_config-DistinctIds_cooked_example : DistinctIds (base_config true quote monitor aliased_config)
unfolding DistinctTexts contains
base_config-DistinctIds_cooked_example =
    base_config-DistinctIds_cooked quote monitor aliased_config (refl, (refl, tt))
      (refl, (refl, tt)) ((refl, refl), ((refl, refl), tt))

base_config-aliases_example :
    Becomes copying_stanza
      (base_config true quote monitor aliased_config)
      (routing_of_distinct (base_config true quote monitor aliased_config) aliased_ids-Distinct)
      (λ f. renamed (aliased aliased_access.field_aliases (with_source monitor f)))
      attributes
base_config-aliases_example =
    base_config-aliases copying_stanza quote copying monitor aliased_config aliased_access
      (other ∷ []) refl refl refl
      (routing_of_distinct (base_config true quote monitor aliased_config) aliased_ids-Distinct)
      aliased_ids-Distinct attributes

-- What the exporter is given of the alias.
aliased_test :
    renamed
      (aliased aliased_access.field_aliases (with_source monitor (λ k. lookup k attributes)))
      "dest"
    ≡ some "h1"
unfolding renamed aliased with_source with_path copied lookup
aliased_test = refl
