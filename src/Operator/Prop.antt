-- ===== src/Operator/Prop.antt =====
-- `CreateOperatorConfigs` of internal/operator/prop/prop.go. The variable `previous` of the source
-- points into the operator that was appended last; here it is an index into the list.
-- `cook` is the feature gate of internal/featuregates, `quote` the verb %q of the fmt package.
pub mod Chained
pub mod Linked
use tarunner.Base.{
  ℕ, String, ◌<>◌, Bool, true, false, Option, none, some, List, [], ◌∷◌, ◌++◌, length, set,
  get_elem?, ◌==◌, string_eq, if◌then◌else◌, not,
}
use mathlib.Core.List.{foldl}
use tarunner.Conf.Data.{Prop, Transform, PropsTransforms, FieldAlias}
use tarunner.Conf.Types.{source, host, source_type, default, prop_type}
use tarunner.Transform.Config.{new_config}
use tarunner.Operator.{OperatorConfig, unset, parsed, noop, copy, transform, with_id}

pub record Chain : Type 0 where
  pub operators : List OperatorConfig
  pub previous : ℕ

-- `previous.OutputIDs = []string{id}`
unfoldable pub set_output : Chain → String → Chain
set_output c id = elim (get_elem? c.operators c.previous) [
  | none ↦ c
  | some o ↦ record c { operators = set c.operators c.previous (record o { output_ids = id ∷ [] }) }
]

-- The three statements by which each operator is attached: its identifier becomes the output of
-- the previous one, it is appended, and `previous` points to it.
unfoldable pub attach : Chain → OperatorConfig → Chain
unfolding set_output
attach c o = record {
  operators = (set_output c o.operator_id).operators ++ o ∷ [];
  previous = length (set_output c o.operator_id).operators;
}

-- The condition of the first operator, from the switch on the prop's type.
unfoldable pub if_expr : (String → String) → Prop → String
if_expr quote p = elim (prop_type p) [
  | source_type ↦ "attributes['sourcetype'] == " <> quote p.name
  | default ↦ ""
  | source ↦ "attributes['source'] == " <> quote p.name
  | host ↦ "attributes['host'] == " <> quote p.name
]

unfoldable pub start_operator : (String → String) → Prop → OperatorConfig
unfolding if_expr
start_operator quote p = with_id (p.name <> "-start") (noop (if_expr quote p))

-- The loop over `transforms`, which ends at the first of the name.
unfoldable pub find_transform : String → List Transform → Option Transform
find_transform stanza [] = none
find_transform stanza (t ∷ transforms) =
    if t.name == stanza then some t else find_transform stanza transforms

unfoldable pub transform_operator : (String → String) → Prop → Transform → OperatorConfig
unfolding new_config
transform_operator quote p t =
    let c = new_config quote p.name t in with_id c.operator_id (transform c)

module _ (quote : String → String) (p : Prop) (transforms : List Transform) where
  unfoldable pub attach_stanza : Chain → String → Chain
  attach_stanza c stanza = elim (find_transform stanza transforms) [
    | none ↦ c
    | some t ↦ attach c (transform_operator quote p t)
  ]

  unfoldable pub attach_transforms : Chain → PropsTransforms → Chain
  unfolding attach_stanza
  attach_transforms c t = foldl attach_stanza c t.stanza

unfoldable pub alias_operator : (String → String) → FieldAlias → OperatorConfig
alias_operator quote fa = with_id (fa.name <> "-copy") (
    copy (parsed ("attributes[" <> quote fa.from <> "]"))
      (parsed ("attributes[" <> quote fa.to <> "]")))

-- The source sets neither `From` nor `To`.
unfoldable pub source_type_operator : Prop → OperatorConfig
source_type_operator p = with_id (p.name <> "-sourcetype") (copy unset unset)

unfoldable pub attach_source_type : Prop → Chain → Chain
attach_source_type p c = if not (p.source_type == "") then attach c (source_type_operator p) else c

-- The part that the feature gate guards.
unfoldable pub cook_operators : (String → String) → Prop → List Transform → Chain → Chain
unfolding attach_transforms
cook_operators quote p transforms c = attach_source_type p (
    foldl (λ c' fa. attach c' (alias_operator quote fa))
      (foldl (attach_transforms quote p transforms) c p.transforms) p.field_aliases)

unfoldable pub end_operator : Prop → OperatorConfig
end_operator p = record (with_id (p.name <> "-end") (noop "")) { output_ids = "end" ∷ [] }

unfoldable pub create_operator_configs :
    Bool → (String → String) → Prop → List Transform → List OperatorConfig
unfolding cook_operators
create_operator_configs cook quote p transforms =
    let start : Chain = record { operators = start_operator quote p ∷ []; previous = 0 } in
    let cooked = if cook then cook_operators quote p transforms start else start in
    (attach cooked (end_operator p)).operators
