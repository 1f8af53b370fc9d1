-- ===== src/Operator/Prop/Linked.antt =====
-- Chains of operators, and the identifiers of those of `CreateOperatorConfigs` of
-- internal/operator/prop/prop.go.
use tarunner.Operator.Links.{IsLinked, chain-IsLinked, id_of, map-chain}
use tarunner.Base.ConcatMap.{concat_map, map-concat_map}
use mathlib.Core.List.{map-append}
use tarunner.Base.{
  ◌≡◌, refl, String, ◌<>◌, Bool, true, false, Option, none, some, List, [], ◌∷◌, ◌++◌, map, ◌∙◌, ap,
  if◌then◌else◌, ◌==◌, string_eq, not,
}
use tarunner.Conf.Data.{Prop, Transform, PropsTransforms, FieldAlias}
use tarunner.Operator.Prop.{
  find_transform, transform_operator, alias_operator, source_type_operator, start_operator,
  end_operator, create_operator_configs,
}
use tarunner.Operator.Prop.Chained.{
  found, stanza_operators, transform_operators, alias_operators, source_type_operators, cooked,
  prop_operators, create_operator_configs-chain,
}

-- The identifiers that the loops add, straight from the prop and the transforms.
module _ (quote : String → String) (p : Prop) (transforms : List Transform) where
  abbrev found_ids : Option Transform → List String
  found_ids none = []
  found_ids (some t) = id_of (transform_operator quote p t) ∷ []

  abbrev stanza_ids : String → List String
  stanza_ids stanza = found_ids (find_transform stanza transforms)

  abbrev pub transform_ids : List PropsTransforms → List String
  transform_ids = concat_map (λ t. concat_map stanza_ids t.stanza)

  abbrev pub alias_ids : List FieldAlias → List String
  alias_ids = concat_map (λ fa. id_of (alias_operator quote fa) ∷ [])

  abbrev pub source_type_ids : List String
  source_type_ids = if not (p.source_type == "") then id_of (source_type_operator p) ∷ [] else []

  abbrev pub cook_ids : List String
  cook_ids = (transform_ids p.transforms ++ alias_ids p.field_aliases) ++ source_type_ids

  -- The identifiers of the operators, in order.
  abbrev pub expected_ids : Bool → List String
  expected_ids cook =
      (((p.name <> "-start") ∷ []) ++ (if cook then cook_ids else [])) ++ ((p.name <> "-end") ∷ [])

  ids-found : (o : Option Transform) → map id_of (found quote p transforms o) ≡ found_ids o
  ids-found none = refl
  ids-found (some t) = refl

  ids-transforms :
      (ts : List PropsTransforms)
      → map id_of (transform_operators quote p transforms ts) ≡ transform_ids ts
  ids-transforms = map-concat_map id_of _ _ (λ t.
      map-concat_map id_of (stanza_operators quote p transforms) stanza_ids
        (λ s. ids-found (find_transform s transforms)) t.stanza)

  ids-source_type : map id_of (source_type_operators quote p transforms) ≡ source_type_ids
  ids-source_type =
      elim (not (p.source_type == ""))
        as (λ b.
          map id_of (if b then source_type_operator p ∷ [] else [])
          ≡ (if b then id_of (source_type_operator p) ∷ [] else [])) [ false ↦ refl | true ↦ refl ]

  ids-cooked : map id_of (cooked quote p transforms) ≡ cook_ids
  ids-cooked =
      rw
        (
          map-append id_of
              (transform_operators quote p transforms p.transforms
                ++ alias_operators quote p transforms p.field_aliases)
              (source_type_operators quote p transforms),
          map-append id_of (transform_operators quote p transforms p.transforms)
              (alias_operators quote p transforms p.field_aliases),
          ids-transforms p.transforms,
          map-concat_map id_of (λ fa. alias_operator quote fa ∷ [])
              (λ fa. id_of (alias_operator quote fa) ∷ []) (λ fa. refl) p.field_aliases,
          ids-source_type,
        )
        refl

  ids-prop_operators :
      (cook : Bool) → map id_of (prop_operators quote p transforms cook) ≡ expected_ids cook
  unfolding start_operator end_operator
  ids-prop_operators false = refl
  ids-prop_operators true = ap (◌∷◌ (p.name <> "-start")) (
      map-append id_of (cooked quote p transforms) (end_operator p ∷ [])
      ∙ ap (λ l. l ++ (p.name <> "-end") ∷ []) ids-cooked)

  -- The operators of a prop form one chain: each has exactly one output, the next operator, and
  -- the last has the output `end`. Their identifiers are, in this order, the start, under the
  -- feature gate those of the transforms found by name, of the field aliases and of the source
  -- type if it is set, and the end.
  pub create_operator_configs-IsLinked :
      (cook : Bool)
      → IsLinked (create_operator_configs cook quote p transforms) "end"
        × (map id_of (create_operator_configs cook quote p transforms) ≡ expected_ids cook)
  create_operator_configs-IsLinked cook =
      rw (create_operator_configs-chain quote p transforms cook) (
        chain-IsLinked (prop_operators quote p transforms cook) "end",
        map-chain id_of (λ o id. refl) (prop_operators quote p transforms cook) "end"
            ∙ ids-prop_operators cook,
      )
