-- ===== src/Receiver/Copies/Operators.antt =====
-- When the operators of a receiver have distinct identifiers under the feature gate.
use mathlib.Core.List.{append_assoc, append-nil, map-append}
use tarunner.Base.{
  ◌≡◌, refl, ap, ◌∙◌, String, ◌<>◌, true, List, All, [], ◌∷◌, ◌++◌, map, ◌==◌, string_eq,
}
use tarunner.Base.ConcatMap.{concat_map}
use tarunner.Conf.Data.{Prop, Transform, FieldAlias}
use tarunner.Conf.Props.Names.{DistinctTexts, DistinctNames}
use tarunner.Operator.{OperatorConfig}
use tarunner.Operator.Links.{id_of, map-chain}
use tarunner.Operator.Prop.{alias_operator, start_operator, end_operator}
use tarunner.Operator.Prop.Chained.{
  transform_operators, alias_operators, cooked, prop_operators, create_operator_configs-chain,
}
use tarunner.Operator.Routing.Route.{DistinctIds, ids}
use tarunner.Receiver.{
  Config, base_operators, create_set_source_operator, end_noop, rename_metadata,
}
use tarunner.Receiver.FirstProp.{append_props-concat_map, created}
use tarunner.Receiver.Aliases.{alias_name}
use tarunner.Receiver.Copies.{copy_id, names, ids_of, alias_names, ids_of-Distinct, entry-ids_of}

Distinct-ids : (ops : List OperatorConfig) → DistinctTexts (ids ops) → DistinctIds ops
unfolding DistinctTexts DistinctIds
Distinct-ids [] d = tt
Distinct-ids (o ∷ ops) (fresh, d) = (fresh, Distinct-ids ops d)

module _ (quote : String → String) (ts : List Transform) where
  -- Of the operators that a prop makes under the feature gate, only those of its aliases.
  abbrev pub OnlyAliases : Prop → Type 0
  OnlyAliases p =
      (transform_operators quote p ts p.transforms ≡ []) × ((p.source_type == "") ≡ true)

  pub cooked-aliases :
      (p : Prop) → OnlyAliases p → cooked quote p ts ≡ alias_operators quote p [] p.field_aliases
  cooked-aliases p (no_transforms, no_source_type) =
      rw (no_transforms, no_source_type) (append-nil _)

  ids-aliases :
      (p : Prop) (aliases : List FieldAlias)
      → ids (alias_operators quote p [] aliases) ≡ map copy_id (map alias_name aliases)
  unfolding alias_operator
  ids-aliases p [] = refl
  ids-aliases p (fa ∷ aliases) = ap (◌∷◌ (copy_id fa.name)) (ids-aliases p aliases)

  ids-created :
      (p : Prop)
      → OnlyAliases p
      → ids (created true quote ts p)
        ≡ (p.name <> "-start") ∷ (map copy_id (names p) ++ ((p.name <> "-end") ∷ []))
  unfolding start_operator end_operator
  ids-created p only =
      rw
        (
          create_operator_configs-chain quote p ts true,
          map-chain id_of (λ o id. refl) (prop_operators quote p ts true) "end",
          cooked-aliases p only,
          map-append id_of (alias_operators quote p [] p.field_aliases) (end_operator p ∷ []),
          ids-aliases p p.field_aliases,
        )
        refl

  ids-behind :
      (props : List Prop)
      → All OnlyAliases props
      → ids
          (concat_map (created true quote ts) props ++ (end_noop rename_metadata ∷ rename_metadata))
        ≡ ids_of props
  unfolding end_noop rename_metadata
  ids-behind [] only = refl
  ids-behind (p ∷ props) (only, all) =
      let rest =
        concat_map (created true quote ts) props ++ (end_noop rename_metadata ∷ rename_metadata) in
      let copies = map copy_id (names p) in
      ap ids (
        append_assoc (created true quote ts p) (concat_map (created true quote ts) props)
          (end_noop rename_metadata ∷ rename_metadata))
      ∙ map-append id_of (created true quote ts p) rest
      ∙ rw (ids-created p only, ids-behind props all)
          (ap (◌∷◌ (p.name <> "-start"))
            (append_assoc copies ((p.name <> "-end") ∷ []) (ids_of props)))

module _ (quote : String → String) (cfg : Config) (d : DistinctNames cfg.props)
    (a : DistinctTexts (alias_names cfg.props))
    (only : All (OnlyAliases quote cfg.transforms) cfg.props) where
  abbrev behind : List OperatorConfig
  behind =
      concat_map (created true quote cfg.transforms) cfg.props
      ++ (end_noop rename_metadata ∷ rename_metadata)

  split :
      (first : List OperatorConfig)
      → base_operators true quote first rename_metadata cfg ≡ first ++ behind
  unfolding base_operators
  split first =
      rw (append_props-concat_map true quote cfg.transforms first cfg.props) (simp append_assoc)

  behind-ids : ids behind ≡ ids_of cfg.props
  behind-ids = ids-behind quote cfg.transforms cfg.props only

  behind-Distinct : DistinctIds behind
  behind-Distinct = Distinct-ids behind (rw behind-ids (ids_of-Distinct cfg.props d a))

  pub direct-Distinct : DistinctIds (base_operators true quote [] rename_metadata cfg)
  direct-Distinct = rw (split []) behind-Distinct

  pub filed-Distinct :
      DistinctIds (base_operators true quote (create_set_source_operator ∷ []) rename_metadata cfg)
  unfolding DistinctIds create_set_source_operator
  filed-Distinct =
      rw (split (create_set_source_operator ∷ []))
        (rw behind-ids (entry-ids_of cfg.props), behind-Distinct)
