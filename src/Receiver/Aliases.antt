-- ===== src/Receiver/Aliases.antt =====
-- Field aliases of one name in two props, under the feature gate. The identifier of an alias is made
-- of its name alone, such as FIELDALIAS-user, and not of the name of its prop.
use tarunner.Base.ConcatMap.{concat_map, concat_map-append}
use mathlib.Core.List.{append_assoc}
use tarunner.Base.{
  ◌≡◌, sym, ◌∙◌, String, ◌<>◌, true, List, [], ◌∷◌, ◌++◌, map, inl, inr, arith, string_eq, eq_iff,
}
use tarunner.Base.Dict.Size.{contains, contains-cons, contains-append_left, contains-append_right}
use tarunner.Conf.Data.{Prop, Transform, FieldAlias}
use tarunner.Operator.{OperatorConfig}
use tarunner.Operator.Prop.{alias_operator}
use tarunner.Operator.Prop.Linked.{
  create_operator_configs-IsLinked, alias_ids, cook_ids, source_type_ids,
}
use tarunner.Operator.Routing.Distinct.{Twice, Twice-clash, contains-left, contains-right}
use tarunner.Operator.Routing.Route.{DistinctIds, ids}
use tarunner.Receiver.{Config, base_operators, end_noop}
use tarunner.Receiver.FirstProp.{append_props-concat_map, created}

abbrev pub alias_name : FieldAlias → String
alias_name fa = fa.name

module _ (quote : String → String) (ts : List Transform) (name : String) where
  alias_ids-contains :
      (p : Prop) (aliases : List FieldAlias)
      → contains name (map alias_name aliases) ≡ true
      → contains (name <> "-copy") (alias_ids quote p ts aliases) ≡ true
  unfolding contains alias_operator
  alias_ids-contains p [] h = cc
  alias_ids-contains p (fa ∷ aliases) h =
      elim (contains-cons fa.name name (map alias_name aliases) h) [
        | inl here ↦ rw here (ground (arith, eq_iff (name <> "-copy") (name <> "-copy")))
        | inr later ↦ ground (arith, alias_ids-contains p aliases later)
      ]

  created-alias :
      (p : Prop)
      → contains name (map alias_name p.field_aliases) ≡ true
      → contains (name <> "-copy") (ids (created true quote ts p)) ≡ true
  created-alias p h =
      let in_cooked : contains (name <> "-copy") (cook_ids quote p ts) ≡ true =
        contains-append_left (name <> "-copy") _ (source_type_ids quote p ts)
          (contains-append_right (name <> "-copy") _ _ (alias_ids-contains p p.field_aliases h)) in
      rw (create_operator_configs-IsLinked quote p ts true).1 (
        contains-append_left (name <> "-copy") _ _
          (contains-append_right (name <> "-copy") ((p.name <> "-start") ∷ []) _ in_cooked))

  abbrev all_created : List Prop → List OperatorConfig
  all_created = concat_map (created true quote ts)

  all_created-Twice :
      (before between after : List Prop) (p q : Prop)
      → contains name (map alias_name p.field_aliases) ≡ true
      → contains name (map alias_name q.field_aliases) ≡ true
      → Twice (name <> "-copy") (all_created (before ++ p ∷ (between ++ q ∷ after)))
  all_created-Twice before between after p q in_p in_q = (
    all_created before ++ created true quote ts p,
    all_created (between ++ q ∷ after),
    concat_map-append (created true quote ts) before (p ∷ (between ++ q ∷ after))
        ∙ sym (append_assoc (all_created before) (created true quote ts p) _),
    contains-right (name <> "-copy") (all_created before) _ (created-alias p in_p),
    rw (concat_map-append (created true quote ts) between (q ∷ after)) (
        contains-right (name <> "-copy") (all_created between) _
          (contains-left (name <> "-copy") (created true quote ts q) _ (created-alias q in_q))),
  )

-- Behind whatever operators `first` a package puts in front of the props.
pub base_operators-Twice :
    (quote : String → String) (first metadata : List OperatorConfig) (cfg : Config) (name : String)
    (before between after : List Prop) (p q : Prop)
    → cfg.props ≡ before ++ p ∷ (between ++ q ∷ after)
    → contains name (map alias_name p.field_aliases) ≡ true
    → contains name (map alias_name q.field_aliases) ≡ true
    → Twice (name <> "-copy") (base_operators true quote first metadata cfg)
unfolding base_operators
base_operators-Twice quote first metadata cfg name before between after p q e in_p in_q =
    let (xs, ys, split, in_xs, in_ys) : Twice (name <> "-copy")
        (all_created quote cfg.transforms name cfg.props) =
      rw e (all_created-Twice quote cfg.transforms name before between after p q in_p in_q) in
    (
      first ++ xs,
      ys ++ (end_noop metadata ∷ metadata),
      rw (append_props-concat_map true quote cfg.transforms first cfg.props, split)
          (simp append_assoc),
      contains-right (name <> "-copy") first xs in_xs,
      contains-left (name <> "-copy") ys _ in_ys,
    )

pub base_operators-clash :
    (quote : String → String) (first metadata : List OperatorConfig) (cfg : Config) (name : String)
    (before between after : List Prop) (p q : Prop)
    → cfg.props ≡ before ++ p ∷ (between ++ q ∷ after)
    → contains name (map alias_name p.field_aliases) ≡ true
    → contains name (map alias_name q.field_aliases) ≡ true
    → ¬ DistinctIds (base_operators true quote first metadata cfg)
base_operators-clash quote first metadata cfg name before between after p q e in_p in_q =
    Twice-clash (name <> "-copy") _
      (base_operators-Twice quote first metadata cfg name before between after p q e in_p in_q)
