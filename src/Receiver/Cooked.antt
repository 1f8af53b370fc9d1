-- ===== src/Receiver/Cooked.antt =====
-- What becomes of an entry between the input of a receiver and its exporter where there are props,
-- whether the feature gate is on or off.
use tarunner.Operator.Links.{chain, chain_cons, linked}
use tarunner.Base.ConcatMap.{concat_map}
use mathlib.Core.List.{append_assoc}
use mathlib.Core.Path.{subst}
use tarunner.Base.{
  ◌≡◌, refl, sym, ap, ◌∙◌, ◌↔◌, String, ◌<>◌, Bool, List, [], ◌∷◌, ◌++◌, if◌then◌else◌,
}
use tarunner.Base.Dict.{Dict}
use tarunner.Conf.Data.{Prop, Transform}
use tarunner.Operator.{OperatorConfig}
use tarunner.Operator.Prop.{start_operator, end_operator}
use tarunner.Operator.Prop.Chained.{cooked, prop_operators, create_operator_configs-chain}
use tarunner.Operator.Routing.{Routing}
use tarunner.Operator.Routing.Route.{DistinctIds}
use tarunner.Operator.Stanza.{Pipeline, Leaves}
use tarunner.Receiver.{
  Config, create_set_source_operator, base_operators, end_noop, rename_metadata,
}
use tarunner.Receiver.Becomes.{sent, end_iff, path_move}
use tarunner.Receiver.FirstProp.{append_props-concat_map, created}
use tarunner.Receiver.Passage.{iff_trans, entry_of, explicit_iff, default_iff}

module _ (S : Pipeline) where
  -- The work of the operators, one after the other.
  abbrev pub applied : List OperatorConfig → Dict String → Dict String
  applied [] a = a
  applied (o ∷ ops) a = applied ops (S.apply o.action a)

  applied-append :
      (xs ys : List OperatorConfig) (a : Dict String)
      → applied (xs ++ ys) a ≡ applied ys (applied xs a)
  applied-append [] ys a = refl
  applied-append (x ∷ xs) ys a = applied-append xs ys (S.apply x.action a)

  module _ {ops : List OperatorConfig} (R : Routing ops) (d : DistinctIds ops) where
    -- Through a chain.
    chain_iff :
        (before seg after : List OperatorConfig) (o : OperatorConfig) (exit : String)
        (a b : Dict String)
        → ops ≡ before ++ (chain (o ∷ seg) exit ++ after)
        → Leaves S R o.operator_id a b ↔ Leaves S R exit (applied (o ∷ seg) a) b
    chain_iff before [] after o exit a b e =
        explicit_iff S R d before after (linked o exit) exit a b e refl
    chain_iff before (o' ∷ seg) after o exit a b e =
        let first = linked o o'.operator_id in
        iff_trans
          (explicit_iff S R d before (chain (o' ∷ seg) exit ++ after) first o'.operator_id a b e
            refl)
          (chain_iff (before ++ first ∷ []) seg after o' exit (S.apply o.action a) b
            (e ∙ sym (append_assoc before (first ∷ []) (chain (o' ∷ seg) exit ++ after))))

  module _ (cook : Bool) (quote : String → String) where
    -- What a prop does to the attributes: under the feature gate the work of its transforms, field
    -- aliases and source type, else nothing.
    abbrev pub cooks : List Transform → Prop → Dict String → Dict String
    cooks ts p = applied (if cook then cooked quote p ts else [])

    applied-prop_operators :
        (ts : List Transform) (p : Prop) (a : Dict String)
        → applied (prop_operators quote p ts cook) a ≡ cooks ts p a
    unfolding start_operator end_operator
    applied-prop_operators ts p a =
        let work = if cook then cooked quote p ts else [] in
        ap (applied (work ++ end_operator p ∷ [])) (S.apply-noop _ a)
        ∙ applied-append work (end_operator p ∷ []) a
        ∙ S.apply-noop "" (applied work a)

    module _ (first : List OperatorConfig) (cfg : Config) (p : Prop) (props : List Prop)
        (e : cfg.props ≡ p ∷ props) where
      abbrev after_first : List OperatorConfig
      after_first =
          concat_map (created cook quote cfg.transforms) props
          ++ (end_noop rename_metadata ∷ [] ++ rename_metadata)

      first_split :
          base_operators cook quote first rename_metadata cfg
          ≡ first ++ (chain (prop_operators quote p cfg.transforms cook) "end" ++ after_first)
      unfolding base_operators
      first_split =
          rw
            (
              append_props-concat_map cook quote cfg.transforms first cfg.props,
              e,
              create_operator_configs-chain quote p cfg.transforms cook,
            )
            (simp append_assoc)

      first_iff :
          (R : Routing (base_operators cook quote first rename_metadata cfg))
          → DistinctIds (base_operators cook quote first rename_metadata cfg)
          → (a b : Dict String)
          → Leaves S R (p.name <> "-start") a b ↔ (b ≡ sent S (cooks cfg.transforms p a))
      unfolding start_operator
      first_iff R d a b =
          subst (λ a'. Leaves S R (p.name <> "-start") a b ↔ (b ≡ sent S a'))
            (applied-prop_operators cfg.transforms p a)
            (iff_trans
              (chain_iff R d first _ after_first (start_operator quote p) "end" a b first_split)
              (end_iff S cook quote first cfg R d _ b))

    module _ (cfg : Config) (p : Prop) (props : List Prop) (e : cfg.props ≡ p ∷ props) where
      pub direct_iff :
          (R : Routing (base_operators cook quote [] rename_metadata cfg))
          → DistinctIds (base_operators cook quote [] rename_metadata cfg)
          → (a b : Dict String)
          → Leaves S R (entry_of (base_operators cook quote [] rename_metadata cfg)) a b
            ↔ (b ≡ sent S (cooks cfg.transforms p a))
      unfolding entry_of start_operator
      direct_iff R d a b =
          let (id, rest, cut) = chain_cons (start_operator quote p) _ "end" in
          let entry : entry_of (base_operators cook quote [] rename_metadata cfg)
              ≡ (p.name <> "-start") =
            ap entry_of
              (first_split [] cfg p props e ∙ ap (λ l. l ++ after_first [] cfg p props e) cut) in
          rw entry (first_iff [] cfg p props e R d a b)

      pub filed_iff :
          (R : Routing (base_operators cook quote path_move rename_metadata cfg))
          → DistinctIds (base_operators cook quote path_move rename_metadata cfg)
          → (a b : Dict String)
          → Leaves S R (entry_of (base_operators cook quote path_move rename_metadata cfg)) a b
            ↔ (b ≡ sent S (cooks cfg.transforms p (S.apply create_set_source_operator.action a)))
      unfolding entry_of start_operator create_set_source_operator
      filed_iff R d a b =
          let (id, rest, cut) = chain_cons (start_operator quote p) _ "end" in
          let split =
            first_split path_move cfg p props e
            ∙ ap (λ l. path_move ++ (l ++ after_first path_move cfg p props e)) cut in
          rw (ap entry_of split) (
            iff_trans
              (default_iff S R d [] _ create_set_source_operator
                (linked (start_operator quote p) id) a b split refl)
              (first_iff path_move cfg p props e R d _ b))
