-- ===== src/Receiver/Passage.antt =====
-- What becomes of an entry between the input of a receiver and its exporter, where the feature gate
-- is off: the operators of the props are noops then.
use tarunner.Base.ConcatMap.{concat_map}
use mathlib.Core.List.{append_assoc}
use mathlib.Core.Path.{subst}
use tarunner.Base.{◌≡◌, refl, sym, ap, ◌∙◌, ◌↔◌, String, ◌<>◌, false, List, [], ◌∷◌, ◌++◌}
use tarunner.Base.Dict.{Dict}
use tarunner.Conf.Data.{Prop, Transform}
use tarunner.Operator.{OperatorConfig, noop}
use tarunner.Operator.Prop.{
  create_operator_configs, start_operator, end_operator, attach, set_output,
}
use tarunner.Operator.Routing.{Routing}
use tarunner.Operator.Routing.Route.{DistinctIds}
use tarunner.Operator.Stanza.{Pipeline, Leaves, Leaves-one_iff, find_at}
use tarunner.Receiver.{Config, base_operators, end_noop, rename_metadata}
use tarunner.Receiver.FirstProp.{append_props-concat_map, created}

abbrev pub iff_trans {ℓ} : {A B C : Type ℓ} → A ↔ B → B ↔ C → A ↔ C
iff_trans (f, g) (h, k) = (λ a. h (f a), λ c. g (k c))

-- The operator that the input hands its entries to.
unfoldable pub entry_of : List OperatorConfig → String
entry_of [] = ""
entry_of (o ∷ _) = o.operator_id

-- The operators of the props, and what stands behind them.
abbrev pub behind : (String → String) → List Transform → List Prop → List OperatorConfig
behind quote ts props =
    concat_map (created false quote ts) props ++ (end_noop rename_metadata ∷ rename_metadata)

module _ {ops : List OperatorConfig} (S : Pipeline) (R : Routing ops) (d : DistinctIds ops) where
  -- Through an operator that names its output.
  pub explicit_iff :
      (before after : List OperatorConfig) (o : OperatorConfig) (id : String) (a b : Dict String)
      → ops ≡ before ++ o ∷ after
      → o.output_ids ≡ id ∷ []
      → Leaves S R o.operator_id a b ↔ Leaves S R id (S.apply o.action a) b
  explicit_iff before after o id a b e out =
      Leaves-one_iff S R o.operator_id id o a b (find_at before after o e d)
        (R.explicit before after o e (λ none'. cc) ∙ out)

  -- Through an operator that names no output.
  pub default_iff :
      (before after : List OperatorConfig) (o o' : OperatorConfig) (a b : Dict String)
      → ops ≡ before ++ o ∷ o' ∷ after
      → o.output_ids ≡ []
      → Leaves S R o.operator_id a b ↔ Leaves S R o'.operator_id (S.apply o.action a) b
  default_iff before after o o' a b e out =
      Leaves-one_iff S R o.operator_id o'.operator_id o a b (find_at before (o' ∷ after) o e d)
        (R.default before after o o' e out)

  -- Through a noop that names its output.
  pub noop_iff :
      (before after : List OperatorConfig) (o : OperatorConfig) (id condition : String)
      (a b : Dict String)
      → ops ≡ before ++ o ∷ after
      → o.output_ids ≡ id ∷ []
      → o.action ≡ noop condition
      → Leaves S R o.operator_id a b ↔ Leaves S R id a b
  noop_iff before after o id condition a b e out same =
      subst (λ a'. Leaves S R o.operator_id a b ↔ Leaves S R id a' b)
        (ap (λ act. S.apply act a) same ∙ S.apply-noop condition a)
        (explicit_iff before after o id a b e out)

  module _ (quote : String → String) (ts : List Transform) where
    -- Through the two operators of a prop, which change nothing.
    prop_iff :
        (before after : List OperatorConfig) (p : Prop) (a b : Dict String)
        → ops ≡ before ++ (created false quote ts p ++ after)
        → Leaves S R (p.name <> "-start") a b ↔ Leaves S R "end" a b
    unfolding create_operator_configs start_operator end_operator attach set_output
    prop_iff before after p a b e =
        let start : OperatorConfig = record (start_operator quote p) {
          output_ids = (p.name <> "-end") ∷ [];
        } in
        iff_trans (noop_iff before (end_operator p ∷ after) start _ _ a b e refl refl) (
          noop_iff (before ++ start ∷ []) after (end_operator p) "end" "" a b
            (e ∙ sym (append_assoc before (start ∷ []) (end_operator p ∷ after))) refl refl)

    -- Through all that stands in front of `end`, after the operators `before`.
    pub props_iff :
        (before : List OperatorConfig) (props : List Prop) (a b : Dict String)
        → ops ≡ before ++ behind quote ts props
        → Leaves S R (entry_of (behind quote ts props)) a b ↔ Leaves S R "end" a b
    unfolding create_operator_configs start_operator attach set_output entry_of end_noop
        rename_metadata
    props_iff before [] a b e = (λ l. l, λ l. l)
    props_iff before (p ∷ props) a b e = prop_iff before (behind quote ts props) p a b (
        e
        ∙ ap (λ l. before ++ l)
            (append_assoc (created false quote ts p) (concat_map (created false quote ts) props) _))

module _ (quote : String → String) (first : List OperatorConfig) (cfg : Config) where
  pub split :
      base_operators false quote first rename_metadata cfg
      ≡ first ++ behind quote cfg.transforms cfg.props
  unfolding base_operators
  split =
      rw (append_props-concat_map false quote cfg.transforms first cfg.props) (simp append_assoc)
