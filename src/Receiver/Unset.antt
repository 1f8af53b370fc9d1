-- ===== src/Receiver/Unset.antt =====
-- The operator that CreateOperatorConfigs of internal/operator/prop/prop.go makes of a prop's source
-- type, in the operators of a receiver.
use tarunner.Operator.Links.{action_of, map-chain}
use tarunner.Base.ConcatMap.{concat_map, concat_map-append}
use tarunner.Base.{
  ◌≡◌, refl, String, Bool, Bool-cases, arith, inl, inr, true, false, List, [], ◌∷◌, ◌++◌, map, ◌==◌,
  string_eq, if◌then◌else◌,
}
use tarunner.Conf.Data.{Prop, Transform}
use tarunner.Operator.{OperatorConfig, Action, unset, copy}
use tarunner.Operator.Prop.{source_type_operator, start_operator, end_operator}
use tarunner.Operator.Prop.Chained.{
  cooked, prop_operators, source_type_operators, transform_operators, alias_operators,
  create_operator_configs-chain,
}
use tarunner.Receiver.{Config, base_operators, rename_metadata, end_noop}
use tarunner.Receiver.FirstProp.{append_props-concat_map, created}
use tarunner.Receiver.Kinds.{Kind, monitor, script, win_event_log, tcp, udp, base_config}
use tarunner.Receiver.Monitor
use tarunner.Receiver.ScriptReceiver
use tarunner.Receiver.Tcp
use tarunner.Receiver.Udp
use tarunner.Receiver.WinEventLog

unfoldable pub is_unset_copy : Action → Bool
is_unset_copy (copy unset unset) = true
is_unset_copy _ = false

abbrev pub any_unset_copy : List Action → Bool
any_unset_copy [] = false
any_unset_copy (a ∷ actions) =
    let later = any_unset_copy actions in if is_unset_copy a then true else later

-- One of the operators copies, and neither from nor to a field.
abbrev pub CopiesUnset : List OperatorConfig → Type 0
CopiesUnset ops = any_unset_copy (map action_of ops) ≡ true

CopiesUnset-left : (xs ys : List OperatorConfig) → CopiesUnset xs → CopiesUnset (xs ++ ys)
CopiesUnset-left [] ys h = cc
CopiesUnset-left (x ∷ xs) ys h = elim (Bool-cases (is_unset_copy x.action)) [
  | inl here ↦ rw here refl
  | inr later ↦ rw later (CopiesUnset-left xs ys (rw later at h))
]

CopiesUnset-right : (xs ys : List OperatorConfig) → CopiesUnset ys → CopiesUnset (xs ++ ys)
CopiesUnset-right [] ys h = h
CopiesUnset-right (x ∷ xs) ys h = ground (arith, CopiesUnset-right xs ys h)

created-CopiesUnset :
    (quote : String → String) (ts : List Transform) (p : Prop)
    → (p.source_type == "") ≡ false
    → CopiesUnset (created true quote ts p)
unfolding source_type_operator is_unset_copy
created-CopiesUnset quote ts p set =
    let made : CopiesUnset (source_type_operators quote p ts) = rw set refl in
    let all : CopiesUnset (prop_operators quote p ts true) =
      CopiesUnset-left ((start_operator quote p ∷ []) ++ cooked quote p ts) (end_operator p ∷ []) (
        CopiesUnset-right (start_operator quote p ∷ []) (cooked quote p ts) (
          CopiesUnset-right
            (transform_operators quote p ts p.transforms
              ++ alias_operators quote p ts p.field_aliases)
            (source_type_operators quote p ts) made)) in
    rw (create_operator_configs-chain quote p ts true, map-chain action_of (λ o id. refl)) all

base_operators-CopiesUnset :
    (quote : String → String) (first metadata : List OperatorConfig) (cfg : Config)
    (before after : List Prop) (p : Prop)
    → cfg.props ≡ before ++ p ∷ after
    → (p.source_type == "") ≡ false
    → CopiesUnset (base_operators true quote first metadata cfg)
unfolding base_operators
base_operators-CopiesUnset quote first metadata cfg before after p e set =
    let g = created true quote cfg.transforms in
    let made : CopiesUnset (concat_map g cfg.props) =
      rw (e, concat_map-append g before (p ∷ after))
        (CopiesUnset-right (concat_map g before) (concat_map g (p ∷ after)) (
          CopiesUnset-left (g p) (concat_map g after)
            (created-CopiesUnset quote cfg.transforms p set))) in
    rw (append_props-concat_map true quote cfg.transforms first cfg.props) (
      CopiesUnset-left ((first ++ concat_map g cfg.props) ++ end_noop metadata ∷ []) metadata (
        CopiesUnset-left (first ++ concat_map g cfg.props) (end_noop metadata ∷ [])
          (CopiesUnset-right first (concat_map g cfg.props) made)))

-- Under the feature gate, in every package: if a prop has a source type.
pub base_config-CopiesUnset :
    (quote : String → String) (kind : Kind) (cfg : Config) (before after : List Prop) (p : Prop)
    → cfg.props ≡ before ++ p ∷ after
    → (p.source_type == "") ≡ false
    → CopiesUnset (base_config true quote kind cfg)
unfolding base_config Monitor.base_config ScriptReceiver.base_config WinEventLog.base_config
    Tcp.base_config Udp.base_config
base_config-CopiesUnset quote monitor cfg = base_operators-CopiesUnset quote _ rename_metadata cfg
base_config-CopiesUnset quote script cfg = base_operators-CopiesUnset quote _ rename_metadata cfg
base_config-CopiesUnset quote win_event_log cfg =
    base_operators-CopiesUnset quote _ rename_metadata cfg
base_config-CopiesUnset quote tcp cfg = base_operators-CopiesUnset quote _ rename_metadata cfg
base_config-CopiesUnset quote udp cfg = base_operators-CopiesUnset quote _ rename_metadata cfg
