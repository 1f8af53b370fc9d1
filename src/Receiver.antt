-- ===== src/Receiver.antt =====
-- What the five packages under internal/receiver have in common: the configuration of a receiver,
-- the attributes of its input, and the operators behind the input.
pub mod Reach
pub mod FirstProp
pub mod Monitor
pub mod ScriptReceiver
pub mod WinEventLog
pub mod Tcp
pub mod Udp
pub mod Attributes
pub mod Kinds
pub mod Metadata
pub mod Passage
pub mod Identifiers
pub mod Aliases
pub mod Becomes
pub mod Unset
pub mod Cooked
pub mod Copies
use tarunner.Base.{
  String, ◌<>◌, Bool, Option, none, some, List, [], ◌∷◌, ◌++◌, ◌==◌, string_eq, if◌then◌else◌,
}
use tarunner.Base.Dict.{Dict, insert}
use tarunner.Conf.Data.{Param, Params, Input, Transform, Prop}
use tarunner.Conf.Params.{get}
use tarunner.Operator.{OperatorConfig, attribute, noop, move, with_id}
use tarunner.Operator.Prop.{create_operator_configs}

-- The struct `Config` of each package.
pub record Config : Type 0 where
  pub base_dir : String
  pub input : Input
  pub transforms : List Transform
  pub props : List Prop

-- `if p := …Params.Get(name); p != nil { oc.Attributes[name] = p.Value }`
unfoldable pub set_attribute : Params → String → Dict String → Dict String
set_attribute params name attributes = elim (get params name) [
  | none ↦ attributes
  | some p ↦ insert name p.value attributes
]

unfoldable pub input_attributes : Params → Dict String
unfolding set_attribute
input_attributes params =
    let a = set_attribute params "host" [] in
    let b = set_attribute params "index" a in
    let c = set_attribute params "sourcetype" b in set_attribute params "source" c

unfoldable pub create_set_source_operator : OperatorConfig
create_set_source_operator =
    with_id "start" (move (attribute "log.file.path") (attribute "source") "send_quiet")

abbrev pub move_to : String → String → OperatorConfig
move_to id name =
    with_id id (move (attribute name) (attribute ("com.splunk." <> name)) "send_quiet")

-- The source assigns `sourceType.OutputIDs` twice, and never `host.OutputIDs`.
unfoldable pub rename_metadata : List OperatorConfig
rename_metadata =
    let source = record (move_to "end-source" "source") { output_ids = "end-sourcetype" ∷ [] } in
    let source_type = record (move_to "end-sourcetype" "sourcetype") {
      output_ids = "end-host" ∷ [];
    } in
    let host = move_to "end-host" "host" in
    let source_type' = record source_type { output_ids = "end-index" ∷ [] } in
    let index = move_to "end-index" "index" in source ∷ source_type' ∷ host ∷ index ∷ []

unfoldable pub end_noop : List OperatorConfig → OperatorConfig
end_noop [] = with_id "end" (noop "")
end_noop (first ∷ _) = record (with_id "end" (noop "")) { output_ids = first.operator_id ∷ [] }

module _ (cook : Bool) (quote : String → String) where
  -- The loop over `rcfg.Props`.
  unfoldable pub append_props :
      List Transform → List OperatorConfig → List Prop → List OperatorConfig
  append_props transforms operators [] = operators
  append_props transforms operators (p ∷ props) =
      append_props transforms (operators ++ create_operator_configs cook quote p transforms) props

  -- The rest of `BaseConfig`, from the operators in front of the loop and what `renameMetadata` of
  -- the package gives.
  unfoldable pub base_operators :
      List OperatorConfig → List OperatorConfig → Config → List OperatorConfig
  unfolding append_props end_noop
  base_operators first metadata cfg =
      let operators = append_props cfg.transforms first cfg.props in
      (operators ++ end_noop metadata ∷ []) ++ metadata
