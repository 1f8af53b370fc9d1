-- ===== src/Receiver/WinEventLog.antt =====
-- internal/receiver/wineventlogreceiver: the operators of its pipeline and the configuration of its input.
use tarunner.Base.{String, Bool, List, [], ◌∷◌}
use tarunner.Base.Dict.{Dict}
use tarunner.Operator.{OperatorConfig}
use tarunner.Receiver
use tarunner.Receiver.{Config, base_operators, input_attributes}

-- What the package sets of the event log input of the stanza library.
pub record WindowsInput : Type 0 where
  pub channel : String
  pub attributes : Dict String

-- `createSetSourceOperator` and `renameMetadata` of this package have the text of those of the
-- package monitorreceiver.
abbrev pub create_set_source_operator : OperatorConfig
create_set_source_operator = Receiver.create_set_source_operator

abbrev pub rename_metadata : List OperatorConfig
rename_metadata = Receiver.rename_metadata

module _ (cook : Bool) (quote : String → String) where
  unfoldable pub base_config : Config → List OperatorConfig
  unfolding base_operators
  base_config rcfg =
      base_operators cook quote (create_set_source_operator ∷ []) rename_metadata rcfg

unfoldable pub input_config : WindowsInput → Config → WindowsInput
unfolding input_attributes
input_config oc rcfg = record oc {
  channel = rcfg.input.stanza.name;
  attributes = input_attributes rcfg.input.stanza.params;
}
