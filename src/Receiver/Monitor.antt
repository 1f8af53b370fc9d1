-- ===== src/Receiver/Monitor.antt =====
-- internal/receiver/monitorreceiver: the operators of its pipeline and the configuration of its input.
use tarunner.Base.{String, Bool, true, none, some, List, [], ◌∷◌}
use tarunner.Base.Dict.{Dict}
use tarunner.Base.Result.{ok, err}
use tarunner.Conf.Params.{get}
use tarunner.Env.{Env}
use tarunner.Operator.{OperatorConfig}
use tarunner.Receiver.{
  Config, base_operators, input_attributes, create_set_source_operator, rename_metadata,
}
use tarunner.FilePath
use tarunner.Script

-- What the package sets of the file input of the stanza library.
pub record FileInput : Type 0 where
  pub include : List String
  pub exclude : List String
  pub attributes : Dict String
  pub include_file_path : Bool
  pub encoding : String

module _ (cook : Bool) (quote : String → String) where
  unfoldable pub base_config : Config → List OperatorConfig
  unfolding base_operators create_set_source_operator rename_metadata
  base_config rcfg =
      base_operators cook quote (create_set_source_operator ∷ []) rename_metadata rcfg

abbrev allowlist : Config → String → String
allowlist rcfg path = elim (get rcfg.input.stanza.params "whitelist") [
  | none ↦ path
  | some w ↦ FilePath.join (path ∷ w.value ∷ [])
]

abbrev excluded : Config → String → FileInput → FileInput
excluded rcfg path oc = elim (get rcfg.input.stanza.params "blacklist") [
  | none ↦ oc
  | some b ↦ record oc { exclude = FilePath.join (path ∷ b.value ∷ []) ∷ [] }
]

-- A path that cannot be resolved leaves the input with its default configuration `oc`.
unfoldable pub input_config : Env → FileInput → Config → FileInput
unfolding input_attributes
input_config env oc rcfg = elim (Script.determine_command_name env rcfg.base_dir rcfg.input) [
  | err e ↦ oc
  | ok path ↦ record (excluded rcfg path (record oc { include = allowlist rcfg path ∷ [] })) {
    attributes = input_attributes rcfg.input.stanza.params;
    include_file_path = true;
    encoding = "nop";
  }
]
