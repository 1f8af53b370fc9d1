-- ===== src/Receiver/Udp.antt =====
-- internal/receiver/udpreceiver: the operators of its pipeline and the configuration of its input.
use tarunner.Base.{String, Bool, false, Option, none, some, List, []}
use tarunner.Base.Dict.{Dict}
use tarunner.Base.Result.{Result, ok, err}
use tarunner.Env.{Env, Url}
use tarunner.Operator.{OperatorConfig}
use tarunner.Receiver
use tarunner.Receiver.{Config, base_operators, input_attributes}

-- What the package sets of the udp input of the stanza library.
pub record UdpInput : Type 0 where
  pub listen_address : String
  pub attributes : Dict String
  pub encoding : String
  pub line_start_pattern : String
  pub line_end_pattern : String
  pub omit_pattern : Bool

-- `renameMetadata` of this package has the text of that of the package monitorreceiver.
abbrev pub rename_metadata : List OperatorConfig
rename_metadata = Receiver.rename_metadata

module _ (cook : Bool) (quote : String → String) where
  unfoldable pub base_config : Config → List OperatorConfig
  unfolding base_operators
  base_config rcfg = base_operators cook quote [] rename_metadata rcfg

-- The source drops the error of url.Parse and reads the host of its result, which is nil then:
-- `none` is the panic.
unfoldable pub input_config : Env → UdpInput → Config → Option UdpInput
unfolding input_attributes
input_config env oc rcfg = elim (env.url_parse rcfg.input.stanza.name) [
  | err e ↦ none
  | ok parsed ↦ some (record oc {
    listen_address = parsed.host;
    attributes = input_attributes rcfg.input.stanza.params;
    encoding = "nop";
    line_end_pattern = "";
    omit_pattern = false;
    line_start_pattern = "";
  })
]

-- `Config.Validate`
unfoldable pub validate : Env → Config → Result Url
validate env cfg = env.url_parse cfg.input.stanza.name
