-- ===== src/Receiver/Kinds/Types.antt =====
-- The interface LogReceiverType of the stanza library's adapter, as the five packages under
-- internal/receiver implement it: `monitor{}`, `scriptReceiver{}` and `welreceiver{}`.
use tarunner.Base.{String, Bool, false, Option, some, List, ◌≡◌, refl}
use tarunner.Base.Dict.{Dict}
use tarunner.Base.Optional.{◌>>=◌}
use tarunner.Base.Result.{ok}
use tarunner.Conf.Read.{no_input}
use tarunner.Env.{Env, Url}
use tarunner.Operator.{OperatorConfig}
use tarunner.Receiver.{Config, input_attributes}
use tarunner.Receiver.Kinds.{Kind, monitor, script, win_event_log, tcp, udp, base_config}
use tarunner.Receiver.Kinds.Boxed.{
  Boxed, asserted, as_value, as_script_pointer, create_default_config,
}
use tarunner.Receiver.Monitor
use tarunner.Receiver.Monitor.{FileInput}
use tarunner.Receiver.ScriptReceiver
use tarunner.Receiver.ScriptReceiver.{ScriptInput}
use tarunner.Receiver.Tcp
use tarunner.Receiver.Tcp.{TcpInput}
use tarunner.Receiver.Udp
use tarunner.Receiver.Udp.{UdpInput}
use tarunner.Receiver.WinEventLog
use tarunner.Receiver.WinEventLog.{WindowsInput}

-- The configuration of the operator that reads the input.
pub data InputOperator : Type 0 where
  file : FileInput → InputOperator
  scripted : ScriptInput → InputOperator
  windows : WindowsInput → InputOperator
  tcp_listener : TcpInput → InputOperator
  udp_listener : UdpInput → InputOperator

-- `none` is a panic.
pub record LogReceiverType : Type 0 where
  pub type : String
  pub create_default_config : Boxed
  pub base_config : Boxed → Option (List OperatorConfig)
  pub input_config : Boxed → Option InputOperator

-- NewConfig of the inputs of the stanza library, and the attributes that helper.NewInputConfig sets,
-- from an identifier and a type.
pub record Defaults : Type 0 where
  pub file_input : FileInput
  pub windows_input : WindowsInput
  pub tcp_input : TcpInput
  pub udp_input : UdpInput
  pub new_input_config : String → String → Dict String

-- `NewConfig` and `NewConfigWithID` of internal/scriptedinput/config.go.
abbrev pub operator_type : String
operator_type = "scripted_input"

unfoldable pub new_config_with_id : Defaults → String → ScriptInput
new_config_with_id defaults operator_id = record {
  input = no_input;
  base_dir = "";
  attributes = defaults.new_input_config operator_id operator_type;
}

unfoldable pub new_config : Defaults → ScriptInput
unfolding new_config_with_id
new_config defaults = new_config_with_id defaults operator_type

module _ (env : Env) (defaults : Defaults) (cook : Bool) where
  unfoldable pub monitor_type : LogReceiverType
  unfolding as_value create_default_config
  monitor_type = record {
    type = "monitor";
    create_default_config = create_default_config monitor;
    base_config = λ cfg. do
      rcfg ← as_value monitor cfg
      some (Monitor.base_config cook env.quote rcfg);
    input_config = λ config. do
      rcfg ← as_value monitor config
      some (file (Monitor.input_config env defaults.file_input rcfg));
  }

  unfoldable pub script_type : LogReceiverType
  unfolding as_script_pointer create_default_config new_config
  script_type = record {
    type = "script";
    create_default_config = create_default_config script;
    base_config = λ cfg. do
      rcfg ← as_script_pointer cfg
      some (ScriptReceiver.base_config cook env.quote rcfg);
    input_config = λ config. do
      rcfg ← as_script_pointer config
      some (scripted (ScriptReceiver.input_config (new_config defaults) rcfg));
  }

  unfoldable pub wel_type : LogReceiverType
  unfolding as_value create_default_config
  wel_type = record {
    type = "windowseventlog";
    create_default_config = create_default_config win_event_log;
    base_config = λ cfg. do
      rcfg ← as_value win_event_log cfg
      some (WinEventLog.base_config cook env.quote rcfg);
    input_config = λ config. do
      rcfg ← as_value win_event_log config
      some (windows (WinEventLog.input_config defaults.windows_input rcfg));
  }

  unfoldable pub tcp_type : LogReceiverType
  unfolding as_value create_default_config
  tcp_type = record {
    type = "tcp";
    create_default_config = create_default_config tcp;
    base_config = λ cfg. do
      rcfg ← as_value tcp cfg
      some (Tcp.base_config cook env.quote rcfg);
    input_config = λ config. do
      rcfg ← as_value tcp config
      oc ← Tcp.input_config env defaults.tcp_input rcfg
      some (tcp_listener oc);
  }

  unfoldable pub udp_type : LogReceiverType
  unfolding as_value create_default_config
  udp_type = record {
    type = "udp";
    create_default_config = create_default_config udp;
    base_config = λ cfg. do
      rcfg ← as_value udp cfg
      some (Udp.base_config cook env.quote rcfg);
    input_config = λ config. do
      rcfg ← as_value udp config
      oc ← Udp.input_config env defaults.udp_input rcfg
      some (udp_listener oc);
  }

  -- The value that `NewFactory` of the package gives to adapter.NewFactory.
  unfoldable pub log_receiver_type : Kind → LogReceiverType
  unfolding monitor_type script_type wel_type tcp_type udp_type
  log_receiver_type monitor = monitor_type
  log_receiver_type script = script_type
  log_receiver_type win_event_log = wel_type
  log_receiver_type tcp = tcp_type
  log_receiver_type udp = udp_type

  -- BaseConfig of every package gives its operators for the configurations that its assertion lets
  -- through, and panics for all others.
  pub base_config_lem :
      (kind : Kind) (c : Boxed)
      → (log_receiver_type kind).base_config c
        ≡ (asserted kind c >>= (λ cfg. some (base_config cook env.quote kind cfg)))
  unfolding log_receiver_type asserted base_config
  base_config_lem monitor c = refl
  base_config_lem script c = refl
  base_config_lem win_event_log c = refl
  base_config_lem tcp c = refl
  base_config_lem udp c = refl

  -- InputConfig for what the assertion lets through.
  unfoldable pub input_of : Kind → Config → Option InputOperator
  unfolding new_config
  input_of monitor rcfg = some (file (Monitor.input_config env defaults.file_input rcfg))
  input_of script rcfg = some (scripted (ScriptReceiver.input_config (new_config defaults) rcfg))
  input_of win_event_log rcfg =
      some (windows (WinEventLog.input_config defaults.windows_input rcfg))
  input_of tcp rcfg = do oc ← Tcp.input_config env defaults.tcp_input rcfg; some (tcp_listener oc)
  input_of udp rcfg = do oc ← Udp.input_config env defaults.udp_input rcfg; some (udp_listener oc)

  pub input_config_lem :
      (kind : Kind) (c : Boxed)
      → (log_receiver_type kind).input_config c ≡ (asserted kind c >>= input_of kind)
  unfolding log_receiver_type asserted input_of
  input_config_lem monitor c = refl
  input_config_lem script c = refl
  input_config_lem win_event_log c = refl
  input_config_lem tcp c = refl
  input_config_lem udp c = refl

  -- With a name that url.Parse takes.
  pub input_of-Returns :
      (kind : Kind) (cfg : Config) (parsed : Url)
      → env.url_parse cfg.input.stanza.name ≡ ok parsed
      → (i : InputOperator) × (input_of kind cfg ≡ some i)
  unfolding input_of Tcp.input_config Udp.input_config
  input_of-Returns monitor cfg parsed e = (_, refl)
  input_of-Returns script cfg parsed e = (_, refl)
  input_of-Returns win_event_log cfg parsed e = (_, refl)
  input_of-Returns tcp cfg parsed e = (
    tcp_listener (record defaults.tcp_input {
      listen_address = parsed.host;
      attributes = input_attributes cfg.input.stanza.params;
      encoding = "nop";
    }),
    rw (Tcp.input_config, e) refl,
  )
  input_of-Returns udp cfg parsed e = (
    udp_listener (record defaults.udp_input {
      listen_address = parsed.host;
      attributes = input_attributes cfg.input.stanza.params;
      encoding = "nop";
      line_end_pattern = "";
      omit_pattern = false;
      line_start_pattern = "";
    }),
    rw (Udp.input_config, e) refl,
  )

  pub default_lem :
      (kind : Kind) → (log_receiver_type kind).create_default_config ≡ create_default_config kind
  unfolding log_receiver_type
  default_lem monitor = refl
  default_lem script = refl
  default_lem win_event_log = refl
  default_lem tcp = refl
  default_lem udp = refl
