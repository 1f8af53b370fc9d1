-- ===== src/Collector.antt =====
-- internal/collector/collector.go: the configuration files that are read, the receivers that are
-- made of the inputs, and `Run`, which starts and stops them.
pub mod Receivers
pub mod Lifecycle
pub mod Packages
pub mod Total
pub mod Started
pub mod Schemes
pub mod Adapted
pub mod Refused
pub mod Delivers
use tarunner.Base.{
  String, Bool, true, false, Option, none, some, List, [], ◌∷◌, ◌++◌, map, ◌==◌, string_eq,
  if◌then◌else◌,
}
use tarunner.Base.Result.{
  Error, Result, ok, err, ◌>>=◌, failed_to_create_receiver, unsupported_scheme,
  wineventlog_not_supported,
}
use tarunner.Conf.Data.{Input, Transform, Prop, Param}
use tarunner.Conf.Params.{get}
use tarunner.Conf.Props.{Text, read_props}
use tarunner.Conf.Read.{read_input, read_transforms}
use tarunner.Env.{Env, Url}
use tarunner.FilePath
use tarunner.Ini.{Load}
use tarunner.Receiver.{Config}
use tarunner.Receiver.Kinds.{Kind, monitor, script, win_event_log, tcp, udp}

-- What the collector takes from the file system and from the OpenTelemetry libraries: `Logs` is
-- the type of the receivers that the factories make.
pub record Platform (Logs : Type 0) : Type 0 where
  -- The error of os.Stat if it is os.ErrNotExist.
  pub not_exist : String → Option Error
  -- os.ReadFile
  pub read_file : String → Result String
  -- newOtlpHttpExporter and newHECExporter
  pub new_exporter : Result {0} Unit
  -- CreateLogs of the factory that the stanza library's adapter makes, from the name of the receiver and its configuration.
  pub create_logs : Kind → String → Config → Result Logs
  -- Start of the exporter and of a receiver.
  pub start_exporter : Result {0} Unit
  pub start : Logs → Result {0} Unit

-- What happens to the exporter and the receivers.
pub data Call (Logs : Type 0) : Type 0 where
  start_exporter shutdown_exporter : Call Logs
  start shutdown : Logs → Call Logs

-- How `Run` ends: with a panic, an error, no work to do, or a function that shuts down, given as
-- the calls that it makes.
pub data Outcome (Logs : Type 0) : Type 0 where
  panicked idle : Outcome Logs
  failed : Error → Outcome Logs
  running : List (Call Logs) → Outcome Logs

unfoldable pub kind_of_scheme : String → Result Kind
kind_of_scheme scheme =
    if scheme == "script"
    then ok script
    else if scheme == ""
    then ok script
    else if scheme == "monitor"
    then ok monitor
    else if scheme == "WinEventLog"
    then ok win_event_log
    else if scheme == "tcp"
    then ok tcp
    else if scheme == "udp"
    then ok udp
    else err (unsupported_scheme scheme)

unfoldable pub is_disabled : Input → Bool
is_disabled input = elim (get input.stanza.params "disabled") [
  | none ↦ false
  | some disabled ↦ disabled.value == "1"
]

module _ {Logs : Type 0} (env : Env) (platform : Platform Logs) (text : Text) (load : Load) where
  -- `NewFactory` of the package, whose file the build chooses by the platform: that of the event
  -- log makes no receiver outside Windows.
  unfoldable pub create_logs : Kind → String → Config → Result Logs
  create_logs win_event_log name cfg =
      if env.goos == "windows"
      then platform.create_logs win_event_log name cfg
      else err wineventlog_not_supported
  create_logs kind name cfg = platform.create_logs kind name cfg

  unfoldable pub create_receiver : String → List Transform → List Prop → Input → Result Logs
  unfolding kind_of_scheme create_logs
  create_receiver base_dir transforms props input = do
    parsed ← env.url_parse input.stanza.name
    kind ← kind_of_scheme parsed.scheme
    create_logs kind parsed.path
        (record { base_dir = base_dir; input = input; transforms = transforms; props = props })

  unfoldable pub create_receivers :
      String → List Transform → List Prop → List Input → List Logs → Result (List Logs)
  unfolding is_disabled
  create_receivers base_dir transforms props [] receivers = ok receivers
  create_receivers base_dir transforms props (input ∷ inputs) receivers =
      let continue = create_receivers base_dir transforms props inputs receivers in
      if is_disabled input
      then continue
      else elim (create_receiver base_dir transforms props input) [
        | err e ↦ err (failed_to_create_receiver input.stanza.name e)
        | ok l ↦ create_receivers base_dir transforms props inputs (receivers ++ l ∷ [])
      ]

  -- The file of this name in `local`, else in `default`: the error of the second os.Stat if
  -- neither exists.
  unfoldable pub file_to_read : String → String → Result String
  file_to_read base_dir name =
      let local_file = FilePath.join (base_dir ∷ "local" ∷ name ∷ []) in
      let default_file = FilePath.join (base_dir ∷ "default" ∷ name ∷ []) in
      elim (platform.not_exist local_file) [
        | none ↦ ok local_file
        | some _ ↦ elim (platform.not_exist default_file) [
          | none ↦ ok default_file
          | some e ↦ err e
        ]
      ]

  abbrev read_with {ℓ} : {A : Type ℓ} → (String → Option (Result A)) → String → Option (Result A)
  read_with read file = elim (platform.read_file file) [ err e ↦ some (err e) | ok b ↦ read b ]

  unfoldable pub read_inputs : String → Option (Result (List Input))
  unfolding file_to_read
  read_inputs base_dir = elim (file_to_read base_dir "inputs.conf") [
    | err e ↦ some (err e)
    | ok file ↦ read_with (read_input load) file
  ]

  unfoldable pub read_transforms_file : String → Option (Result (List Transform))
  unfolding file_to_read
  read_transforms_file base_dir = elim (file_to_read base_dir "transforms.conf") [
    | err e ↦ some (ok [])
    | ok file ↦ read_with (read_transforms load) file
  ]

  unfoldable pub read_props_file : String → Option (Result (List Prop))
  unfolding file_to_read
  read_props_file base_dir = elim (file_to_read base_dir "props.conf") [
    | err e ↦ some (ok [])
    | ok file ↦ read_with (read_props text load) file
  ]

  -- One receiver's start, and what the loop does behind it if there is no error.
  abbrev pub start_step :
      Logs
      → List (Call Logs) × Result {0} Unit
      → Result {0} Unit
      → List (Call Logs) × Result {0} Unit
  start_step l rest (err e) = (start l ∷ [], err e)
  start_step l rest (ok _) = (start l ∷ rest.0, rest.1)

  -- The loop that starts the receivers: the calls made, and the error that ended it.
  unfoldable pub start_all : List Logs → List (Call Logs) × Result {0} Unit
  start_all [] = ([], ok tt)
  start_all (l ∷ receivers) = let rest = start_all receivers in start_step l rest (platform.start l)

  -- `shutDownFunc`
  unfoldable pub shut_down : List Logs → List (Call Logs)
  shut_down receivers = map shutdown receivers ++ shutdown_exporter ∷ []

  -- `Run` behind the loop.
  unfoldable pub conclude :
      List Logs → List (Call Logs) × Result {0} Unit → List (Call Logs) × Outcome Logs
  conclude receivers (calls, err e) = (start_exporter ∷ calls, failed e)
  conclude receivers (calls, ok _) = (start_exporter ∷ calls, running (shut_down receivers))

  -- `Run` behind the start of the exporter.
  unfoldable pub start_with : List Logs → Result {0} Unit → List (Call Logs) × Outcome Logs
  unfolding start_all conclude
  start_with receivers (err e) = (start_exporter ∷ [], failed e)
  start_with receivers (ok _) = conclude receivers (start_all receivers)

  -- `Run` behind the creation of the receivers.
  unfoldable pub run_receivers : List Logs → List (Call Logs) × Outcome Logs
  unfolding start_with
  run_receivers [] = ([], idle)
  run_receivers (l ∷ receivers) = start_with (l ∷ receivers) platform.start_exporter

  -- Continue with what was read, else end without a call.
  unfoldable pub after {ℓ} :
      {A : Type ℓ}
      → Option (Result A)
      → (A → List (Call Logs) × Outcome Logs)
      → List (Call Logs) × Outcome Logs
  after none f = ([], panicked)
  after (some (err e)) f = ([], failed e)
  after (some (ok a)) f = f a

  -- `Run`: the calls that are made until it returns, and how it ends.
  unfoldable pub run : String → List (Call Logs) × Outcome Logs
  unfolding read_inputs read_transforms_file read_props_file create_receivers run_receivers after
  run base_dir = after (some platform.new_exporter) (λ _. after (read_inputs base_dir) (λ inputs.
      after (read_transforms_file base_dir) (λ transforms.
        after (read_props_file base_dir) (λ props.
          after (some (create_receivers base_dir transforms props inputs [])) run_receivers))))
