-- ===== src/Collector/Packages.antt =====
-- `Run` of internal/collector/collector.go over the factories of the packages under
-- internal/receiver, whose type assertions can panic: `none` is a panic. What the platform gives
-- beside the factories is taken as in Collector.
pub mod Agrees
use tarunner.Base.{
  String, Bool, ◌≡◌, refl, inl, inr, Option, none, some, List, [], ◌∷◌, ◌++◌, ◌==◌, string_eq,
  if◌then◌else◌, Bool-cases,
}
use tarunner.Base.Result.{
  Result, ok, err, Result-cases, failed_to_create_receiver, wineventlog_not_supported,
}
use tarunner.Collector.{
  Platform, Call, Outcome, kind_of_scheme, is_disabled, read_inputs, read_transforms_file,
  read_props_file, run_receivers, after,
}
use tarunner.Conf.Data.{Input, Transform, Prop}
use tarunner.Conf.Props.{Text}
use tarunner.Env.{Env, Url}
use tarunner.Ini.{Load}
use tarunner.Receiver.{Config}
use tarunner.Receiver.Kinds.{Kind, monitor, script, win_event_log, tcp, udp, base_config}
use tarunner.Receiver.Kinds.Adapter.{Adapter, create_logs-boxed}
use tarunner.Receiver.Kinds.Boxed.{boxed}
use tarunner.Receiver.Kinds.Types.{Defaults, log_receiver_type}

module _ {Logs : Type 0} (adapter : Adapter Logs) (env : Env) (defaults : Defaults)
    (cook : Bool) where
  -- CreateLogs of the package's factory: outside Windows that of the event log makes no receiver.
  unfoldable pub package_create_logs : Kind → String → Config → Option (Result Logs)
  package_create_logs win_event_log name cfg =
      if env.goos == "windows"
      then adapter.create_logs (log_receiver_type env defaults cook win_event_log) name
          (boxed win_event_log cfg)
      else some (err wineventlog_not_supported)
  package_create_logs kind name cfg =
      adapter.create_logs (log_receiver_type env defaults cook kind) name (boxed kind cfg)

  unfoldable pub create_package_receiver :
      String → List Transform → List Prop → Input → Option (Result Logs)
  unfolding kind_of_scheme package_create_logs
  create_package_receiver base_dir transforms props input = elim (env.url_parse input.stanza.name) [
    | err e ↦ some (err e)
    | ok parsed ↦ elim (kind_of_scheme parsed.scheme) [
      | err e ↦ some (err e)
      | ok kind ↦
          package_create_logs kind parsed.path
            (record { base_dir = base_dir; input = input; transforms = transforms; props = props })
    ]
  ]

  unfoldable pub create_package_receivers :
      String → List Transform → List Prop → List Input → List Logs → Option (Result (List Logs))
  unfolding is_disabled
  create_package_receivers base_dir transforms props [] receivers = some (ok receivers)
  create_package_receivers base_dir transforms props (input ∷ inputs) receivers =
      let continue = create_package_receivers base_dir transforms props inputs receivers in
      if is_disabled input
      then continue
      else elim (create_package_receiver base_dir transforms props input) [
        | none ↦ none
        | some (err e) ↦ some (err (failed_to_create_receiver input.stanza.name e))
        | some (ok l) ↦
            create_package_receivers base_dir transforms props inputs (receivers ++ l ∷ [])
      ]

  -- `Run`: the calls that are made until it returns or panics, and how it ends.
  unfoldable pub run_packages :
      Platform Logs → Text → Load → String → List (Call Logs) × Outcome Logs
  unfolding read_inputs read_transforms_file read_props_file create_package_receivers
  run_packages platform text load base_dir =
      after env platform text load (some platform.new_exporter) (λ _.
        after env platform text load (read_inputs env platform text load base_dir) (λ inputs.
          after env platform text load (read_transforms_file env platform text load base_dir)
            (λ transforms.
              after env platform text load (read_props_file env platform text load base_dir)
                (λ props.
                  after env platform text load
                    (create_package_receivers base_dir transforms props inputs [])
                    (run_receivers env platform text load)))))

  create_logs-returns :
      (kind : Kind) (name : String) (cfg : Config) (parsed : Url)
      → env.url_parse cfg.input.stanza.name ≡ ok parsed
      → (r : Result Logs) × (adapter.create_logs
            (log_receiver_type env defaults cook kind)
            name
            (boxed kind cfg)
          ≡ some r)
  create_logs-returns kind name cfg parsed e =
      let (operator, _, made) =
        create_logs-boxed adapter env defaults cook kind name cfg parsed e in
      (adapter.build name operator (base_config cook env.quote kind cfg), made)

  package_create_logs-returns :
      (kind : Kind) (name : String) (cfg : Config) (parsed : Url)
      → env.url_parse cfg.input.stanza.name ≡ ok parsed
      → (r : Result Logs) × (package_create_logs kind name cfg ≡ some r)
  unfolding package_create_logs
  package_create_logs-returns win_event_log name cfg parsed e =
      elim (Bool-cases (env.goos == "windows")) [
        | inl there ↦
            let (r, made) = create_logs-returns win_event_log name cfg parsed e in
            (r, rw there made)
        | inr elsewhere ↦ (err wineventlog_not_supported, rw elsewhere refl)
      ]
  package_create_logs-returns monitor name cfg parsed e =
      create_logs-returns monitor name cfg parsed e
  package_create_logs-returns script name cfg parsed e =
      create_logs-returns script name cfg parsed e
  package_create_logs-returns tcp name cfg parsed e = create_logs-returns tcp name cfg parsed e
  package_create_logs-returns udp name cfg parsed e = create_logs-returns udp name cfg parsed e

  -- createReceiver returns: what it hands to CreateLogs has the form that the package asserts.
  create_package_receiver-returns :
      (base_dir : String) (transforms : List Transform) (props : List Prop) (input : Input)
      → (r : Result Logs) × (create_package_receiver base_dir transforms props input ≡ some r)
  unfolding create_package_receiver
  create_package_receiver-returns base_dir transforms props input =
      elim (Result-cases (env.url_parse input.stanza.name)) [
        | inl (e, failed) ↦ (err e, rw (create_package_receiver, failed) refl)
        | inr (parsed, is_url) ↦ elim (Result-cases (kind_of_scheme parsed.scheme)) [
          | inl (e, failed) ↦ (err e, rw (create_package_receiver, is_url, failed) refl)
          | inr (kind, of_scheme) ↦
              let (r, made) =
                package_create_logs-returns kind parsed.path
                  (record {
                    base_dir = base_dir;
                    input = input;
                    transforms = transforms;
                    props = props;
                  })
                  parsed is_url in
              (r, rw (create_package_receiver, is_url, of_scheme) made)
        ]
      ]

  pub create_package_receivers-returns :
      (base_dir : String) (transforms : List Transform) (props : List Prop) (inputs : List Input)
      (receivers : List Logs)
      → (r : Result (List Logs)) × (create_package_receivers base_dir transforms props inputs
            receivers
          ≡ some r)
  unfolding create_package_receivers
  create_package_receivers-returns base_dir transforms props [] receivers = (ok receivers, refl)
  create_package_receivers-returns base_dir transforms props (input ∷ inputs) receivers =
      elim (Bool-cases (is_disabled input)) [
        | inl off ↦
            let (r, e) =
              create_package_receivers-returns base_dir transforms props inputs receivers in
            (r, rw (create_package_receivers, off) e)
        | inr on ↦
            let (r, e) = create_package_receiver-returns base_dir transforms props input in
            elim (Result-cases r) [
              | inl (cause, failed) ↦ (
                err (failed_to_create_receiver input.stanza.name cause),
                rw (create_package_receivers, on, e, failed) refl,
              )
              | inr (l, made) ↦
                  let (r', e') =
                    create_package_receivers-returns base_dir transforms props inputs
                      (receivers ++ l ∷ []) in
                  (r', rw (create_package_receivers, on, e, made) e')
            ]
      ]
