-- ===== src/Collector/Packages/Agrees.antt =====
-- The functions of Packages beside those of Collector, which take factories that cannot panic
-- (internal/collector/collector.go).
use tarunner.Base.{
  String, Bool, ◌≡◌, refl, inl, inr, some, List, [], ◌∷◌, ◌++◌, ◌==◌, string_eq, Bool-cases,
}
use tarunner.Base.Result.{ok, Result-cases}
use tarunner.Collector.{
  Platform, kind_of_scheme, create_logs, create_receiver, create_receivers, is_disabled, run,
  read_inputs, read_transforms_file, read_props_file, run_receivers, after,
}
use tarunner.Collector.Adapted.{IsAdapted}
use tarunner.Collector.Packages.{
  package_create_logs, create_package_receiver, create_package_receivers, run_packages,
}
use tarunner.Conf.Data.{Input, Transform, Prop}
use tarunner.Conf.Props.{Text}
use tarunner.Env.{Env, Url}
use tarunner.Ini.{Load}
use tarunner.Receiver.{Config}
use tarunner.Receiver.Kinds.{Kind, monitor, script, win_event_log, tcp, udp}
use tarunner.Receiver.Kinds.Adapter.{Adapter}
use tarunner.Receiver.Kinds.Types.{Defaults}

module _ {Logs : Type 0} (platform : Platform Logs) (adapter : Adapter Logs) (env : Env)
    (defaults : Defaults) (cook : Bool) (adapted : IsAdapted platform adapter env defaults cook)
    (text : Text) (load : Load) where
  package_create_logs_lem :
      (kind : Kind) (name : String) (cfg : Config) (parsed : Url)
      → env.url_parse cfg.input.stanza.name ≡ ok parsed
      → package_create_logs adapter env defaults cook kind name cfg
        ≡ some (create_logs env platform text load kind name cfg)
  unfolding package_create_logs create_logs
  package_create_logs_lem win_event_log name cfg parsed e =
      elim (Bool-cases (env.goos == "windows")) [
        | inl there ↦ rw there (adapted.creates win_event_log name cfg parsed e)
        | inr elsewhere ↦ rw elsewhere refl
      ]
  package_create_logs_lem monitor name cfg parsed e = adapted.creates monitor name cfg parsed e
  package_create_logs_lem script name cfg parsed e = adapted.creates script name cfg parsed e
  package_create_logs_lem tcp name cfg parsed e = adapted.creates tcp name cfg parsed e
  package_create_logs_lem udp name cfg parsed e = adapted.creates udp name cfg parsed e

  module _ (base_dir : String) (transforms : List Transform) (props : List Prop) where
    create_package_receiver_lem :
        (input : Input)
        → create_package_receiver adapter env defaults cook base_dir transforms props input
          ≡ some (create_receiver env platform text load base_dir transforms props input)
    unfolding create_package_receiver create_receiver
    create_package_receiver_lem input = elim (Result-cases (env.url_parse input.stanza.name)) [
      | inl (e, failed) ↦ rw (create_package_receiver, create_receiver, failed) refl
      | inr (parsed, is_url) ↦ elim (Result-cases (kind_of_scheme parsed.scheme)) [
        | inl (e, failed) ↦ rw (create_package_receiver, create_receiver, is_url, failed) refl
        | inr (kind, of_scheme) ↦
            rw (create_package_receiver, create_receiver, is_url, of_scheme)
              (package_create_logs_lem kind parsed.path _ parsed is_url)
      ]
    ]

    create_package_receivers_lem :
        (inputs : List Input) (receivers : List Logs)
        → create_package_receivers adapter env defaults cook base_dir transforms props inputs
            receivers
          ≡ some
              (create_receivers env platform text load base_dir transforms props inputs receivers)
    unfolding create_package_receivers create_receivers
    create_package_receivers_lem [] receivers = refl
    create_package_receivers_lem (input ∷ inputs) receivers =
        elim (Bool-cases (is_disabled input)) [
          | inl off ↦
              rw (create_package_receivers, create_receivers, off)
                (create_package_receivers_lem inputs receivers)
          | inr on ↦
              elim (Result-cases
                (create_receiver env platform text load base_dir transforms props input)) [
                  | inl (e, failed) ↦
                      rw
                        (
                          create_package_receivers,
                          create_receivers,
                          on,
                          create_package_receiver_lem input,
                          failed,
                        )
                        refl
                  | inr (l, made) ↦
                      rw
                        (
                          create_package_receivers,
                          create_receivers,
                          on,
                          create_package_receiver_lem input,
                          made,
                        )
                        (create_package_receivers_lem inputs (receivers ++ l ∷ []))
                ]
        ]

  -- With the packages' factories on the platform, both make the same calls and end the same way.
  run_packages-run :
      (base_dir : String)
      → run_packages adapter env defaults cook platform text load base_dir
        ≡ run env platform text load base_dir
  unfolding run_packages run
  run_packages-run base_dir = λ i. after env platform text load (some platform.new_exporter) (λ _.
      after env platform text load (read_inputs env platform text load base_dir) (λ inputs.
        after env platform text load (read_transforms_file env platform text load base_dir)
          (λ transforms.
            after env platform text load (read_props_file env platform text load base_dir) (λ props.
              after env platform text load
                (create_package_receivers_lem base_dir transforms props inputs [] i)
                (run_receivers env platform text load)))))
