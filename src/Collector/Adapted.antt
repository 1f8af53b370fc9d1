-- ===== src/Collector/Adapted.antt =====
-- `createReceiver` and `Run` of internal/collector/collector.go over the factories that the packages
-- under internal/receiver make with the stanza library's adapter.
use tarunner.Base.{
  String, Bool, some, List, [], ◌∷◌, ◌≡◌, refl, sym, ◌∙◌, inl, inr, Bool-cases, ◌==◌, string_eq,
}
use tarunner.Base.Result.{Error, Result, ok, err, Result-cases, wineventlog_not_supported}
use tarunner.Collector.{
  Platform, Call, running, kind_of_scheme, create_logs, create_receiver, create_receivers, run,
}
use tarunner.Collector.Receivers.{enabled, MadeOf, Ends, create_receivers-Ends}
use tarunner.Collector.Started.{Serves, run-Serves}
use tarunner.Conf.Data.{Input, Transform, Prop}
use tarunner.Conf.Props.{Text}
use tarunner.Env.{Env, Url}
use tarunner.Ini.{Load}
use tarunner.Receiver.{Config}
use tarunner.Receiver.Kinds.{Kind, monitor, script, win_event_log, tcp, udp, base_config}
use tarunner.Receiver.Kinds.Boxed.{boxed}
use tarunner.Receiver.Kinds.Types.{InputOperator, Defaults, log_receiver_type, input_of}
use tarunner.Receiver.Kinds.Adapter.{Adapter, create_logs-boxed}

abbrev pub IsErr {ℓ} : {A : Type ℓ} → Result A → Type ℓ
IsErr r = (e : Error) × (r ≡ err e)

-- The factories of the platform are those of the packages.
pub record IsAdapted {Logs : Type 0} (platform : Platform Logs) (adapter : Adapter Logs) (env : Env)
    (defaults : Defaults) (cook : Bool) : Type 0 where
  pub creates :
      (kind : Kind) (name : String) (cfg : Config) (parsed : Url)
      → env.url_parse cfg.input.stanza.name ≡ ok parsed
      → adapter.create_logs (log_receiver_type env defaults cook kind) name (boxed kind cfg)
        ≡ some (platform.create_logs kind name cfg)

module _ {Logs : Type 0} (platform : Platform Logs) (adapter : Adapter Logs) (env : Env)
    (defaults : Defaults) (cook : Bool) (adapted : IsAdapted platform adapter env defaults cook)
    (text : Text) (load : Load) where
  -- What the platform's factory makes.
  create_logs-made :
      (kind : Kind) (name : String) (cfg : Config) (parsed : Url)
      → env.url_parse cfg.input.stanza.name ≡ ok parsed
      → (input : InputOperator) × (input_of env defaults cook kind cfg ≡ some input)
        × (platform.create_logs kind name cfg
            ≡ adapter.build name input (base_config cook env.quote kind cfg))
  create_logs-made kind name cfg parsed e =
      let (input, found, built) =
        create_logs-boxed adapter env defaults cook kind name cfg parsed e in
      (input, found, cc (adapted.creates kind name cfg parsed e, built))

  create_logs-ok :
      (kind : Kind) (name : String) (cfg : Config) (l : Logs)
      → create_logs env platform text load kind name cfg ≡ ok l
      → platform.create_logs kind name cfg ≡ ok l
  unfolding create_logs
  create_logs-ok win_event_log name cfg l e = elim (Bool-cases (env.goos == "windows")) [
    | inl there ↦ rw there at e
    | inr elsewhere ↦ cc (rw elsewhere at e)
  ]
  create_logs-ok monitor name cfg l e = e
  create_logs-ok script name cfg l e = e
  create_logs-ok tcp name cfg l e = e
  create_logs-ok udp name cfg l e = e

  create_logs-IsErr :
      (kind : Kind) (name : String) (cfg : Config)
      → IsErr (platform.create_logs kind name cfg)
      → IsErr (create_logs env platform text load kind name cfg)
  unfolding create_logs
  create_logs-IsErr win_event_log name cfg h = elim (Bool-cases (env.goos == "windows")) [
    | inl there ↦ rw there h
    | inr elsewhere ↦ rw elsewhere (wineventlog_not_supported, refl)
  ]
  create_logs-IsErr monitor name cfg h = h
  create_logs-IsErr script name cfg h = h
  create_logs-IsErr tcp name cfg h = h
  create_logs-IsErr udp name cfg h = h

  module _ (base_dir : String) (transforms : List Transform) (props : List Prop) where
    -- The configuration of an input's receiver.
    abbrev pub config_of : Input → Config
    config_of input = record {
      base_dir = base_dir;
      input = input;
      transforms = transforms;
      props = props;
    }

    -- What the pipeline has built for an input: the input of the package that its scheme names,
    -- configured from this stanza, with the operators of BaseConfig behind it.
    pub record Built (input : Input) (l : Logs) : Type 0 where
      pub parsed : Url
      pub kind : Kind
      pub operator : InputOperator
      pub is_url : env.url_parse input.stanza.name ≡ ok parsed
      pub of_scheme : kind_of_scheme parsed.scheme ≡ ok kind
      pub configured : input_of env defaults cook kind (config_of input) ≡ some operator
      pub built :
          adapter.build parsed.path operator (base_config cook env.quote kind (config_of input))
          ≡ ok l

    create_receiver-Built :
        (input : Input) (l : Logs)
        → create_receiver env platform text load base_dir transforms props input ≡ ok l
        → Built input l
    unfolding create_receiver
    create_receiver-Built input l e = elim (Result-cases (env.url_parse input.stanza.name)) [
      | inl (cause, failed) ↦ cc (rw (create_receiver, failed) at e)
      | inr (parsed, is_url) ↦ elim (Result-cases (kind_of_scheme parsed.scheme)) [
        | inl (cause, failed) ↦ cc (rw (create_receiver, is_url, failed) at e)
        | inr (kind, of_scheme) ↦
            let (operator, configured, same) =
              create_logs-made kind parsed.path (config_of input) parsed is_url in
            record {
              parsed = parsed;
              kind = kind;
              operator = operator;
              is_url = is_url;
              of_scheme = of_scheme;
              configured = configured;
              built =
                  sym same
                  ∙ create_logs-ok kind parsed.path (config_of input) l
                      (rw (create_receiver, is_url, of_scheme) at e);
            }
      ]
    ]

    -- Each receiver is built for its input.
    abbrev pub AllBuilt : List Input → List Logs → Type 0
    AllBuilt [] [] = Unit
    AllBuilt (i ∷ inputs) (l ∷ receivers) = Built i l × AllBuilt inputs receivers
    AllBuilt _ _ = ⊥

    MadeOf-AllBuilt :
        (inputs : List Input) (receivers : List Logs)
        → MadeOf env platform text load base_dir transforms props inputs receivers
        → AllBuilt inputs receivers
    unfolding MadeOf
    MadeOf-AllBuilt [] [] h = tt
    MadeOf-AllBuilt [] (l ∷ receivers) h = h
    MadeOf-AllBuilt (i ∷ inputs) [] h = h
    MadeOf-AllBuilt (i ∷ inputs) (l ∷ receivers) (h, hs) =
        (create_receiver-Built i l h, MadeOf-AllBuilt inputs receivers hs)

    create_receivers-AllBuilt :
        (inputs : List Input) (receivers : List Logs)
        → create_receivers env platform text load base_dir transforms props inputs [] ≡ ok receivers
        → AllBuilt (enabled inputs) receivers
    unfolding Ends
    create_receivers-AllBuilt inputs receivers e =
        let ends =
          create_receivers-Ends env platform text load base_dir transforms props inputs [] in
        let (more, same, of) : Ends env platform text load base_dir transforms props
            (enabled inputs) [] (ok receivers) =
          rw e at ends in
        rw same (MadeOf-AllBuilt (enabled inputs) more of)

  -- When Run returns a shutdown function, it has read the three kinds of file and started the exporter
  -- and exactly these receivers: for each input that is not disabled, in their order, what the
  -- pipeline builds from the input of the package that the scheme names, configured from its stanza,
  -- with the operators that BaseConfig makes of all props and transforms behind it.
  pub run-AllBuilt :
      (base_dir : String) (calls stop : List (Call Logs))
      → run env platform text load base_dir ≡ (calls, running stop)
      → (s : Serves env platform text load base_dir calls stop) × AllBuilt base_dir s.transforms
          s.props
          (enabled s.inputs)
          s.receivers
  run-AllBuilt base_dir calls stop e =
      let s = run-Serves env platform text load base_dir calls stop e in
      (s, create_receivers-AllBuilt base_dir s.transforms s.props s.inputs s.receivers s.created)

  -- Where the pipeline refuses the operators of every package, createReceiver fails for every input.
  pub create_receiver-refused :
      (base_dir : String) (transforms : List Transform) (props : List Prop) (input : Input)
      → ((kind : Kind) (name : String) (operator : InputOperator)
          → IsErr (
              adapter.build name operator (
                base_config cook env.quote kind (record {
                  base_dir = base_dir;
                  input = input;
                  transforms = transforms;
                  props = props;
                }))))
      → IsErr (create_receiver env platform text load base_dir transforms props input)
  unfolding create_receiver
  create_receiver-refused base_dir transforms props input refused =
      let cfg : Config = record {
        base_dir = base_dir;
        input = input;
        transforms = transforms;
        props = props;
      } in
      elim (Result-cases (env.url_parse input.stanza.name)) [
        | inl (e, failed) ↦ (e, rw (create_receiver, failed) refl)
        | inr (parsed, e) ↦ elim (Result-cases (kind_of_scheme parsed.scheme)) [
          | inl (e', failed) ↦ (e', rw (create_receiver, e, failed) refl)
          | inr (kind, k) ↦
              let (operator, found, built) = create_logs-made kind parsed.path cfg parsed e in
              rw (create_receiver, e, k)
                (create_logs-IsErr kind parsed.path cfg
                  (rw built (refused kind parsed.path operator)))
        ]
      ]
