-- ===== src/Receiver/Kinds/Adapter.antt =====
-- What createReceiver of internal/collector/collector.go gets of the factory of a package: adapter.NewFactory
-- of the stanza library with the package's LogReceiverType.
use tarunner.Base.{
  String, Bool, Option, none, some, List, ◌≡◌, refl, sym, ap, ◌∙◌, ◌≢◌, Option-cases, inl, inr,
}
use tarunner.Base.Optional.{◌>>=◌}
use tarunner.Base.Result.{Result, ok}
use tarunner.Env.{Env, Url}
use tarunner.Operator.{OperatorConfig}
use tarunner.Receiver.{Config}
use tarunner.Receiver.Kinds.{Kind, script, base_config}
use tarunner.Receiver.Kinds.Boxed.{
  Boxed, asserted, boxed, create_default_config, asserted-boxed, asserted-create_default_config,
  boxed-asserted,
}
use tarunner.Receiver.Kinds.Types.{
  InputOperator, LogReceiverType, Defaults, log_receiver_type, base_config_lem, input_of,
  input_config_lem, input_of-Returns, default_lem,
}

-- CreateLogs of the adapter's factory asks both methods for the configurations, and builds the
-- pipeline of the input and the operators behind it. `none` is a panic.
pub record Adapter (Logs : Type 0) : Type 0 where
  pub create_logs : LogReceiverType → String → Boxed → Option (Result Logs)
  pub build : String → InputOperator → List OperatorConfig → Result Logs
  pub create_logs_lem :
      (t : LogReceiverType) (name : String) (c : Boxed)
      → create_logs t name c
        ≡ (t.input_config c >>= (λ input. t.base_config c >>= (λ ops. some (build name input ops))))

module _ {Logs : Type 0} (adapter : Adapter Logs) (env : Env) (defaults : Defaults)
    (cook : Bool) where
  -- CreateLogs of the package's factory, with the configuration that createReceiver gives it, does not
  -- panic where the name of the stanza is a URL: it builds the input of the package with the
  -- operators of BaseConfig behind it.
  pub create_logs-boxed :
      (kind : Kind) (name : String) (cfg : Config) (parsed : Url)
      → env.url_parse cfg.input.stanza.name ≡ ok parsed
      → (input : InputOperator) × (input_of env defaults cook kind cfg ≡ some input)
        × (adapter.create_logs (log_receiver_type env defaults cook kind) name (boxed kind cfg)
            ≡ some (adapter.build name input (base_config cook env.quote kind cfg)))
  create_logs-boxed kind name cfg parsed e =
      let (input, found) = input_of-Returns env defaults cook kind cfg parsed e in
      let t = log_receiver_type env defaults cook kind in
      let of_input : t.input_config (boxed kind cfg) ≡ some input =
        input_config_lem env defaults cook kind (boxed kind cfg)
        ∙ rw (asserted-boxed kind cfg) found in
      let of_base : t.base_config (boxed kind cfg) ≡ some (base_config cook env.quote kind cfg) =
        base_config_lem env defaults cook kind (boxed kind cfg)
        ∙ rw (asserted-boxed kind cfg) refl in
      (input, found, adapter.create_logs_lem t name (boxed kind cfg) ∙ rw (of_input, of_base) refl)

  -- CreateLogs of a package's factory returns for configurations of the form that createReceiver gives
  -- it, and panics for all others.
  create_logs-asserted :
      (kind : Kind) (name : String) (c : Boxed) (r : Result Logs)
      → adapter.create_logs (log_receiver_type env defaults cook kind) name c ≡ some r
      → (cfg : Config) × (c ≡ boxed kind cfg)
  create_logs-asserted kind name c r e =
      let t = log_receiver_type env defaults cook kind in
      let asks : (t.input_config c
            >>= (λ input. t.base_config c >>= (λ ops. some (adapter.build name input ops))))
          ≡ some r =
        sym (adapter.create_logs_lem t name c) ∙ e in
      elim (Option-cases (asserted kind c)) [
        | inl fails ↦ cc (rw (input_config_lem env defaults cook kind c, fails) at asks)
        | inr (cfg, holds) ↦ (cfg, boxed-asserted kind c cfg holds)
      ]

  -- The default configuration of every package but scriptreceiver is not one that the package itself
  -- takes: CreateLogs panics.
  pub create_logs-default :
      (kind : Kind) (name : String)
      → kind ≢ script
      → adapter.create_logs
          (log_receiver_type env defaults cook kind)
          name
          ((log_receiver_type env defaults cook kind).create_default_config)
        ≡ none
  create_logs-default kind name h =
      let t = log_receiver_type env defaults cook kind in
      let c = create_default_config kind in
      let fails : t.input_config c ≡ none =
        input_config_lem env defaults cook kind c
        ∙ rw (asserted-create_default_config kind h) refl in
      ap (λ d. adapter.create_logs t name d) (default_lem env defaults cook kind)
      ∙ (adapter.create_logs_lem t name c ∙ rw fails refl)
