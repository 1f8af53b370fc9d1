-- ===== src/Collector/Started.antt =====
-- How `Run` of internal/collector/collector.go comes to return a shutdown function.
use tarunner.Base.{String, ◌≡◌, refl, ap, Option, none, some, List, [], ◌∷◌, ◌++◌, map, All}
use tarunner.Base.Result.{Result, ok, err}
use tarunner.Conf.Data.{Input, Transform, Prop}
use tarunner.Conf.Props.{Text}
use tarunner.Env.{Env}
use tarunner.Ini.{Load}
use tarunner.Collector.{
  Platform, Call, start_exporter, shutdown_exporter, start, shutdown, Outcome, running, start_all,
  start_step, start_with, shut_down, conclude, run_receivers, after, run, read_inputs,
  read_transforms_file, read_props_file, create_receivers,
}

module _ {Logs : Type 0} (env : Env) (platform : Platform Logs) (text : Text) (load : Load) where
  -- What was read and created before the calls.
  pub record Serves (base_dir : String) (calls stop : List (Call Logs)) : Type 0 where
    pub inputs : List Input
    pub transforms : List Transform
    pub props : List Prop
    pub receivers : List Logs
    pub read_inputs_ok : read_inputs env platform text load base_dir ≡ some (ok inputs)
    pub read_transforms_ok :
        read_transforms_file env platform text load base_dir ≡ some (ok transforms)
    pub read_props_ok : read_props_file env platform text load base_dir ≡ some (ok props)
    pub created :
        create_receivers env platform text load base_dir transforms props inputs [] ≡ ok receivers
    pub started : All (λ l. platform.start l ≡ ok tt) receivers
    pub calls_eq : calls ≡ start_exporter ∷ map start receivers
    pub stop_eq : stop ≡ map shutdown receivers ++ shutdown_exporter ∷ []

  after-running {ℓ} :
      {A : Type ℓ} (r : Option (Result A)) (f : A → List (Call Logs) × Outcome Logs)
      (calls stop : List (Call Logs))
      → after env platform text load r f ≡ (calls, running stop)
      → (a : A) × (r ≡ some (ok a)) × (f a ≡ (calls, running stop))
  unfolding after
  after-running none f calls stop e = cc
  after-running (some (err x)) f calls stop e = cc
  after-running (some (ok a)) f calls stop e = (a, refl, e)

  -- A loop that ends without an error has started all receivers.
  HasStarted : List Logs → List (Call Logs) × Result {0} Unit → Type 0
  HasStarted receivers (calls, err e) = Unit
  HasStarted receivers (calls, ok _) =
      All (λ l. platform.start l ≡ ok tt) receivers × (calls ≡ map start receivers)

  HasStarted-step :
      (l : Logs) (receivers : List Logs) (rest : List (Call Logs) × Result {0} Unit)
      (r : Result {0} Unit)
      → platform.start l ≡ r
      → HasStarted receivers rest
      → HasStarted (l ∷ receivers) (start_step env platform text load l rest r)
  unfolding HasStarted
  HasStarted-step l receivers rest (err e) s h = tt
  HasStarted-step l receivers (calls, err e) (ok _) s h = tt
  HasStarted-step l receivers (calls, ok _) (ok _) s (all, same) =
      ((s, all), ap (◌∷◌ (start l)) same)

  start_all-HasStarted :
      (receivers : List Logs) → HasStarted receivers (start_all env platform text load receivers)
  unfolding start_all HasStarted
  start_all-HasStarted [] = (tt, refl)
  start_all-HasStarted (l ∷ receivers) =
      HasStarted-step l receivers (start_all env platform text load receivers) (platform.start l)
        refl (start_all-HasStarted receivers)

  -- What the calls and the function come from, of a run that returns one.
  Runs : List Logs → List (Call Logs) → List (Call Logs) → Type 0
  Runs receivers calls stop =
      All (λ l. platform.start l ≡ ok tt) receivers
      × (calls ≡ start_exporter ∷ map start receivers)
      × (stop ≡ map shutdown receivers ++ shutdown_exporter ∷ [])

  conclude-Runs :
      (receivers : List Logs) (r : List (Call Logs) × Result {0} Unit)
      (calls stop : List (Call Logs))
      → HasStarted receivers r
      → conclude env platform text load receivers r ≡ (calls, running stop)
      → Runs receivers calls stop
  unfolding HasStarted Runs conclude shut_down
  conclude-Runs receivers (made, err x) calls stop h e = cc
  conclude-Runs receivers (made, ok _) calls stop (all, same) e = (all, cc, cc)

  start_with-Runs :
      (receivers : List Logs) (r : Result {0} Unit) (calls stop : List (Call Logs))
      → start_with env platform text load receivers r ≡ (calls, running stop)
      → Runs receivers calls stop
  unfolding start_with
  start_with-Runs receivers (err x) calls stop e = cc
  start_with-Runs receivers (ok _) calls stop e =
      conclude-Runs receivers (start_all env platform text load receivers) calls stop
        (start_all-HasStarted receivers) e

  run_receivers-Runs :
      (receivers : List Logs) (calls stop : List (Call Logs))
      → run_receivers env platform text load receivers ≡ (calls, running stop)
      → Runs receivers calls stop
  unfolding run_receivers
  run_receivers-Runs [] calls stop e = cc
  run_receivers-Runs (l ∷ receivers) calls stop e =
      start_with-Runs (l ∷ receivers) platform.start_exporter calls stop e

  -- When `Run` returns a shutdown function, it has read the three kinds of file, has created the
  -- receivers of what it read, has started the exporter and each of these receivers without an
  -- error, in their order, and the function shuts down each of them, and then the exporter.
  pub run-Serves :
      (base_dir : String) (calls stop : List (Call Logs))
      → run env platform text load base_dir ≡ (calls, running stop)
      → Serves base_dir calls stop
  unfolding run Runs
  run-Serves base_dir calls stop e =
      let (_, _, e₁) = after-running (some platform.new_exporter) _ calls stop e in
      let (inputs, i, e₂) =
        after-running (read_inputs env platform text load base_dir) _ calls stop e₁ in
      let (transforms, t, e₃) =
        after-running (read_transforms_file env platform text load base_dir) _ calls stop e₂ in
      let (props, p, e₄) =
        after-running (read_props_file env platform text load base_dir) _ calls stop e₃ in
      let (receivers, c, e₅) =
        after-running
          (some (create_receivers env platform text load base_dir transforms props inputs [])) _
          calls stop e₄ in
      let (all, made, stops) = run_receivers-Runs receivers calls stop e₅ in
      record {
        inputs = inputs;
        transforms = transforms;
        props = props;
        receivers = receivers;
        read_inputs_ok = i;
        read_transforms_ok = t;
        read_props_ok = p;
        created = cc;
        started = all;
        calls_eq = made;
        stop_eq = stops;
      }
