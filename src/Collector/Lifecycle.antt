-- ===== src/Collector/Lifecycle.antt =====
-- What `Run` starts and what its shutdown function stops.
use tarunner.Base.{
  String, ◌≡◌, refl, ap, ◌⊎◌, inl, inr, Option, none, some, List, [], ◌∷◌, ◌++◌, map,
}
use tarunner.Base.Result.{Result, ok, err}
use tarunner.Conf.Data.{Input, Transform, Prop}
use tarunner.Conf.Props.{Text}
use tarunner.Env.{Env}
use tarunner.Ini.{Load}
use tarunner.Collector.{
  Platform, Call, start_exporter, shutdown_exporter, start, shutdown, Outcome, panicked, idle,
  failed, running, start_all, start_step, start_with, shut_down, conclude, run_receivers, after,
  run, read_inputs, read_transforms_file, read_props_file, create_receivers,
}

module _ {Logs : Type 0} (env : Env) (platform : Platform Logs) (text : Text) (load : Load) where
  -- The calls and the end of a run that go together.
  unfoldable pub Consistent : List (Call Logs) × Outcome Logs → Type 0
  Consistent (calls, panicked) = calls ≡ []
  Consistent (calls, idle) = calls ≡ []
  Consistent (calls, failed e) =
      (calls ≡ []) ⊎ ((started : List Logs) × (calls ≡ start_exporter ∷ map start started))
  Consistent (calls, running stop) =
      (started : List Logs) × (calls ≡ start_exporter ∷ map start started)
      × (stop ≡ map shutdown started ++ shutdown_exporter ∷ [])

  -- The calls of the loop: all receivers are started, or those up to the one that fails.
  StartsAll : List Logs → List (Call Logs) × Result {0} Unit → Type 0
  StartsAll receivers (calls, err e) = (started : List Logs) × (calls ≡ map start started)
  StartsAll receivers (calls, ok _) = calls ≡ map start receivers

  StartsAll-step :
      (l : Logs) (receivers : List Logs) (rest : List (Call Logs) × Result {0} Unit)
      (r : Result {0} Unit)
      → StartsAll receivers rest
      → StartsAll (l ∷ receivers) (start_step env platform text load l rest r)
  unfolding StartsAll
  StartsAll-step l receivers rest (err e) h = (l ∷ [], refl)
  StartsAll-step l receivers (calls, err e) (ok _) (started, same) =
      (l ∷ started, ap (◌∷◌ (start l)) same)
  StartsAll-step l receivers (calls, ok _) (ok _) same = ap (◌∷◌ (start l)) same

  start_all-StartsAll :
      (receivers : List Logs) → StartsAll receivers (start_all env platform text load receivers)
  unfolding start_all StartsAll
  start_all-StartsAll [] = refl
  start_all-StartsAll (l ∷ receivers) =
      StartsAll-step l receivers (start_all env platform text load receivers) (platform.start l)
        (start_all-StartsAll receivers)

  conclude-Consistent :
      (receivers : List Logs) (r : List (Call Logs) × Result {0} Unit)
      → StartsAll receivers r
      → Consistent (conclude env platform text load receivers r)
  unfolding StartsAll Consistent conclude shut_down
  conclude-Consistent receivers (calls, err e) (started, same) =
      inr (started, ap (◌∷◌ start_exporter) same)
  conclude-Consistent receivers (calls, ok _) same = (receivers, ap (◌∷◌ start_exporter) same, refl)

  start_with-Consistent :
      (receivers : List Logs) (r : Result {0} Unit)
      → Consistent (start_with env platform text load receivers r)
  unfolding start_with Consistent
  start_with-Consistent receivers (err e) = inr ([], refl)
  start_with-Consistent receivers (ok _) =
      conclude-Consistent receivers (start_all env platform text load receivers)
        (start_all-StartsAll receivers)

  run_receivers-Consistent :
      (receivers : List Logs) → Consistent (run_receivers env platform text load receivers)
  unfolding run_receivers Consistent
  run_receivers-Consistent [] = refl
  run_receivers-Consistent (l ∷ receivers) =
      start_with-Consistent (l ∷ receivers) platform.start_exporter

  after-Consistent {ℓ} :
      {A : Type ℓ} (r : Option (Result A)) (f : A → List (Call Logs) × Outcome Logs)
      → ((a : A) → Consistent (f a))
      → Consistent (after env platform text load r f)
  unfolding Consistent after
  after-Consistent none f h = refl
  after-Consistent (some (err e)) f h = inl refl
  after-Consistent (some (ok a)) f h = h a

  -- `Run` makes no call when it ends idle or in a panic. When it returns a shutdown function, it
  -- has started the exporter and then some receivers, and the function shuts down these receivers,
  -- in the same order, and then the exporter. When it returns an error, it has made no call, or
  -- has started the exporter and some receivers and shut down none.
  pub run-Consistent : (base_dir : String) → Consistent (run env platform text load base_dir)
  unfolding run
  run-Consistent base_dir =
      after-Consistent (some platform.new_exporter) (λ _. of_inputs) (λ _. from_inputs)
    where
      of_props : List Input → List Transform → List Prop → List (Call Logs) × Outcome Logs
      of_props inputs transforms props =
          after env platform text load
            (some (create_receivers env platform text load base_dir transforms props inputs []))
            (run_receivers env platform text load)

      of_transforms : List Input → List Transform → List (Call Logs) × Outcome Logs
      of_transforms inputs transforms =
          after env platform text load (read_props_file env platform text load base_dir)
            (of_props inputs transforms)

      of_inputs : List (Call Logs) × Outcome Logs
      of_inputs =
          after env platform text load (read_inputs env platform text load base_dir) (λ inputs.
            after env platform text load (read_transforms_file env platform text load base_dir)
              (of_transforms inputs))

      from_transforms :
          (inputs : List Input) (transforms : List Transform)
          → Consistent (of_transforms inputs transforms)
      from_transforms inputs transforms =
          after-Consistent (read_props_file env platform text load base_dir)
            (of_props inputs transforms)
            (λ props.
              after-Consistent
                (some (create_receivers env platform text load base_dir transforms props inputs []))
                (run_receivers env platform text load) run_receivers-Consistent)

      from_inputs : Consistent of_inputs
      from_inputs =
          after-Consistent (read_inputs env platform text load base_dir)
            (λ inputs.
              after env platform text load (read_transforms_file env platform text load base_dir)
                (of_transforms inputs))
            (λ inputs.
              after-Consistent (read_transforms_file env platform text load base_dir)
                (of_transforms inputs) (from_transforms inputs))
