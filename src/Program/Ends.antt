-- ===== src/Program/Ends.antt =====
-- The calls that `main` of cmd/tarunner/main.go makes, by how it ends.
use tarunner.Base.{
  String, ◌≡◌, refl, ◌⊎◌, inl, inr, Bool, true, false, Option, none, some, List, [], ◌∷◌, ◌++◌, map,
}
use tarunner.Base.Result.{Error}
use tarunner.Collector.{
  Platform, Call, start_exporter, shutdown_exporter, start, shutdown, Outcome, panicked, idle,
  failed, running,
}
use tarunner.Collector.Lifecycle.{Consistent, run-Consistent}
use tarunner.Conf.Props.{Text}
use tarunner.Env.{Env}
use tarunner.FilePath
use tarunner.Ini.{Load}
use tarunner.Settings.{Config, Decoder, Exporters, new_exporter}
use tarunner.Program.{
  Ending, crashed, returned, waiting, fatal, await, run, with_config, main_in, main,
}

module _ {Logs Raw : Type 0} (env : Env) (platform : Platform Logs) (text : Text) (load : Load)
    (decoder : Decoder Raw) (exporters : Exporters) where
  -- The calls that go with an ending.
  pub Ends : Bool → List (Call Logs) × Ending → Type 0
  Ends sigterm (calls, crashed) = calls ≡ []
  Ends sigterm (calls, fatal message) =
      (calls ≡ []) ⊎ ((started : List Logs) × (calls ≡ start_exporter ∷ map start started))
  Ends sigterm (calls, returned) =
      (calls ≡ [])
      ⊎ ((sigterm ≡ true)
          × (started : List Logs) × (calls
              ≡ (start_exporter ∷ map start started)
                ++ (map shutdown started ++ shutdown_exporter ∷ [])))
  Ends sigterm (calls, waiting) =
      (sigterm ≡ false) × (started : List Logs) × (calls ≡ start_exporter ∷ map start started)

  await-Ends :
      (cfg : Config) (sigterm : Bool) (r : List (Call Logs) × Outcome Logs)
      → Consistent env (record platform { new_exporter = new_exporter exporters cfg }) text load r
      → Ends sigterm (await env platform text load decoder exporters sigterm r)
  unfolding Consistent Ends await
  await-Ends cfg sigterm (calls, panicked) h = h
  await-Ends cfg sigterm (calls, failed e) h = h
  await-Ends cfg sigterm (calls, idle) h = inl h
  await-Ends cfg true (calls, running stop) (started, made, stops) =
      inr (refl, started, rw (made, stops) refl)
  await-Ends cfg false (calls, running stop) (started, made, stops) = (refl, started, made)

  with_config-Ends :
      (sigterm : Bool) (basedir : String) (c : Option Config × Option Error)
      → Ends sigterm (with_config env platform text load decoder exporters sigterm basedir c)
  unfolding with_config Ends run
  with_config-Ends sigterm basedir (_, some e) = inl refl
  with_config-Ends sigterm basedir (none, none) = refl
  with_config-Ends sigterm basedir (some cfg, none) = await-Ends cfg sigterm _ (
      run-Consistent env (record platform { new_exporter = new_exporter exporters cfg }) text load
        basedir)

  main_in-Ends :
      (sigterm : Bool) (basedir : String)
      → Ends sigterm (main_in env platform text load decoder exporters sigterm basedir)
  unfolding main_in Ends
  main_in-Ends sigterm basedir =
      from (platform.not_exist (FilePath.join (basedir ∷ "tarunner.yaml" ∷ []))) refl
    where
      from :
          (o : Option Error)
          → platform.not_exist (FilePath.join (basedir ∷ "tarunner.yaml" ∷ [])) ≡ o
          → Ends sigterm (main_in env platform text load decoder exporters sigterm basedir)
      from (some _) e = rw (main_in, e) (inl refl)
      from none e = rw (main_in, e) (with_config-Ends sigterm basedir _)

  -- Whatever the arguments are: the program returns only when it has made no call, or when the
  -- signal has come and it has shut down, in order, each receiver that it has started, and then the
  -- exporter. It waits only without the signal, with the exporter and some receivers started. A
  -- fatal error leaves what has been started, if anything, as it is. A panic comes before any call.
  pub main-Ends :
      (sigterm : Bool) (args : List String)
      → Ends sigterm (main env platform text load decoder exporters sigterm args)
  unfolding main Ends
  main-Ends sigterm [] = refl
  main-Ends sigterm (program ∷ []) = inl refl
  main-Ends sigterm (program ∷ basedir ∷ _) = main_in-Ends sigterm basedir
