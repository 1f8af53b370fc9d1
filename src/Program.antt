-- ===== src/Program.antt =====
-- cmd/tarunner/main.go: the program from its arguments to its end.
pub mod Ends
use tarunner.Base.{String, Bool, true, false, Option, none, some, List, [], ◌∷◌, ◌++◌}
use tarunner.Base.Result.{Error, Result}
use tarunner.Collector
use tarunner.Collector.{Platform, Call, Outcome, panicked, idle, failed, running}
use tarunner.Conf.Props.{Text}
use tarunner.Env.{Env}
use tarunner.FilePath
use tarunner.Ini.{Load}
use tarunner.Settings.{Config, Decoder, Exporters, load_config, new_exporter}

-- The message of log.Fatal, which exits with status 1.
pub data Message : Type 0 where
  usage : String → Message
  config_file_missing : String → Message
  failed_to_load_config cannot_run : Error → Message

-- How `main` ends, or that it waits for a signal.
pub data Ending : Type 0 where
  crashed returned waiting : Ending
  fatal : Message → Ending

module _ {Logs Raw : Type 0} (env : Env) (platform : Platform Logs) (text : Text) (load : Load)
    (decoder : Decoder Raw) (exporters : Exporters) where
  abbrev pub Trace : Type 0
  Trace = List (Call Logs) × Ending

  -- Behind `Run`: `sigterm` is whether the signal comes.
  unfoldable pub await : Bool → List (Call Logs) × Outcome Logs → Trace
  await sigterm (calls, panicked) = (calls, crashed)
  await sigterm (calls, failed e) = (calls, fatal (cannot_run e))
  await sigterm (calls, idle) = (calls, returned)
  await true (calls, running shutdown) = (calls ++ shutdown, returned)
  await false (calls, running shutdown) = (calls, waiting)

  -- `Run` of the collector, with the exporter that the configuration asks for.
  unfoldable pub run : Config → String → List (Call Logs) × Outcome Logs
  unfolding Collector.run
  run cfg base_dir =
      Collector.run env (record platform { new_exporter = new_exporter exporters cfg }) text load
        base_dir

  -- Behind `LoadConfig`. A nil configuration is never without an error.
  unfoldable pub with_config : Bool → String → Option Config × Option Error → Trace
  unfolding await run
  with_config sigterm basedir (_, some e) = ([], fatal (failed_to_load_config e))
  with_config sigterm basedir (none, none) = ([], crashed)
  with_config sigterm basedir (some cfg, none) = await sigterm (run cfg basedir)

  unfoldable pub main_in : Bool → String → Trace
  unfolding with_config
  main_in sigterm basedir =
      let config_file = FilePath.join (basedir ∷ "tarunner.yaml" ∷ []) in
      elim (platform.not_exist config_file) [
        | some _ ↦ ([], fatal (config_file_missing config_file))
        | none ↦ with_config sigterm basedir (load_config platform.read_file decoder config_file)
      ]

  -- The arguments are os.Args; os.Args[0] of an empty list panics.
  unfoldable pub main : Bool → List String → Trace
  unfolding main_in
  main sigterm [] = ([], crashed)
  main sigterm (program ∷ []) = ([], fatal (usage program))
  main sigterm (program ∷ basedir ∷ _) = main_in sigterm basedir
