-- ===== src/Lib.antt =====
-- tarunner runs a Splunk technical add-on (TA): it reads the add-on's inputs.conf, transforms.conf
-- and props.conf, makes an OpenTelemetry receiver of each input that is not disabled, puts the
-- operators of the props behind it, and sends the entries to an exporter.
--
-- The parts, and the files of this library that model them:
--   * Program: cmd/tarunner/main.go, from the arguments to the signal. Settings: internal/config,
--     `LoadConfig`, and the choice of the exporter in internal/collector. FeatureGates:
--     internal/featuregates, the gate `cook`, an argument of the operators.
--   * Collector: internal/collector/collector.go. `Run` reads the files (Conf), creates the
--     receivers (Receiver, which call Operator and Script) and starts them; Receivers, Schemes,
--     Lifecycle and Started under it have what is proved of these steps, Adapted, Refused and
--     Delivers what is proved over the factories of the packages under internal/receiver. Packages
--     has `Run` with the panics of these factories, which Total is about.
--   * Conf: internal/conf. Data has the records, Params `Params.Get`, Types `Prop.Type`, Read
--     `ReadInput` and `ReadTransforms`, Props `ReadProps` with `orderProps`. The modules Printed
--     have a printer of the sections of a file, which is not in the program.
--   * Script: internal/script/command.go, `GetPath` and `DetermineCommandName`.
--   * Receiver: what the five packages under internal/receiver share; Monitor, ScriptReceiver,
--     WinEventLog, Tcp and Udp under it are `BaseConfig` and `InputConfig` of each package, and Kinds
--     has the five side by side: Kinds.Boxed and Kinds.Types are the type assertions and the methods
--     of the values that each package gives to the stanza library's adapter, with `NewConfig` of
--     internal/scriptedinput/config.go, and Kinds.Adapter what the adapter does with them. Reach,
--     FirstProp, Passage, Becomes, Cooked and Kinds.Aliased follow an entry through the operators;
--     Identifiers, Aliases and Copies are about the operators' names, Unset about the operator of a
--     source type.
--   * ScriptedInput: internal/scriptedinput. `scheduleScriptedInput` in ScriptedInput, config.go in
--     Built, one run of the program in Execute, the reader of its output in Reader, and the
--     goroutine beside `Stop` in Loop.
--   * Operator.Prop: internal/operator/prop/prop.go, `CreateOperatorConfigs`, and Chained the
--     same operators without the pointer to the previous one. Operator.Links has lists of
--     operators that lead one to the next.
--   * Transform: internal/operator/transform. Limiter and Cache are cache.go, Parser is parser.go,
--     Config is config.go. Parser.Threads has calls of `match` in several goroutines, and
--     Config.Parallel what these are for a parser that `Build` makes.
-- Base has the helpers: Boolean tests, lists over native numbers, maps as association lists,
-- results. Tests has runs at concrete inputs.
--
-- State is passed explicitly: a method takes the record and returns it. Calls of the program to the
-- outside (a receiver's start, a write to a pipe) are a list, in the order in which they are made.
-- A mutex section is one atomic step; what runs in several goroutines (Loop, Threads) is a step
-- relation on the whole state, and a run is any sequence of steps. `none` stands for what does not
-- return: a panic or a channel operation that blocks.
-- Integers are natural numbers with the wrap-around of the uint64 counter written out. All loops
-- are structural recursions over lists, so no fuel is used; the goroutine of an input is the
-- relation Run, with the number of its steps. The theorems on the cache suppose a size below 2^16,
-- the type of its configuration.
--
-- Code outside the repository is a parameter: ini.Load and the sections (Ini), net/url, os.Getwd
-- and the platform (Env), regular expressions (Transform.Parser.Regexp), string functions and
-- sort.Slice (Conf.Props.Text), the file system and the OpenTelemetry factories
-- (Collector.Platform), strconv.Atoi, os/exec and encoding/xml (ScriptedInput.Execute.Process),
-- the adapter of the stanza library (Receiver.Kinds.Adapter) and its default configurations
-- (Receiver.Kinds.Types.Defaults), the YAML decoder (Settings.Decoder) and the exporters
-- (Settings.Exporters), the registry of feature gates (FeatureGates.Registry), and how the
-- stanza pipeline connects operators (Operator.Routing, whose laws suppose distinct identifiers;
-- Operator.Routing.Route computes such a routing) and what its noop, move and copy operators do
-- (Operator.Stanza, which follows the attributes of an entry only). FilePath models the part of
-- path/filepath that the program calls, for Unix paths, from its documentation.
--
-- Not modelled: the host of internal/collector and the request settings of the exporters, which
-- only fill structs of the OpenTelemetry libraries; the registration of the scripted input's
-- operator; the default configuration of the event log's factory outside Windows, which is nil;
-- Process and ProcessBatch of the parser, which hand `parse` to the stanza library; log
-- messages; and internal/tools, which imports build tools.
pub mod Base
pub mod FilePath
pub mod Env
pub mod Ini
pub mod Script
pub mod Conf
pub mod Transform
pub mod Operator
pub mod Receiver
pub mod ScriptedInput
pub mod FeatureGates
pub mod Settings
pub mod Program
pub mod Collector
pub mod Tests
