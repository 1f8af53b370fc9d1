-- ===== src/Tests/Refused.antt =====
-- Runs of the collector that fail under the feature gate.
use tarunner.Base.{◌≡◌, refl, true, some, [], ◌∷◌, map, ◌==◌, string_eq, if◌then◌else◌}
use tarunner.Base.Dict.Size.{contains}
use tarunner.Base.Result.{Error, ok}
use tarunner.Collector.{
  run, failed, read_inputs, read_transforms_file, read_props_file, is_disabled,
}
use tarunner.Collector.Refused.{run-alias_clash, run-source_type}
use tarunner.Conf.Data.{Prop}
use tarunner.Conf.Params.{get}
use tarunner.Conf.Props
use tarunner.Conf.Props.{read_props, order_props}
use tarunner.Conf.Props.Printed.{section_of_prop}
use tarunner.Conf.Read
use tarunner.Conf.Read.{read_input}
use tarunner.Conf.Read.Printed
use tarunner.Conf.Read.Printed.{default_first}
use tarunner.Collector.Receivers.{enabled}
use tarunner.FilePath
use tarunner.Ini.{Load}
use tarunner.Tests.Programs.{machine, text, printer, access, input, load}
use tarunner.Tests.Adapted.{adapter, defaults, adapted, adapter-IsStrict, adapted-IsAdapted}

abbrev other : Prop
other = record access { name = "other" }

-- Two props with an alias of one name and a source type.
abbrev load_two : Load
load_two payload =
    if payload == "/opt/ta/local/props.conf"
    then ok (default_first (map (section_of_prop text printer) (access ∷ other ∷ [])))
    else load payload

abbrev Fails : Type 0
Fails = (e : Error) × (run machine (adapted true) text load_two "/opt/ta" ≡ ([], failed e))

inputs_read : read_inputs machine (adapted true) text load_two "/opt/ta" ≡ some (ok (input ∷ []))
unfolding read_inputs FilePath.join read_input get Read.input_of_section
inputs_read = refl

transforms_read : read_transforms_file machine (adapted true) text load_two "/opt/ta" ≡ some (ok [])
unfolding read_transforms_file FilePath.join
transforms_read = refl

props_read :
    read_props_file machine (adapted true) text load_two "/opt/ta" ≡ some (ok (access ∷ other ∷ []))
unfolding read_props_file FilePath.join read_props order_props Props.parse_field_alias_expr
    Props.prop_of_section Printed.value_of
props_read = refl

run-alias_clash_example : Fails
unfolding contains enabled is_disabled get
run-alias_clash_example =
    run-alias_clash (adapted true) adapter machine defaults text load_two "/opt/ta"
      (adapted-IsAdapted true) adapter-IsStrict [] "FIELDALIAS-a" [] [] [] access other (input ∷ [])
      [] input refl refl refl inputs_read transforms_read props_read refl

run-source_type_example : Fails
unfolding enabled is_disabled get
run-source_type_example =
    run-source_type (adapted true) adapter machine defaults text load_two "/opt/ta"
      (adapted-IsAdapted true) adapter-IsStrict [] [] (other ∷ []) access (input ∷ []) [] input refl
      refl inputs_read transforms_read props_read refl
