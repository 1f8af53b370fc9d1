-- ===== src/Tests/Delivers.antt =====
-- The collector on an add-on with one script and no props.conf, and the entries of its receiver.
use tarunner.Base.{◌≡◌, refl, some, sym, Bool, true, false, [], ◌∷◌, map}
use tarunner.Base.Result.{ok, ok_inj}
use tarunner.Collector.Adapted.{IsAdapted}
use tarunner.FeatureGates.{Stage, alpha, beta, stable, deprecated, Registry, cook_feature_gate}
use tarunner.Collector.Delivers.{IsDistinct, Delivers, run-Becomes}
use tarunner.Conf.Props.Names.{DistinctTexts}
use tarunner.Conf.Read.Printed.{section_of_input, text_section}
use tarunner.Tests.Adapted.{adapter, defaults, inputs_only, inputs_only-IsAdapted, calls, stop, ran}
use tarunner.Tests.Delivered.{stanza, attributes}
use tarunner.Collector.{read_transforms_file, read_props_file}
use tarunner.FilePath
use tarunner.Operator.Routing.{Routing}
use tarunner.Operator.Routing.Route.{DistinctIds, routing_of_distinct}
use tarunner.Receiver.{Config}
use tarunner.Receiver.Kinds.{script, base_config}
use tarunner.Receiver.Kinds.Distinct.{base_config-DistinctIds}
use tarunner.Tests.Files.{text, text-Sorts}
use tarunner.Tests.Programs.{machine, input, load}
use tarunner.Base.Dict.Size.{contains}
use tarunner.Ini.{default_section}

load-IsDistinct : IsDistinct load
unfolding IsDistinct DistinctTexts contains
load-IsDistinct payload sections e = (
  record {
    rest = map section_of_input (input ∷ []);
    default = text_section default_section [];
    split = ok_inj (sym e);
    is_first = refl;
    once = (refl, tt);
  },
  (refl, tt),
)

abbrev is_on : Stage → Bool
is_on alpha = false
is_on _ = true

is_on-alpha : (stage : Stage) → stage ≡ alpha → is_on stage ≡ false
is_on-alpha alpha e = refl
is_on-alpha beta e = cc
is_on-alpha stable e = cc
is_on-alpha deprecated e = cc

abbrev registry : Registry
registry = record {
  is_enabled = λ gate. is_on gate.stage;
  is_enabled-alpha = λ gate e. is_on-alpha gate.stage e;
}

gated-IsAdapted :
    IsAdapted inputs_only adapter machine defaults (registry.is_enabled cook_feature_gate)
unfolding cook_feature_gate
gated-IsAdapted = inputs_only-IsAdapted

transforms_read : read_transforms_file machine inputs_only text load "/opt/ta" ≡ some (ok [])
unfolding read_transforms_file FilePath.join
transforms_read = refl

props_read : read_props_file machine inputs_only text load "/opt/ta" ≡ some (ok [])
unfolding read_props_file FilePath.join
props_read = refl

abbrev script_config : Config
script_config = record { base_dir = "/opt/ta"; input = input; transforms = []; props = [] }

gated-DistinctIds :
    DistinctIds
      (base_config (registry.is_enabled cook_feature_gate) machine.quote script script_config)
unfolding cook_feature_gate DistinctTexts
gated-DistinctIds = base_config-DistinctIds machine.quote script script_config tt

abbrev gated_routing :
    Routing (base_config (registry.is_enabled cook_feature_gate) machine.quote script script_config)
gated_routing =
    routing_of_distinct
      (base_config (registry.is_enabled cook_feature_gate) machine.quote script script_config)
      gated-DistinctIds

run-Becomes_example :
    Delivers machine inputs_only text load text-Sorts load-IsDistinct adapter defaults stanza
      "/opt/ta" calls stop [] [] input script
      (registry.is_enabled cook_feature_gate)
      gated-IsAdapted
      gated_routing
      attributes
run-Becomes_example =
    run-Becomes machine inputs_only text load text-Sorts load-IsDistinct adapter defaults stanza
      "/opt/ta" calls stop [] [] input script registry gated-IsAdapted gated_routing attributes ran
      transforms_read props_read
