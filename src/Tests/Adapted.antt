-- ===== src/Tests/Adapted.antt =====
-- The collector over an adapter that builds what the pipeline accepts, under the feature gate.
use tarunner.Operator.Links.{action_of}
use tarunner.Base.{
  ◌≡◌, refl, arith, Bool-cases, sym, ap, ◌∙◌, inl, inr, String, Bool, true, false, Option, none,
  some, List, [], ◌∷◌, ◌++◌, map, ◌==◌, string_eq, if◌then◌else◌, ◌<>◌,
}
use tarunner.Base.Dict.Size.{contains, contains-cons}
use tarunner.Base.Optional.{◌>>=◌}
use tarunner.Base.Result.{Result, ok, err, external, ok_inj}
use tarunner.Collector.{
  Platform, Call, start_exporter, start, shutdown, shutdown_exporter, running, create_receivers,
  run_receivers, shut_down, create_receiver, run, read_inputs, read_transforms_file,
  read_props_file,
}
use tarunner.Collector.Adapted.{IsAdapted, AllBuilt, run-AllBuilt}
use tarunner.Collector.Packages.{run_packages}
use tarunner.Collector.Started.{Serves}
use tarunner.Collector.Total.{IsOrdered, NotPanicked, run_packages-NotPanicked}
use tarunner.Receiver.ScriptReceiver
use tarunner.Collector.Refused.{IsStrict}
use tarunner.Conf.Params.{get}
use tarunner.Conf.Read
use tarunner.Conf.Read.{read_input}
use tarunner.Conf.Read.Printed.{section_of_input, text_section}
use tarunner.Ini.{default_section}
use tarunner.Collector.Receivers.{enabled}
use tarunner.FilePath
use tarunner.Tests.Files.{text}
use tarunner.Tests.Programs.{machine, access, input, load}
use tarunner.Operator.{OperatorConfig}
use tarunner.Operator.Routing.Distinct.{contains-right}
use tarunner.Operator.Routing.Route.{ids}
use tarunner.Receiver.{Config, rename_metadata, create_set_source_operator}
use tarunner.Receiver.Kinds.{monitor, script, tcp, base_config}
use tarunner.Receiver.Kinds.Adapter.{Adapter, create_logs-boxed, create_logs-default}
use tarunner.Receiver.Kinds.Boxed.{boxed}
use tarunner.Receiver.Kinds.Types.{
  InputOperator, Defaults, log_receiver_type, input_of, scripted, new_config,
}
use tarunner.Receiver.Unset.{any_unset_copy, is_unset_copy}

abbrev pub any_twice : List String → Bool
any_twice [] = false
any_twice (id ∷ rest) = let later = any_twice rest in if contains id rest then true else later

Twice-any_twice :
    (id : String) (xs ys : List OperatorConfig)
    → contains id (ids xs) ≡ true
    → contains id (ids ys) ≡ true
    → any_twice (ids (xs ++ ys)) ≡ true
unfolding contains
Twice-any_twice id [] ys h k = cc
Twice-any_twice id (x ∷ xs) ys h k = elim (contains-cons x.operator_id id (ids xs) h) [
  | inl here ↦ rw (here, contains-right id xs ys k) refl
  | inr later ↦ ground (arith, Twice-any_twice id xs ys later k)
]

-- A receiver is its name, its input and the operators behind it.
abbrev pub Receiver : Type 0
Receiver = String × InputOperator × List OperatorConfig

abbrev pub build : String → InputOperator → List OperatorConfig → Result Receiver
build name operator ops =
    if any_twice (ids ops)
    then err (external "operator already exists in pipeline")
    else if any_unset_copy (map action_of ops)
    then err (external "copy: missing from field")
    else ok (name, operator, ops)

abbrev pub adapter : Adapter Receiver
adapter = record {
  create_logs = λ t name c.
      t.input_config c >>= (λ input. t.base_config c >>= (λ ops. some (build name input ops)));
  build = build;
  create_logs_lem = λ t name c. refl;
}

pub adapter-IsStrict : IsStrict adapter
adapter-IsStrict = record {
  distinct = λ name stem operator ops (xs, ys, e, h, k).
      let twice : any_twice (ids ops) ≡ true = rw e (Twice-any_twice (stem <> "-copy") xs ys h k) in
      (external "operator already exists in pipeline", rw twice refl);
  fields = λ name operator ops h. elim (Bool-cases (any_twice (ids ops))) [
    | inl twice ↦ (external "operator already exists in pipeline", rw twice refl)
    | inr once ↦ (external "copy: missing from field", rw (once, h) refl)
  ];
}

abbrev pub defaults : Defaults
defaults = record {
  file_input = record {
    include = [];
    exclude = [];
    attributes = [];
    include_file_path = false;
    encoding = "utf-8";
  };
  windows_input = record { channel = ""; attributes = [] };
  tcp_input = record { listen_address = ""; attributes = []; encoding = "utf-8" };
  udp_input = record {
    listen_address = "";
    attributes = [];
    encoding = "utf-8";
    line_start_pattern = "";
    line_end_pattern = "";
    omit_pattern = false;
  };
  new_input_config = λ operator_id type. [];
}

abbrev with_input : String → List OperatorConfig → Option InputOperator → Result Receiver
with_input name ops none = err (external "no input")
with_input name ops (some operator) = build name operator ops

-- There is no transforms.conf, and every other file holds its name.
abbrev pub adapted : Bool → Platform Receiver
adapted cook = record {
  not_exist = λ file.
      if file == "/opt/ta/local/transforms.conf"
      then some (external "stat")
      else if file == "/opt/ta/default/transforms.conf"
      then some (external "stat")
      else none;
  read_file = λ file. ok file;
  new_exporter = ok tt;
  create_logs = λ kind name cfg.
      with_input name (base_config cook machine.quote kind cfg)
        (input_of machine defaults cook kind cfg);
  start_exporter = ok tt;
  start = λ l. ok tt;
}

pub adapted-IsAdapted : (cook : Bool) → IsAdapted (adapted cook) adapter machine defaults cook
adapted-IsAdapted cook = record {
  creates = λ kind name cfg parsed e.
      let (input, found, built) =
        create_logs-boxed adapter machine defaults cook kind name cfg parsed e in
      built
      ∙ ap (λ o. some (with_input name (base_config cook machine.quote kind cfg) o)) (sym found);
}

abbrev config : Config
config = record { base_dir = "/opt/ta"; input = input; transforms = []; props = access ∷ [] }

create_logs-boxed_example :
    (operator : InputOperator) × (input_of machine defaults true tcp config ≡ some operator)
    × (adapter.create_logs (log_receiver_type machine defaults true tcp) "/x" (boxed tcp config)
        ≡ some (adapter.build "/x" operator (base_config true machine.quote tcp config)))
create_logs-boxed_example =
    create_logs-boxed adapter machine defaults true tcp "/x" config
      (record { scheme = "script"; host = ""; path = "/x" }) refl

create_logs-default_example :
    adapter.create_logs
      (log_receiver_type machine defaults false monitor)
      "/x"
      ((log_receiver_type machine defaults false monitor).create_default_config)
    ≡ none
create_logs-default_example =
    create_logs-default adapter machine defaults false monitor "/x" (λ e. cc)

-- Of the files only an inputs.conf is there, and the gate is off.
abbrev pub inputs_only : Platform Receiver
inputs_only = record (adapted false) {
  not_exist = λ file. if file == "/opt/ta/local/inputs.conf" then none else some (external "stat");
}

pub inputs_only-IsAdapted : IsAdapted inputs_only adapter machine defaults false
inputs_only-IsAdapted = record { creates = (adapted-IsAdapted false).creates }

abbrev receiver : Receiver
receiver = (
  "/x",
  scripted (ScriptReceiver.input_config (new_config defaults) (record config { props = [] })),
  base_config false machine.quote script (record config { props = [] }),
)

abbrev pub calls : List (Call Receiver)
calls = start_exporter ∷ start receiver ∷ []

abbrev pub stop : List (Call Receiver)
stop = shutdown receiver ∷ shutdown_exporter ∷ []

pub ran : run machine inputs_only text load "/opt/ta" ≡ (calls, running stop)
unfolding run read_inputs read_transforms_file read_props_file create_receivers run_receivers
    FilePath.join read_input get Read.input_of_section create_receiver shut_down input_of
    base_config ScriptReceiver.base_config contains rename_metadata create_set_source_operator
    is_unset_copy
ran = refl

run-AllBuilt_example :
    (s : Serves machine inputs_only text load "/opt/ta" calls stop) × AllBuilt inputs_only adapter
      machine defaults false inputs_only-IsAdapted text load "/opt/ta" s.transforms s.props
      (enabled s.inputs)
      s.receivers
run-AllBuilt_example =
    run-AllBuilt inputs_only adapter machine defaults false inputs_only-IsAdapted text load
      "/opt/ta" calls stop ran

load-IsOrdered : IsOrdered load
unfolding IsOrdered
load-IsOrdered payload sections e = record {
  rest = map section_of_input (input ∷ []);
  default = text_section default_section [];
  split = ok_inj (sym e);
  is_first = refl;
  once = (refl, tt);
}

run_packages-NotPanicked_example :
    NotPanicked load load-IsOrdered machine inputs_only text
      (run_packages adapter machine defaults true inputs_only text load "/opt/ta")
run_packages-NotPanicked_example =
    run_packages-NotPanicked load load-IsOrdered machine inputs_only text adapter defaults true
      "/opt/ta"
