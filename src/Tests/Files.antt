-- ===== src/Tests/Files.antt =====
-- Paths, parameters and sections at concrete inputs.
use mathlib.Core.List.{Perm}
use tarunner.Base.{◌≡◌, refl, String, false, some, List, [], ◌∷◌}
use tarunner.Base.Result.{ok, err, external, outside_base_dir}
use tarunner.Conf.Data.{Param, Params}
use tarunner.Conf.Params.{get}
use tarunner.Conf.Read.{read_all, fill, write}
use tarunner.Conf.Read.Filled.{read_each, read_all-read_each}
use tarunner.Conf.Props.{
  Text, no_prop, prop_of_section, order_props, read_props, int_or_zero, bool_or_false,
  read_props_transforms, read_field_aliases,
}
use tarunner.Conf.Props.Order.{Sorts, Ordered, ComesFirst, order_props-Ordered}
use tarunner.Conf.Props.Insertion.{sort, sort-Perm, sort-Ordered}
use tarunner.Env.{Env}
use tarunner.FilePath
use tarunner.Base.Dict.Size.{contains}
use tarunner.Ini.{Section, Load, HasDefaultFirst}
use tarunner.Conf.Props.Names.{DistinctTexts}
use tarunner.Operator.Routing.Route.{DistinctIds}
use tarunner.Receiver.{Config}
use tarunner.Receiver.Kinds.{tcp, base_config}
use tarunner.Receiver.Kinds.Distinct.{read_props-DistinctIds}
use tarunner.Script.{resolve_path, get_path}
use tarunner.Script.Inside.{IsBelow, get_path-IsBelow}

abbrev machine : Env
machine = record {
  url_parse = λ s. ok (record { scheme = "script"; host = "."; path = "/bin/run.sh" });
  getwd = ok "/home";
  goos = "linux";
  goarch = "amd64";
  quote = λ s. s;
}

inside : get_path machine "/opt/ta" "bin/run.sh" ≡ ok "/opt/ta/bin/run.sh"
unfolding get_path resolve_path FilePath.split_from FilePath.is_abs FilePath.back FilePath.resolve
    FilePath.parse FilePath.join_elements FilePath.print FilePath.clean FilePath.join FilePath.abs
    FilePath.target_elements FilePath.strip FilePath.up_and_down FilePath.same_bool FilePath.rel
inside = refl

outside : get_path machine "/opt/ta" "../x" ≡ err (outside_base_dir "/opt/x")
unfolding get_path resolve_path FilePath.split_from FilePath.is_abs FilePath.back FilePath.resolve
    FilePath.parse FilePath.join_elements FilePath.print FilePath.clean FilePath.join FilePath.abs
    FilePath.target_elements FilePath.strip FilePath.up_and_down FilePath.same_bool FilePath.rel
outside = refl

get_path-IsBelow_example :
    (abs_base : String) × (FilePath.abs machine.getwd "/opt/ta" ≡ ok abs_base)
    × IsBelow abs_base "/opt/ta/bin/run.sh"
get_path-IsBelow_example =
    get_path-IsBelow machine "/opt/ta" "bin/run.sh" "/opt/ta/bin/run.sh" inside

abbrev command : String
command = "/opt/ta/bin/run.sh"

abbrev host_a : Param
host_a = record { name = "host"; value = "a" }

abbrev params : Params
params = host_a ∷ record { name = "host"; value = "b" } ∷ []

found : get params "host" ≡ some host_a
unfolding get
found = refl

-- A section with no keys.
abbrev bare : String → Section
bare name = record {
  name = name;
  keys = [];
  key_string = λ key. "";
  key_int = λ key. err (external "int");
  key_bool = λ key. err (external "bool");
}

abbrev sections : List Section
sections = bare "DEFAULT" ∷ bare "access" ∷ []

abbrev sections-HasDefaultFirst : HasDefaultFirst sections
sections-HasDefaultFirst = record {
  rest = bare "access" ∷ [];
  default = bare "DEFAULT";
  split = refl;
  is_first = refl;
  once = (refl, tt);
}

-- Insertion sort for sort.Slice; no name is less than another.
abbrev pub text : Text
text = record {
  split_commas = λ s. s ∷ [];
  trim_space = λ s. s;
  field_alias_submatch = λ s. [];
  string_less = λ s t. false;
  sort_slice = sort;
}

read_all-read_each_example :
    read_all no_prop (prop_of_section text) sections
    ≡ some (read_each (prop_of_section text) (bare "access" ∷ []))
read_all-read_each_example =
    read_all-read_each (prop_of_section text) no_prop sections sections-HasDefaultFirst

pub text-Sorts : Sorts text.sort_slice
text-Sorts = record { permutes = sort-Perm; ordered = sort-Ordered }

order_props-Ordered_example :
    Perm
      (order_props text
        (record no_prop { name = "b" } ∷ record no_prop { name = "source::a" } ∷ []))
      (record no_prop { name = "b" } ∷ record no_prop { name = "source::a" } ∷ [])
    × Ordered (ComesFirst text) (
        order_props text
          (record no_prop { name = "b" } ∷ record no_prop { name = "source::a" } ∷ []))
order_props-Ordered_example =
    order_props-Ordered text text-Sorts
      (record { asymmetric = λ s t e. refl; negatively_transitive = λ s t u e e'. refl })
      (record no_prop { name = "b" } ∷ record no_prop { name = "source::a" } ∷ [])

abbrev load : Load
load payload = ok sections

abbrev props_config : Config
props_config = record {
  base_dir = "/opt/ta";
  input = record {
    server_host = "";
    server_uri = "";
    session_key = "";
    checkpoint_dir = "";
    stanza = record { name = "tcp://:9997"; app = "tarunner"; params = [] };
  };
  transforms = [];
  props = order_props text (record no_prop { name = "access" } ∷ []);
}

props_config-read : read_props text load "" ≡ some (ok props_config.props)
unfolding read_props read_all fill write prop_of_section int_or_zero bool_or_false
    read_props_transforms read_field_aliases
props_config-read = refl

read_props-DistinctIds_example : DistinctIds (base_config false (λ s. s) tcp props_config)
unfolding DistinctTexts contains
read_props-DistinctIds_example =
    read_props-DistinctIds (λ s. s) tcp props_config text load "" sections text-Sorts refl
      sections-HasDefaultFirst (refl, tt) props_config-read
