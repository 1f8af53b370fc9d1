-- ===== src/Tests/Programs.antt =====
-- The program on an add-on with one script, and files that print given records.
use tarunner.Base.{
  ◌≡◌, refl, String, Bool, true, false, none, some, [], ◌∷◌, map, ◌==◌, string_eq, if◌then◌else◌,
}
use tarunner.Base.Result.{ok, err, external}
use tarunner.Collector.{Platform}
use tarunner.Conf.Data.{Input, Prop}
use tarunner.Conf.Props
use tarunner.Conf.Props.{Text, order_props, read_props}
use tarunner.Conf.Props.Printed.{
  Printer, IsAlias, IsClass, IsPlain, Inverse, section_of_prop, read_props-section_of_prop,
}
use tarunner.Conf.Read.{read_input}
use tarunner.Conf.Read.Printed.{section_of_input, default_first, read_input-section_of_input}
use tarunner.Env.{Env}
use tarunner.Ini.{Load}
use tarunner.Program.{main}
use tarunner.Program.Ends.{Ends, main-Ends}
use tarunner.Settings.{Decoder, Exporters}

abbrev pub machine : Env
machine = record {
  url_parse = λ s. ok (record { scheme = s; host = ""; path = "/x" });
  getwd = ok "/home";
  goos = "linux";
  goarch = "amd64";
  quote = λ s. s;
}

-- A receiver is known by the name of its stanza.
abbrev platform : Platform String
platform = record {
  not_exist = λ file. none;
  read_file = λ file. ok "";
  new_exporter = ok tt;
  create_logs = λ kind path cfg. ok cfg.input.stanza.name;
  start_exporter = ok tt;
  start = λ l. ok tt;
}

abbrev pub text : Text
text = record {
  split_commas = λ s. s ∷ [];
  trim_space = λ s. s;
  field_alias_submatch = λ s. s ∷ s ∷ s ∷ [];
  string_less = λ s t. false;
  sort_slice = λ less ps. ps;
}

abbrev pub input : Input
input = record {
  server_host = "";
  server_uri = "";
  session_key = "";
  checkpoint_dir = "";
  stanza = record {
    name = "script";
    app = "tarunner";
    params = record { name = "host"; value = "h" } ∷ [];
  };
}

-- Every file has the section of this input.
abbrev pub load : Load
load payload = ok (default_first (map section_of_input (input ∷ [])))

read_input-section_of_input_example : read_input load "" ≡ some (ok (input ∷ []))
read_input-section_of_input_example = read_input-section_of_input load "" (input ∷ []) refl (
  record {
    named = refl;
    app = refl;
    server_host = refl;
    server_uri = refl;
    session_key = refl;
    checkpoint_dir = refl;
  },
  tt,
)

abbrev pub access : Prop
access = record {
  name = "access";
  time_prefix = "^";
  time_format = "";
  datetime_config = "";
  category = "";
  source_type = "web";
  field_aliases = record { name = "FIELDALIAS-a"; from = "src"; to = "src" } ∷ [];
  transforms = record { class = "TRANSFORMS-a"; stanza = "hide" ∷ [] } ∷ [];
  max_timestamp_look_ahead = 7;
  no_binary_check = true;
  should_line_merge = true;
}

-- A prop of which every number is 7 and every truth value true.
abbrev pub printer : Printer
printer = record {
  print_int = λ n. "7";
  print_bool = λ b. if b then "true" else "false";
  join_commas = λ ss. "hide";
  alias_expr = λ from to. from;
  to_int = λ s. ok 7;
  to_bool = λ s. ok (s == "true");
}

printer-Inverse : Inverse text printer
printer-Inverse = record { bool_back = λ b. from b; bool_written = λ b. written b }
  where
    from : (b : Bool) → printer.to_bool (printer.print_bool b) ≡ ok b
    from true = refl
    from false = refl

    written : (b : Bool) → (printer.print_bool b == "") ≡ false
    written true = refl
    written false = refl

access-IsPlain : IsPlain text printer access
unfolding IsAlias IsClass Props.parse_field_alias_expr
access-IsPlain = record {
  int_back = refl;
  int_written = refl;
  named = refl;
  aliases = ((refl, refl, refl), tt);
  classes = ((refl, refl, refl), tt);
}

abbrev load_props : Load
load_props payload = ok (default_first (map (section_of_prop text printer) (access ∷ [])))

read_props-section_of_prop_example :
    read_props text load_props "" ≡ some (ok (order_props text (access ∷ [])))
read_props-section_of_prop_example =
    read_props-section_of_prop text printer load_props "" (access ∷ []) printer-Inverse refl
      (access-IsPlain, tt)

abbrev decoder : Decoder String
decoder = record { yaml = λ s. ok s; unmarshal = λ raw cfg. (cfg, none) }

abbrev exporters : Exporters
exporters = record {
  new_production = ok tt;
  validate_otlp = λ endpoint. ok tt;
  create_otlp = λ endpoint. ok tt;
  validate_hec = λ endpoint token. err (external "hec");
  create_hec = λ endpoint token. err (external "hec");
}

main-Ends_example :
    Ends machine platform text load decoder exporters true
      (main machine platform text load decoder exporters true ("tarunner" ∷ "/opt/ta" ∷ []))
main-Ends_example =
    main-Ends machine platform text load decoder exporters true ("tarunner" ∷ "/opt/ta" ∷ [])
