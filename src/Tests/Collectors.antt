-- ===== src/Tests/Collectors.antt =====
-- A run of the collector on a file system with one script input and one that is disabled.
use mathlib.Core.Path.{subst}
use tarunner.Base.{if◌then◌else◌, ◌==◌, string_eq, ◌≡◌, refl, String, false, none, List, [], ◌∷◌}
use tarunner.Base.Result.{ok, err, external, ok_inj}
use tarunner.Conf.Data.{Param, Input}
use tarunner.Conf.Props.{Text}
use tarunner.Collector.{
  Platform, create_receivers, create_receiver, create_logs, kind_of_scheme, is_disabled,
}
use tarunner.Collector.Receivers.{Ends, enabled, create_receivers-Ends}
use tarunner.Collector.Schemes.{IsLowered, with_event_log, create_receiver-with_event_log}
use tarunner.Conf.Params.{get}
use tarunner.Env.{Env, Url}
use tarunner.Ini.{Section, Load}

abbrev machine : Env
machine = record {
  url_parse = λ s. ok (record { scheme = s; host = ""; path = "/x" });
  getwd = ok "/home";
  goos = "linux";
  goarch = "amd64";
  quote = λ s. s;
}

-- A receiver is known by the name of its stanza.
abbrev platform : Platform String
platform = record {
  not_exist = λ file. none;
  read_file = λ file. ok "";
  new_exporter = ok tt;
  create_logs = λ kind path cfg. ok cfg.input.stanza.name;
  start_exporter = ok tt;
  start = λ l. ok tt;
}

abbrev text : Text
text = record {
  split_commas = λ s. s ∷ [];
  trim_space = λ s. s;
  field_alias_submatch = λ s. [];
  string_less = λ s t. false;
  sort_slice = λ less ps. ps;
}

abbrev section : String → Section
section name = record {
  name = name;
  keys = [];
  key_string = λ key. "";
  key_int = λ key. err (external "int");
  key_bool = λ key. err (external "bool");
}

abbrev load : Load
load payload = ok (section "DEFAULT" ∷ section "script" ∷ [])

abbrev input : String → List Param → Input
input name params = record {
  server_host = "";
  server_uri = "";
  session_key = "";
  checkpoint_dir = "";
  stanza = record { name = name; app = "tarunner"; params = params };
}

abbrev inputs : List Input
inputs =
    input "script" []
    ∷ input "tcp" (record { name = "disabled"; value = "1" } ∷ [])
    ∷ input "ftp" []
    ∷ []

create_receivers-Ends_example :
    Ends machine platform text load "/opt/ta" [] []
      (enabled inputs)
      []
      (create_receivers machine platform text load "/opt/ta" [] [] inputs [])
create_receivers-Ends_example =
    create_receivers-Ends machine platform text load "/opt/ta" [] [] inputs []

created :
    create_receivers machine platform text load "/opt/ta" [] [] (input "script" [] ∷ []) []
    ≡ ok ("script" ∷ [])
unfolding create_receivers create_receiver create_logs kind_of_scheme is_disabled get
created = refl

-- Of the schemes in lower case, the event log's.
abbrev to_lower : String → String
to_lower s = if s == "WinEventLog" then "wineventlog" else s

-- Every name is a URL of that scheme.
abbrev lowering : Env
lowering = record machine {
  url_parse = λ s. ok (record { scheme = "wineventlog"; host = ""; path = "/x" });
}

lowering-IsLowered : IsLowered to_lower lowering
lowering-IsLowered = record { event_log = refl; scheme = λ name parsed e. of_url parsed (ok_inj e) }
  where
    of_url :
        (parsed : Url)
        → record { scheme = "wineventlog"; host = ""; path = "/x" } ≡ parsed
        → to_lower parsed.scheme ≡ parsed.scheme
    of_url parsed e = subst (λ (u : Url). to_lower u.scheme ≡ u.scheme) e refl

create_receiver-with_event_log_example :
    create_receiver lowering
      (with_event_log (λ name cfg. ok "a") platform)
      text
      load
      "/opt/ta"
      []
      []
      (input "WinEventLog://Security" [])
    ≡ create_receiver lowering
        (with_event_log (λ name cfg. ok "b") platform)
        text
        load
        "/opt/ta"
        []
        []
        (input "WinEventLog://Security" [])
create_receiver-with_event_log_example =
    create_receiver-with_event_log to_lower lowering platform text load (λ name cfg. ok "a")
      (λ name cfg. ok "b") "/opt/ta" [] [] (input "WinEventLog://Security" []) lowering-IsLowered
