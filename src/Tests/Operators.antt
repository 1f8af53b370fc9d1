-- ===== src/Tests/Operators.antt =====
-- The operators of one prop with a transform, an alias and a source type, and a receiver's pipeline.
use tarunner.Operator.Links.{chain}
use tarunner.Base.{◌≡◌, refl, ◌↔◌, String, ◌<>◌, true, false, List, [], ◌∷◌, ◌++◌, string_eq}
use tarunner.Base.Dict.Size.{contains}
use tarunner.Conf.Data.{Input, Transform, Prop}
use tarunner.Operator.{OperatorConfig}
use tarunner.Operator.Prop.{
  create_operator_configs, cook_operators, attach, set_output, start_operator, end_operator,
}
use tarunner.Receiver.Tcp
use tarunner.Operator.Prop.Chained.{prop_operators, create_operator_configs-chain}
use tarunner.Operator.Routing.{Reaches}
use tarunner.Operator.Routing.Route.{DistinctIds, routing_of_distinct}
use tarunner.Receiver.{
  Config, create_set_source_operator, base_operators, rename_metadata, end_noop, append_props,
}
use tarunner.Receiver.FirstProp.{start-Reaches, first_ids}
use tarunner.Receiver.Reach.{end_ids}
use tarunner.Receiver.Kinds.{tcp, base_config, end-Reaches_iff}

abbrev quote : String → String
quote s = "'" <> (s <> "'")

abbrev access : Prop
access = record {
  name = "access";
  time_prefix = "";
  time_format = "";
  datetime_config = "";
  category = "";
  source_type = "web";
  field_aliases = record { name = "FIELDALIAS-a"; from = "sender"; to = "src" } ∷ [];
  transforms = record { class = "TRANSFORMS-a"; stanza = "hide" ∷ "absent" ∷ [] } ∷ [];
  max_timestamp_look_ahead = 0;
  no_binary_check = false;
  should_line_merge = false;
}

abbrev hide : Transform
hide = record { name = "hide"; regex = "(x)"; format = "y" }

create_operator_configs-chain_example :
    create_operator_configs true quote access (hide ∷ [])
    ≡ chain (prop_operators quote access (hide ∷ []) true) "end"
create_operator_configs-chain_example = create_operator_configs-chain quote access (hide ∷ []) true

abbrev input : Input
input = record {
  server_host = "";
  server_uri = "";
  session_key = "";
  checkpoint_dir = "";
  stanza = record {
    name = "monitor:///var/log";
    app = "tarunner";
    params =
        record { name = "host"; value = "h1" } ∷ record { name = "index"; value = "main" } ∷ [];
  };
}

abbrev receiver_config : Config
receiver_config = record {
  base_dir = "/opt/ta";
  input = input;
  transforms = [];
  props = access ∷ record access { name = "other" } ∷ [];
}

abbrev operators : List OperatorConfig
operators =
    base_operators false quote (create_set_source_operator ∷ []) rename_metadata receiver_config

operators-DistinctIds : DistinctIds operators
unfolding DistinctIds base_operators create_operator_configs cook_operators attach set_output
    start_operator end_operator rename_metadata end_noop append_props contains
    create_set_source_operator
operators-DistinctIds =
    (refl, (refl, (refl, (refl, (refl, (refl, (refl, (refl, (refl, (refl, tt))))))))))

start-Reaches_example :
    Reaches (routing_of_distinct operators operators-DistinctIds) "start" "end"
    × ((id : String)
        → Reaches (routing_of_distinct operators operators-DistinctIds) "start" id
        → contains id (
            "start"
            ∷ (first_ids false quote receiver_config access
                  (record access { name = "other" } ∷ [])
                  refl
                ++ end_ids))
          ≡ true)
start-Reaches_example =
    start-Reaches false quote receiver_config access (record access { name = "other" } ∷ []) refl
      (routing_of_distinct operators operators-DistinctIds)

abbrev tcp_config : Config
tcp_config = record receiver_config { props = [] }

tcp-DistinctIds : DistinctIds (base_config false quote tcp tcp_config)
unfolding base_config Tcp.base_config DistinctIds base_operators rename_metadata end_noop
    append_props contains
tcp-DistinctIds = (refl, (refl, (refl, (refl, (refl, tt)))))

end-Reaches_iff_example :
    Reaches
      (routing_of_distinct (base_config false quote tcp tcp_config) tcp-DistinctIds)
      "end"
      "end-host"
    ↔ (contains "end-host" end_ids ≡ true)
end-Reaches_iff_example =
    end-Reaches_iff false quote tcp tcp_config
      (routing_of_distinct (base_config false quote tcp tcp_config) tcp-DistinctIds) "end-host"
