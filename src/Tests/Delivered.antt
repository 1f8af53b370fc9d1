-- ===== src/Tests/Delivered.antt =====
-- A stanza pipeline that copies and transforms nothing, and an entry of a monitored file in it.
use tarunner.Base.{
  ◌≡◌, ◌↔◌, refl, String, true, false, Option, none, some, [], ◌∷◌, arith, eq_iff, string_eq, ◌<>◌,
}
use tarunner.Base.Dict.{Dict, lookup, insert, erase, lookup-insert, lookup-erase}
use tarunner.Base.Dict.Size.{contains}
use tarunner.Conf.Data.{Prop}
use tarunner.Operator.{Action, attribute, move, noop}
use tarunner.Operator.Prop.{
  create_operator_configs, cook_operators, attach, set_output, start_operator, end_operator,
  alias_operator, source_type_operator, attach_source_type,
}
use tarunner.Operator.Routing.Route.{DistinctIds, routing_of_distinct}
use tarunner.Operator.Stanza.{Pipeline, Leaves, moved}
use tarunner.Operator.Routing.{Routing}
use tarunner.Receiver.{
  Config, create_set_source_operator, base_operators, rename_metadata, end_noop, append_props,
}
use tarunner.Receiver.Kinds.{monitor, base_config}
use tarunner.Receiver.Kinds.Delivered.{sent_attributes, base_config-Becomes}
use tarunner.Receiver.Kinds.Cooked.{started, base_config-Leaves_iff}
use tarunner.Receiver.Cooked.{cooks}
use tarunner.Receiver.Passage.{entry_of}
use tarunner.Receiver.Kinds.Sent.{entry_attributes, sent_source, base_config-sent}
use tarunner.Receiver.Attributes.{value_of}
use tarunner.Conf.Params.{get}
use tarunner.Receiver.Metadata.{renamed, with_path}
use tarunner.Receiver.Monitor
use tarunner.Receiver.Becomes.{Becomes, sent}

unfoldable pub apply : Action → Dict String → Dict String
apply (move (attribute from) (attribute to) on_error) a = elim (lookup from a) [
  | none ↦ a
  | some v ↦ insert to v (erase from a)
]
apply _ a = a

pub lookup-apply-move :
    (from to k : String) (a : Dict String)
    → lookup k (apply (move (attribute from) (attribute to) "send_quiet") a)
      ≡ moved from to (λ j. lookup j a) k
unfolding apply moved
lookup-apply-move from to k a = by_value (lookup from a) refl
  where
    by_value :
        (o : Option String)
        → lookup from a ≡ o
        → lookup k (elim o [ none ↦ a | some v ↦ insert to v (erase from a) ])
          ≡ moved from to (λ j. lookup j a) k
    by_value none e = ground (arith, eq_iff from k)
    by_value (some v) e =
        ground (arith, eq_iff from k, lookup-insert k to v (erase from a), lookup-erase k from a)

pub apply-noop : (condition : String) (a : Dict String) → apply (noop condition) a ≡ a
unfolding apply
apply-noop condition a = refl

abbrev pub stanza : Pipeline
stanza = record { apply = apply; apply-noop = apply-noop; lookup-apply-move = lookup-apply-move }

abbrev pub access : Prop
access = record {
  name = "access";
  time_prefix = "";
  time_format = "";
  datetime_config = "";
  category = "";
  source_type = "web";
  field_aliases = [];
  transforms = [];
  max_timestamp_look_ahead = 0;
  no_binary_check = false;
  should_line_merge = false;
}

abbrev pub config : Config
config = record {
  base_dir = "/opt/ta";
  input = record {
    server_host = "";
    server_uri = "";
    session_key = "";
    checkpoint_dir = "";
    stanza = record {
      name = "monitor:///var/log";
      app = "tarunner";
      params =
          record { name = "host"; value = "h1" } ∷ record { name = "source"; value = "logs" } ∷ [];
    };
  };
  transforms = [];
  props = access ∷ [];
}

abbrev quote : String → String
quote s = "'" <> (s <> "'")

monitor-DistinctIds : DistinctIds (base_config false quote monitor config)
unfolding base_config Monitor.base_config DistinctIds base_operators create_operator_configs
    cook_operators attach set_output start_operator end_operator rename_metadata end_noop
    append_props contains create_set_source_operator
monitor-DistinctIds = (refl, (refl, (refl, (refl, (refl, (refl, (refl, (refl, tt))))))))

abbrev pub attributes : Dict String
attributes = ("host", "h1") ∷ ("index", "main") ∷ ("log.file.path", "/var/log/messages") ∷ []

base_config-Becomes_example :
    Becomes stanza
      (base_config false quote monitor config)
      (routing_of_distinct (base_config false quote monitor config) monitor-DistinctIds)
      (sent_attributes monitor)
      attributes
base_config-Becomes_example =
    base_config-Becomes stanza quote monitor config
      (routing_of_distinct (base_config false quote monitor config) monitor-DistinctIds)
      monitor-DistinctIds attributes

-- The same input, without and with a file's path.
abbrev left : Option String → Dict String
left path =
    (base_config-Becomes stanza quote monitor config
      (routing_of_distinct (base_config false quote monitor config) monitor-DistinctIds)
      monitor-DistinctIds (entry_attributes config.input.stanza.params path)).0.0

base_config-sent_example :
    (lookup "com.splunk.source" (left (some "/var/log/messages"))
      ≡ sent_source monitor
          (some "/var/log/messages")
          (value_of (get config.input.stanza.params "source")))
    × (lookup "com.splunk.sourcetype" (left (some "/var/log/messages"))
        ≡ value_of (get config.input.stanza.params "sourcetype"))
    × (lookup "com.splunk.index" (left (some "/var/log/messages"))
        ≡ value_of (get config.input.stanza.params "index"))
    × (lookup "com.splunk.host" (left (some "/var/log/messages")) ≡ none)
    × (lookup "host" (left (some "/var/log/messages"))
        ≡ value_of (get config.input.stanza.params "host"))
base_config-sent_example =
    base_config-sent stanza quote monitor config
      (routing_of_distinct (base_config false quote monitor config) monitor-DistinctIds)
      monitor-DistinctIds (some "/var/log/messages") (left (some "/var/log/messages"))
      (base_config-Becomes stanza quote monitor config
        (routing_of_distinct (base_config false quote monitor config) monitor-DistinctIds)
        monitor-DistinctIds
        (entry_attributes config.input.stanza.params (some "/var/log/messages"))).0.1

-- What the exporter is given of it.
sent_test :
    (sent_attributes monitor (λ k. lookup k attributes) "com.splunk.source"
      ≡ some "/var/log/messages")
    × (sent_attributes monitor (λ k. lookup k attributes) "com.splunk.index" ≡ some "main")
    × (sent_attributes monitor (λ k. lookup k attributes) "com.splunk.host" ≡ none)
    × (sent_attributes monitor (λ k. lookup k attributes) "host" ≡ some "h1")
unfolding sent_attributes renamed with_path lookup
sent_test = (refl, refl, refl, refl)

-- The same input under the feature gate, with a prop that has an alias and one that nothing reaches.
abbrev aliased : Config
aliased = record config {
  props =
      record access {
        source_type = "";
        field_aliases = record { name = "FIELDALIAS-a"; from = "sender"; to = "src" } ∷ [];
      }
      ∷ record access { name = "other" }
      ∷ [];
}

aliased-DistinctIds : DistinctIds (base_config true quote monitor aliased)
unfolding base_config Monitor.base_config DistinctIds base_operators create_operator_configs
    cook_operators attach set_output start_operator end_operator rename_metadata end_noop
    append_props contains create_set_source_operator alias_operator source_type_operator
    attach_source_type
aliased-DistinctIds = (
  refl,
  (refl, (refl, (refl, (refl, (refl, (refl, (refl, (refl, (refl, (refl, (refl, tt))))))))))),
)

abbrev aliased_routing : Routing (base_config true quote monitor aliased)
aliased_routing = routing_of_distinct (base_config true quote monitor aliased) aliased-DistinctIds

abbrev aliased_sent : Dict String
aliased_sent = sent stanza (
    cooks stanza true quote []
      (record access {
        source_type = "";
        field_aliases = record { name = "FIELDALIAS-a"; from = "sender"; to = "src" } ∷ [];
      })
      (started stanza monitor attributes))

base_config-Leaves_iff_example :
    Leaves stanza aliased_routing
      (entry_of (base_config true quote monitor aliased))
      attributes
      aliased_sent
    ↔ (aliased_sent ≡ aliased_sent)
base_config-Leaves_iff_example =
    base_config-Leaves_iff stanza true quote monitor aliased
      (record access {
        source_type = "";
        field_aliases = record { name = "FIELDALIAS-a"; from = "sender"; to = "src" } ∷ [];
      })
      (record access { name = "other" } ∷ []) refl aliased_routing aliased-DistinctIds attributes
      aliased_sent
