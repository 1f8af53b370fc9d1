-- ===== src/Receiver/Kinds/Delivered.antt =====
-- What a receiver of any of the five packages makes of the attributes of its entries.
use tarunner.Base.{String, false, Option}
use tarunner.Base.Dict.{Dict}
use tarunner.Operator.Routing.{Routing}
use tarunner.Operator.Routing.Route.{DistinctIds}
use tarunner.Operator.Stanza.{Pipeline}
use tarunner.Receiver.{Config}
use tarunner.Receiver.Kinds.{Kind, monitor, script, win_event_log, tcp, udp, base_config}
use tarunner.Receiver.Metadata.{renamed, with_path}
use tarunner.Receiver.Monitor
use tarunner.Receiver.Becomes.{Becomes, direct-Becomes, filed-Becomes}
use tarunner.Receiver.ScriptReceiver
use tarunner.Receiver.Tcp
use tarunner.Receiver.Udp
use tarunner.Receiver.WinEventLog

-- With the move of the file's path to the source in front, or without.
unfoldable pub sent_attributes : Kind → (String → Option String) → String → Option String
sent_attributes tcp f = renamed f
sent_attributes udp f = renamed f
sent_attributes _ f = renamed (with_path f)

-- While the feature gate is off: in every package, for any props and any routing of operators with
-- distinct identifiers, each entry leaves the pipeline with some attributes, and all that leave
-- have the following. The source, the source type and the index stand under com.splunk. followed by
-- their name, if the entry had them, and no longer under their name; the source is the path of the
-- file, if there is one, where a package has the operator `start`; all else is unchanged, the host
-- too, which is not renamed.
pub base_config-Becomes :
    (S : Pipeline) (quote : String → String) (kind : Kind) (cfg : Config)
    (R : Routing (base_config false quote kind cfg))
    → DistinctIds (base_config false quote kind cfg)
    → (a : Dict String) → Becomes S (base_config false quote kind cfg) R (sent_attributes kind) a
unfolding base_config Monitor.base_config ScriptReceiver.base_config WinEventLog.base_config
    Tcp.base_config Udp.base_config sent_attributes
base_config-Becomes S quote monitor cfg R d a = filed-Becomes S quote cfg R d a
base_config-Becomes S quote script cfg R d a = filed-Becomes S quote cfg R d a
base_config-Becomes S quote win_event_log cfg R d a = filed-Becomes S quote cfg R d a
base_config-Becomes S quote tcp cfg R d a = direct-Becomes S quote cfg R d a
base_config-Becomes S quote udp cfg R d a = direct-Becomes S quote cfg R d a
