-- ===== src/Receiver/Kinds/Distinct.antt =====
-- The identifiers of the operators of a receiver of any of the five packages.
use tarunner.Base.{◌≡◌, All, String, ◌<>◌, true, false, some, List, ◌∷◌, ◌++◌, map}
use tarunner.Base.Dict.Size.{contains}
use tarunner.Base.Result.{ok}
use tarunner.Conf.Data.{Prop}
use tarunner.Conf.Props.{Text, read_props}
use tarunner.Conf.Props.Names.{DistinctNames, DistinctTexts, title_of, read_props-DistinctNames}
use tarunner.Conf.Props.Order.{Sorts}
use tarunner.Ini.{Section, Load, HasDefaultFirst}
use tarunner.Operator.Routing.Distinct.{Twice}
use tarunner.Operator.Routing.Route.{DistinctIds}
use tarunner.Receiver.{Config, rename_metadata}
use tarunner.Receiver.Aliases.{alias_name, base_operators-clash, base_operators-Twice}
use tarunner.Receiver.Copies.{alias_names}
use tarunner.Receiver.Copies.Operators.{OnlyAliases, direct-Distinct, filed-Distinct}
use tarunner.Receiver.Identifiers.{direct-DistinctIds, filed-DistinctIds}
use tarunner.Receiver.Kinds.{Kind, monitor, script, win_event_log, tcp, udp, base_config}
use tarunner.Receiver.Monitor
use tarunner.Receiver.ScriptReceiver
use tarunner.Receiver.Tcp
use tarunner.Receiver.Udp
use tarunner.Receiver.WinEventLog

-- While the feature gate is off: in every package, no two operators have the same identifier if no
-- two props have the same name.
pub base_config-DistinctIds :
    (quote : String → String) (kind : Kind) (cfg : Config)
    → DistinctNames cfg.props
    → DistinctIds (base_config false quote kind cfg)
unfolding base_config Monitor.base_config ScriptReceiver.base_config WinEventLog.base_config
    Tcp.base_config Udp.base_config
base_config-DistinctIds quote monitor cfg d = filed-DistinctIds quote cfg d
base_config-DistinctIds quote script cfg d = filed-DistinctIds quote cfg d
base_config-DistinctIds quote win_event_log cfg d = filed-DistinctIds quote cfg d
base_config-DistinctIds quote tcp cfg d = direct-DistinctIds quote cfg d
base_config-DistinctIds quote udp cfg d = direct-DistinctIds quote cfg d

-- While the feature gate is off: in every package, no two operators have the same identifier if the
-- props are those that ReadProps gives of a file whose sections behind the default one have distinct
-- names, and sort.Slice permutes what it sorts.
pub read_props-DistinctIds :
    (quote : String → String) (kind : Kind) (cfg : Config) (text : Text) (load : Load)
    (payload : String) (sections : List Section)
    → Sorts text.sort_slice
    → load payload ≡ ok sections
    → (d : HasDefaultFirst sections) → DistinctTexts (map title_of d.rest)
    → read_props text load payload ≡ some (ok cfg.props)
    → DistinctIds (base_config false quote kind cfg)
read_props-DistinctIds quote kind cfg text load payload sections H loaded d distinct read =
    base_config-DistinctIds quote kind cfg
      (read_props-DistinctNames text load payload sections cfg.props H loaded d distinct read)

-- Under the feature gate: in every package, no two operators have the same identifier if no two
-- props have the same name, no two field aliases of all props have the same name, and of no prop
-- is there a source type or a transform.
pub base_config-DistinctIds_cooked :
    (quote : String → String) (kind : Kind) (cfg : Config)
    → DistinctNames cfg.props
    → DistinctTexts (alias_names cfg.props)
    → All (OnlyAliases quote cfg.transforms) cfg.props
    → DistinctIds (base_config true quote kind cfg)
unfolding base_config Monitor.base_config ScriptReceiver.base_config WinEventLog.base_config
    Tcp.base_config Udp.base_config
base_config-DistinctIds_cooked quote monitor cfg d a only = filed-Distinct quote cfg d a only
base_config-DistinctIds_cooked quote script cfg d a only = filed-Distinct quote cfg d a only
base_config-DistinctIds_cooked quote win_event_log cfg d a only = filed-Distinct quote cfg d a only
base_config-DistinctIds_cooked quote tcp cfg d a only = direct-Distinct quote cfg d a only
base_config-DistinctIds_cooked quote udp cfg d a only = direct-Distinct quote cfg d a only

-- Under the feature gate: in every package, two operators have the same identifier if two props have
-- an alias of the same name.
pub base_config-clash :
    (quote : String → String) (kind : Kind) (cfg : Config) (name : String)
    (before between after : List Prop) (p q : Prop)
    → cfg.props ≡ before ++ p ∷ (between ++ q ∷ after)
    → contains name (map alias_name p.field_aliases) ≡ true
    → contains name (map alias_name q.field_aliases) ≡ true
    → ¬ DistinctIds (base_config true quote kind cfg)
unfolding base_config Monitor.base_config ScriptReceiver.base_config WinEventLog.base_config
    Tcp.base_config Udp.base_config
base_config-clash quote monitor cfg = base_operators-clash quote _ rename_metadata cfg
base_config-clash quote script cfg = base_operators-clash quote _ rename_metadata cfg
base_config-clash quote win_event_log cfg = base_operators-clash quote _ rename_metadata cfg
base_config-clash quote tcp cfg = base_operators-clash quote _ rename_metadata cfg
base_config-clash quote udp cfg = base_operators-clash quote _ rename_metadata cfg

-- Under the feature gate, of an alias of that name in two props.
pub base_config-Twice :
    (quote : String → String) (kind : Kind) (cfg : Config) (name : String)
    (before between after : List Prop) (p q : Prop)
    → cfg.props ≡ before ++ p ∷ (between ++ q ∷ after)
    → contains name (map alias_name p.field_aliases) ≡ true
    → contains name (map alias_name q.field_aliases) ≡ true
    → Twice (name <> "-copy") (base_config true quote kind cfg)
unfolding base_config Monitor.base_config ScriptReceiver.base_config WinEventLog.base_config
    Tcp.base_config Udp.base_config
base_config-Twice quote monitor cfg = base_operators-Twice quote _ rename_metadata cfg
base_config-Twice quote script cfg = base_operators-Twice quote _ rename_metadata cfg
base_config-Twice quote win_event_log cfg = base_operators-Twice quote _ rename_metadata cfg
base_config-Twice quote tcp cfg = base_operators-Twice quote _ rename_metadata cfg
base_config-Twice quote udp cfg = base_operators-Twice quote _ rename_metadata cfg
