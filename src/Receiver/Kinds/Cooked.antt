-- ===== src/Receiver/Kinds/Cooked.antt =====
-- What leaves a receiver of any of the five packages where there are props, whether the feature gate
-- is on or off.
use tarunner.Base.{◌≡◌, ◌↔◌, String, Bool, List, ◌∷◌}
use tarunner.Base.Dict.{Dict}
use tarunner.Conf.Data.{Prop}
use tarunner.Operator.Routing.{Routing}
use tarunner.Operator.Routing.Route.{DistinctIds}
use tarunner.Operator.Stanza.{Pipeline, Leaves}
use tarunner.Receiver.{Config, create_set_source_operator}
use tarunner.Receiver.Becomes.{sent}
use tarunner.Receiver.Cooked.{cooks, direct_iff, filed_iff}
use tarunner.Receiver.Kinds.{Kind, monitor, script, win_event_log, tcp, udp, base_config}
use tarunner.Receiver.Monitor
use tarunner.Receiver.Passage.{entry_of}
use tarunner.Receiver.ScriptReceiver
use tarunner.Receiver.Tcp
use tarunner.Receiver.Udp
use tarunner.Receiver.WinEventLog

-- The work of the operator `start`, in the packages that have it.
unfoldable pub started : Pipeline → Kind → Dict String → Dict String
started S tcp a = a
started S udp a = a
started S _ a = S.apply create_set_source_operator.action a

-- In every package, with the feature gate on or off, with at least one prop and operators with
-- distinct identifiers: of each entry exactly one set of attributes leaves the pipeline. It is what
-- the first prop's transforms, field aliases and source type make of the entry (nothing while the
-- gate is off), behind the move of the path and in front of the moves to the names with com.splunk.
-- Neither the first prop's type and name, which are the condition of its first operator, nor the
-- other props have a part in it.
pub base_config-Leaves_iff :
    (S : Pipeline) (cook : Bool) (quote : String → String) (kind : Kind) (cfg : Config) (p : Prop)
    (props : List Prop)
    → cfg.props ≡ p ∷ props
    → (R : Routing (base_config cook quote kind cfg))
    → DistinctIds (base_config cook quote kind cfg)
    → (a b : Dict String)
    → Leaves S R (entry_of (base_config cook quote kind cfg)) a b
      ↔ (b ≡ sent S (cooks S cook quote cfg.transforms p (started S kind a)))
unfolding base_config Monitor.base_config ScriptReceiver.base_config WinEventLog.base_config
    Tcp.base_config Udp.base_config started
base_config-Leaves_iff S cook quote monitor cfg p props e = filed_iff S cook quote cfg p props e
base_config-Leaves_iff S cook quote script cfg p props e = filed_iff S cook quote cfg p props e
base_config-Leaves_iff S cook quote win_event_log cfg p props e =
    filed_iff S cook quote cfg p props e
base_config-Leaves_iff S cook quote tcp cfg p props e = direct_iff S cook quote cfg p props e
base_config-Leaves_iff S cook quote udp cfg p props e = direct_iff S cook quote cfg p props e
