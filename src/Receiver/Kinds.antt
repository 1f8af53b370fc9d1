-- ===== src/Receiver/Kinds.antt =====
-- The five packages under internal/receiver, side by side.
pub mod Delivered
pub mod Sent
pub mod Distinct
pub mod Boxed
pub mod Types
pub mod Adapter
pub mod Cooked
pub mod Aliased
use tarunner.Base.{◌↔◌, ◌≡◌, String, Bool, true, List, [], ◌∷◌}
use tarunner.Base.Dict.Size.{contains}
use tarunner.Operator.{OperatorConfig}
use tarunner.Operator.Routing.{Routing, Reaches}
use tarunner.Receiver.{Config, create_set_source_operator}
use tarunner.Receiver.Monitor
use tarunner.Receiver.ScriptReceiver
use tarunner.Receiver.WinEventLog
use tarunner.Receiver.Tcp
use tarunner.Receiver.Udp
use tarunner.Receiver.Reach

pub data Kind : Type 0 where
  monitor script win_event_log tcp udp : Kind

module _ (cook : Bool) (quote : String → String) where
  unfoldable pub base_config : Kind → Config → List OperatorConfig
  base_config monitor = Monitor.base_config cook quote
  base_config script = ScriptReceiver.base_config cook quote
  base_config win_event_log = WinEventLog.base_config cook quote
  base_config tcp = Tcp.base_config cook quote
  base_config udp = Udp.base_config cook quote

  -- In every package, from the operator `end` an entry passes through the renaming of the source,
  -- of the source type and of the index, and through no other operator: not through `end-host`,
  -- which would rename the host.
  pub end-Reaches_iff :
      (kind : Kind) (cfg : Config) (R : Routing (base_config kind cfg)) (id : String)
      → Reaches R "end" id ↔ (contains id Reach.end_ids ≡ true)
  unfolding base_config Monitor.base_config ScriptReceiver.base_config WinEventLog.base_config
      Tcp.base_config Udp.base_config
  end-Reaches_iff monitor cfg R =
      Reach.end-Reaches_iff cook quote (create_set_source_operator ∷ []) cfg R
  end-Reaches_iff script cfg R =
      Reach.end-Reaches_iff cook quote (create_set_source_operator ∷ []) cfg R
  end-Reaches_iff win_event_log cfg R =
      Reach.end-Reaches_iff cook quote (create_set_source_operator ∷ []) cfg R
  end-Reaches_iff tcp cfg R = Reach.end-Reaches_iff cook quote [] cfg R
  end-Reaches_iff udp cfg R = Reach.end-Reaches_iff cook quote [] cfg R
