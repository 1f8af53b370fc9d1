-- ===== src/Receiver/Kinds/Boxed.antt =====
-- `component.Config` is the empty interface: what the five packages under internal/receiver take as
-- their configuration, and the type assertions by which they read it.
use tarunner.Base.{Option, none, some, ◌≡◌, refl, ◌≢◌}
use tarunner.Conf.Read.{no_input}
use tarunner.Base.{[]}
use tarunner.Receiver.{Config}
use tarunner.Receiver.Kinds.{Kind, monitor, script, win_event_log, tcp, udp}

-- A value of the interface: nil, a `Config` of one of the packages, or a pointer to one.
pub data Boxed : Type 0 where
  nil : Boxed
  value pointer : Kind → Config → Boxed

-- `cfg.(Config)` in the package of the kind; `none` is the panic of an assertion that fails.
unfoldable pub as_value : Kind → Boxed → Option Config
as_value monitor (value monitor cfg) = some cfg
as_value script (value script cfg) = some cfg
as_value win_event_log (value win_event_log cfg) = some cfg
as_value tcp (value tcp cfg) = some cfg
as_value udp (value udp cfg) = some cfg
as_value _ _ = none

-- `cfg.(*Config)` in the package scriptreceiver.
unfoldable pub as_script_pointer : Boxed → Option Config
as_script_pointer (pointer script cfg) = some cfg
as_script_pointer _ = none

-- `rcfg := cfg.(…)`: the package scriptreceiver asserts a pointer, the others a value.
unfoldable pub asserted : Kind → Boxed → Option Config
unfolding as_value as_script_pointer
asserted script c = as_script_pointer c
asserted monitor c = as_value monitor c
asserted win_event_log c = as_value win_event_log c
asserted tcp c = as_value tcp c
asserted udp c = as_value udp c

-- What `createReceiver` gives to CreateLogs of the package's factory.
unfoldable pub boxed : Kind → Config → Boxed
boxed script cfg = pointer script cfg
boxed monitor cfg = value monitor cfg
boxed win_event_log cfg = value win_event_log cfg
boxed tcp cfg = value tcp cfg
boxed udp cfg = value udp cfg

abbrev pub zero_config : Config
zero_config = record { base_dir = ""; input = no_input; transforms = []; props = [] }

-- `createDefaultConfig` of each package returns a pointer to its empty `Config`.
unfoldable pub create_default_config : Kind → Boxed
create_default_config kind = pointer kind zero_config

pub asserted-boxed : (kind : Kind) (cfg : Config) → asserted kind (boxed kind cfg) ≡ some cfg
unfolding asserted boxed
asserted-boxed monitor cfg = refl
asserted-boxed script cfg = refl
asserted-boxed win_event_log cfg = refl
asserted-boxed tcp cfg = refl
asserted-boxed udp cfg = refl

pub boxed-asserted :
    (kind : Kind) (c : Boxed) (cfg : Config) → asserted kind c ≡ some cfg → c ≡ boxed kind cfg
unfolding asserted boxed
boxed-asserted monitor (value monitor c) cfg e = cc
boxed-asserted script (pointer script c) cfg e = cc
boxed-asserted win_event_log (value win_event_log c) cfg e = cc
boxed-asserted tcp (value tcp c) cfg e = cc
boxed-asserted udp (value udp c) cfg e = cc
boxed-asserted _ _ cfg e = cc

pub asserted-create_default_config :
    (kind : Kind) → kind ≢ script → asserted kind (create_default_config kind) ≡ none
unfolding asserted create_default_config
asserted-create_default_config monitor h = refl
asserted-create_default_config script h = absurd (h refl)
asserted-create_default_config win_event_log h = refl
asserted-create_default_config tcp h = refl
asserted-create_default_config udp h = refl
