-- ===== src/Conf/Data.antt =====
-- The records that internal/conf reads the three files into: inputs.go, transforms.go, props.go.
use Prim.Native.Nat.{ℕ}
use tarunner.Base.{String, Bool, List}

pub record Param : Type 0 where
  pub name : String
  pub value : String

abbrev pub Params : Type 0
Params = List Param

pub record Stanza : Type 0 where
  pub name : String
  pub app : String
  pub params : Params

-- `Configuration` has the one field `Stanza`, and stands for it here.
pub record Input : Type 0 where
  pub server_host : String
  pub server_uri : String
  pub session_key : String
  pub checkpoint_dir : String
  pub stanza : Stanza

pub record Transform : Type 0 where
  pub name : String
  pub regex : String
  pub format : String

pub record FieldAlias : Type 0 where
  pub name : String
  pub from : String
  pub to : String

pub record PropsTransforms : Type 0 where
  pub class : String
  pub stanza : List String

-- `max_timestamp_look_ahead` is an int, as its bit pattern of 64 bits.
pub record Prop : Type 0 where
  pub name : String
  pub time_prefix : String
  pub time_format : String
  pub datetime_config : String
  pub category : String
  pub source_type : String
  pub field_aliases : List FieldAlias
  pub transforms : List PropsTransforms
  pub max_timestamp_look_ahead : ℕ
  pub no_binary_check : Bool
  pub should_line_merge : Bool
