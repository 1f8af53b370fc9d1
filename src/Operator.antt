-- ===== src/Operator.antt =====
-- The operator configurations that the program builds for the stanza pipeline: of the library's
-- types, the fields that the program sets.
pub mod Links
pub mod Prop
pub mod Routing
pub mod Stanza
pub mod Names
use tarunner.Base.{String, List, []}
use tarunner.Transform.Config.{Config}

-- `entry.NewAttributeField(name)`, and `entry.NewField(text)`, whose error the source ignores.
pub data Field : Type 0 where
  unset : Field
  attribute : String → Field
  parsed : String → Field

pub data Action : Type 0 where
  -- IfExpr, "" if there is none
  noop : String → Action
  -- From and To
  copy : Field → Field → Action
  -- From, To and OnError
  move : Field → Field → String → Action
  transform : Config → Action

-- OperatorID and OutputIDs stand in the `WriterConfig` that all the types embed.
pub record OperatorConfig : Type 0 where
  pub operator_id : String
  pub output_ids : List String
  pub action : Action

abbrev pub with_id : String → Action → OperatorConfig
with_id id action = record { operator_id = id; output_ids = []; action = action }
