-- ===== src/Conf/Types.antt =====
-- `PropType` and `Prop.Type` of internal/conf/props.go.
use tarunner.Base.{ℕ, String, starts_with, ◌==◌, string_eq, if◌then◌else◌}
use tarunner.Conf.Data.{Prop}

-- The constants of the source, in its order.
pub data PropType : Type 0 where
  source host source_type default : PropType

-- The value that `iota` gives.
abbrev pub rank : PropType → ℕ
rank source = 0
rank host = 1
rank source_type = 2
rank default = 3

unfoldable pub type_of_name : String → PropType
type_of_name name =
    if starts_with name "source::"
    then source
    else if starts_with name "host::"
    then host
    else if name == "default"
    then default
    else source_type

unfoldable pub prop_type : Prop → PropType
unfolding type_of_name
prop_type p = type_of_name p.name
