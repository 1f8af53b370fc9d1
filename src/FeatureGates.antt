-- ===== src/FeatureGates.antt =====
-- internal/featuregates/featuregates.go: the feature gate `cook`, which the rest of the library takes
-- as the argument `cook`.
use tarunner.Base.{String, Bool, false, ◌≡◌, refl}

-- The stages of the library featuregate.
pub data Stage : Type 0 where
  alpha beta stable deprecated : Stage

-- What `MustRegister` is given.
pub record Gate : Type 0 where
  pub id : String
  pub stage : Stage
  pub description : String
  pub from_version : String

unfoldable pub cook_feature_gate : Gate
cook_feature_gate = record {
  id = "cook";
  stage = alpha;
  description = "When enabled, cook the data by applying props.conf";
  from_version = "v0.1.0";
}

-- `IsEnabled` on a registry of which no gate is set: a gate in the stage alpha is off until it is set.
pub record Registry : Type 0 where
  pub is_enabled : Gate → Bool
  pub is_enabled-alpha : (gate : Gate) → gate.stage ≡ alpha → is_enabled gate ≡ false

-- The program sets no gate.
pub cook-off : (registry : Registry) → registry.is_enabled cook_feature_gate ≡ false
unfolding cook_feature_gate
cook-off registry = registry.is_enabled-alpha _ refl
