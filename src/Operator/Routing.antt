-- ===== src/Operator/Routing.antt =====
-- How the stanza pipeline, which is not part of the repository, connects the operators: to the
-- identifiers in OutputIDs, or, where there are none, to the next operator of the list; the last
-- one leaves the pipeline. The laws state this for a list in which no identifier is taken twice,
-- which the pipeline demands.
pub mod Segments
pub mod Route
pub mod Distinct
use tarunner.Base.{◌≡◌, refl, ◌≢◌, ◌⊎◌, inl, inr, String, true, List, [], ◌∷◌, ◌++◌, arith, eq_iff}
use tarunner.Base.Dict.Size.{contains}
use tarunner.Operator.{OperatorConfig}

pub record Routing (ops : List OperatorConfig) : Type 0 where
  pub targets : String → List String
  pub explicit :
      (before after : List OperatorConfig) (o : OperatorConfig)
      → ops ≡ before ++ o ∷ after
      → o.output_ids ≢ []
      → targets o.operator_id ≡ o.output_ids
  pub default :
      (before after : List OperatorConfig) (o o' : OperatorConfig)
      → ops ≡ before ++ o ∷ o' ∷ after
      → o.output_ids ≡ []
      → targets o.operator_id ≡ o'.operator_id ∷ []
  pub last :
      (before : List OperatorConfig) (o : OperatorConfig)
      → ops ≡ before ++ o ∷ []
      → o.output_ids ≡ []
      → targets o.operator_id ≡ []

-- The operators that an entry can come to, from the operator `a`.
pub data Reaches {ops : List OperatorConfig} (R : Routing ops) (a : String) : String → Type 0 where
  here : Reaches R a a
  next : {b c : String} → Reaches R a b → contains c (R.targets b) ≡ true → Reaches R a c

module _ {ops : List OperatorConfig} (R : Routing ops) where
  -- A set that holds the start and is closed under the connections holds all that is reached.
  pub Reaches_induction {ℓ} :
      (P : String → Type ℓ) (a : String)
      → P a
      → ((b c : String) → P b → contains c (R.targets b) ≡ true → P c)
      → (x : String) → Reaches R a x
      → P x
  Reaches_induction P a start step x here = start
  Reaches_induction P a start step x (next {b} r e) =
      step b x (Reaches_induction P a start step b r) e

  pub Reaches-one : (a b c : String) → Reaches R a b → R.targets b ≡ c ∷ [] → Reaches R a c
  unfolding contains
  Reaches-one a b c r e = next r (rw e (ground (arith, eq_iff c c)))

  pub eq_of_contains_one :
      (b c x : String) → R.targets b ≡ c ∷ [] → contains x (R.targets b) ≡ true → c ≡ x
  unfolding contains
  eq_of_contains_one b c x e h = ground (arith, eq_iff c x)
