-- ===== src/Operator/Routing/Route.antt =====
-- The connections of a list without repeated identifiers, computed, and that they follow the laws.
use tarunner.Base.{
  ◌≡◌, refl, ap, ◌∙◌, ◌≢◌, String, inl, inr, Bool-cases, true, false, List, [], ◌∷◌, ◌++◌, map,
  arith, eq_iff, ◌==◌, string_eq, if◌then◌else◌,
}
use tarunner.Base.Dict.Size.{contains}
use tarunner.Operator.{OperatorConfig}
use tarunner.Operator.Routing.{Routing}

abbrev first_id : List OperatorConfig → List String
first_id [] = []
first_id (o ∷ _) = o.operator_id ∷ []

abbrev outputs : List String → List String → List String
outputs [] following = following
outputs (id ∷ ids) following = id ∷ ids

unfoldable route : List OperatorConfig → String → List String
route [] id = []
route (o ∷ ops) id =
    let later = route ops id in
    if o.operator_id == id then outputs o.output_ids (first_id ops) else later

abbrev pub ids : List OperatorConfig → List String
ids ops = map (λ (q : OperatorConfig). q.operator_id) ops

-- No identifier is taken twice.
unfoldable pub DistinctIds : List OperatorConfig → Type 0
DistinctIds [] = Unit
DistinctIds (o ∷ ops) = (contains o.operator_id (ids ops) ≡ false) × DistinctIds ops

pub present :
    (before after : List OperatorConfig) (o : OperatorConfig)
    → contains o.operator_id (ids (before ++ o ∷ after)) ≡ true
unfolding contains
present [] after o = ground (arith, eq_iff o.operator_id o.operator_id)
present (q ∷ before) after o = ground (arith, present before after o)

pub differs :
    (id id' : String) (keys : List String)
    → contains id keys ≡ false
    → contains id' keys ≡ true
    → (id == id') ≡ false
differs id id' keys h k = elim (Bool-cases (id == id')) [
  | inl same ↦ cc (rw (← (eq_iff id id').0 same) at k)
  | inr other ↦ other
]

route_at :
    (before after : List OperatorConfig) (o : OperatorConfig)
    → DistinctIds (before ++ o ∷ after)
    → route (before ++ o ∷ after) o.operator_id ≡ outputs o.output_ids (first_id after)
unfolding route DistinctIds
route_at [] after o d = ground (arith, eq_iff o.operator_id o.operator_id)
route_at (q ∷ before) after o (fresh, d) =
    rw (differs q.operator_id o.operator_id _ fresh (present before after o))
      (route_at before after o d)

outputs_of : (ids following : List String) → ids ≢ [] → outputs ids following ≡ ids
outputs_of [] following ne = elim (ne refl) [ ]
outputs_of (id ∷ more) following ne = refl

pub routing_of_distinct : (ops : List OperatorConfig) → DistinctIds ops → Routing ops
routing_of_distinct ops d = record {
  targets = route ops;
  explicit = λ before after o e ne.
      rw e (route_at before after o (rw e at d) ∙ outputs_of o.output_ids _ ne);
  default = λ before after o o' e none_set. rw e (
      route_at before (o' ∷ after) o (rw e at d)
      ∙ ap (λ ids. outputs ids (o'.operator_id ∷ [])) none_set);
  last = λ before o e none_set.
      rw e (route_at before [] o (rw e at d) ∙ ap (λ ids. outputs ids []) none_set);
}
