-- ===== src/Operator/Routing/Distinct.antt =====
-- Distinct identifiers in the parts of a list of operators.
use mathlib.Core.List.{map-append}
use tarunner.Base.{◌≡◌, refl, String, true, false, List, [], ◌∷◌, ◌++◌, inl, inr, arith, string_eq}
use tarunner.Base.Dict.Size.{contains, contains-cons, contains-append_left, contains-append_right}
use tarunner.Operator.{OperatorConfig}
use tarunner.Operator.Routing.Route.{DistinctIds, ids}

DistinctIds-drop : (xs ys : List OperatorConfig) → DistinctIds (xs ++ ys) → DistinctIds ys
unfolding DistinctIds
DistinctIds-drop [] ys d = d
DistinctIds-drop (x ∷ xs) ys (fresh, d) = DistinctIds-drop xs ys d

absent-left :
    (id : String) (xs ys : List OperatorConfig)
    → contains id (ids (xs ++ ys)) ≡ false
    → contains id (ids xs) ≡ false
unfolding contains
absent-left id [] ys h = refl
absent-left id (x ∷ xs) ys h = ground (arith, absent-left id xs ys)

DistinctIds-take : (xs ys : List OperatorConfig) → DistinctIds (xs ++ ys) → DistinctIds xs
unfolding DistinctIds
DistinctIds-take [] ys d = tt
DistinctIds-take (x ∷ xs) ys (fresh, d) =
    (absent-left x.operator_id xs ys fresh, DistinctIds-take xs ys d)

ids-append : (xs ys : List OperatorConfig) → ids (xs ++ ys) ≡ ids xs ++ ids ys
ids-append xs ys = map-append (λ (q : OperatorConfig). q.operator_id) xs ys

pub contains-left :
    (id : String) (xs ys : List OperatorConfig)
    → contains id (ids xs) ≡ true
    → contains id (ids (xs ++ ys)) ≡ true
contains-left id xs ys h = rw (ids-append xs ys) (contains-append_left id (ids xs) (ids ys) h)

pub contains-right :
    (id : String) (xs ys : List OperatorConfig)
    → contains id (ids ys) ≡ true
    → contains id (ids (xs ++ ys)) ≡ true
contains-right id xs ys h = rw (ids-append xs ys) (contains-append_right id (ids xs) (ids ys) h)

-- An identifier stands in one part only.
DistinctIds-apart :
    (id : String) (xs ys : List OperatorConfig)
    → DistinctIds (xs ++ ys)
    → contains id (ids xs) ≡ true
    → ¬ (contains id (ids ys) ≡ true)
unfolding DistinctIds contains
DistinctIds-apart id [] ys d h k = cc
DistinctIds-apart id (x ∷ xs) ys (fresh, d) h k = elim (contains-cons x.operator_id id (ids xs) h) [
  | inl here ↦ cc (rw here at fresh, contains-right id xs ys k)
  | inr later ↦ DistinctIds-apart id xs ys d later k
]

-- Two operators, one in each part of the list, have the identifier.
abbrev pub Twice : String → List OperatorConfig → Type 0
Twice id ops =
    (xs ys : List OperatorConfig) × (ops ≡ xs ++ ys)
    × (contains id (ids xs) ≡ true)
    × (contains id (ids ys) ≡ true)

pub Twice-clash : (id : String) (ops : List OperatorConfig) → Twice id ops → ¬ DistinctIds ops
Twice-clash id ops (xs, ys, e, h, k) d = DistinctIds-apart id xs ys (rw e at d) h k
