-- ===== src/Conf/Params.antt =====
-- `Params.Get` of internal/conf/inputs.go.
use tarunner.Base.{
  String, ◌≡◌, refl, ◌≢◌, Option, none, some, [], ◌∷◌, ◌++◌, ◌==◌, string_eq, if◌then◌else◌, arith,
  eq_iff, All, ◌↔◌, Bool-cases, inl, inr, ap,
}
use tarunner.Conf.Data.{Param, Params}

-- The source returns the address of a copy: a later write does not reach the list.
unfoldable pub get : Params → String → Option Param
get [] name = none
get (param ∷ p) name = if param.name == name then some param else get p name

-- `Get` is nil exactly when no parameter has the name.
get-eq-none_iff :
    (p : Params) (name : String) → (get p name ≡ none) ↔ All (λ (q : Param). q.name ≢ name) p
unfolding get
get-eq-none_iff [] name = ((λ _. tt), (λ _. refl))
get-eq-none_iff (q ∷ p) name = ground (arith, get-eq-none_iff p name, eq_iff q.name name)

-- What `Get` returns has the name, and is the first that has it.
pub get_lem :
    (p : Params) (name : String) (q : Param)
    → get p name ≡ some q
    → (before after : Params) × (p ≡ before ++ q ∷ after)
      × (q.name ≡ name)
      × All (λ (r : Param). r.name ≢ name) before
unfolding get
get_lem [] name q e = cc
get_lem (r ∷ p) name q e = elim (Bool-cases (r.name == name)) [
  | inl same ↦ ([], p, ground arith, ground (arith, eq_iff r.name name), tt)
  | inr other ↦
      let (before, after, split, named, first) = get_lem p name q (rw other at e) in
      (r ∷ before, after, ap (◌∷◌ r) split, named, (ground (arith, eq_iff r.name name), first))
]
