-- ===== src/Operator/Stanza.antt =====
-- What the stanza pipeline does with an entry, of which the attributes are followed. An operator's
-- work is a parameter, with what the documentation of noop and move says: noop leaves the entry as it
-- is, also where its condition does not hold, and move takes the value from one attribute to another;
-- if there is none, this is an error, and "send_quiet" sends the entry on as it is.
use tarunner.Base.{
  ◌≡◌, refl, ◌↔◌, String, ◌<>◌, true, Option, none, some, List, [], ◌∷◌, ◌++◌, arith, eq_iff, ◌==◌,
  string_eq, if◌then◌else◌,
}
use tarunner.Base.Dict.{Dict, lookup}
use tarunner.Base.Dict.Size.{contains}
use tarunner.Operator.{OperatorConfig, Action, noop, move, copy, attribute, parsed}
use tarunner.Operator.Routing.{Routing, eq_of_contains_one}
use tarunner.Operator.Routing.Route.{DistinctIds, present, differs}

abbrev pub or_else : Option String → Option String → Option String
or_else none other = other
or_else (some v) other = some v

-- What `move` makes of the attributes, with those before it as a function. If there is no value to
-- take, nothing changes.
unfoldable pub moved : String → String → (String → Option String) → String → Option String
moved from to f k = if to == k then or_else (f from) (f k) else if from == k then none else f k

pub record Pipeline : Type 0 where
  pub apply : Action → Dict String → Dict String
  pub apply-noop : (condition : String) (a : Dict String) → apply (noop condition) a ≡ a
  pub lookup-apply-move :
      (from to k : String) (a : Dict String)
      → lookup k (apply (move (attribute from) (attribute to) "send_quiet") a)
        ≡ moved from to (λ j. lookup j a) k

-- What `copy` makes of the attributes. If there is no value to take, nothing changes.
unfoldable pub copied : String → String → (String → Option String) → String → Option String
copied from to f k = if to == k then or_else (f from) (f k) else f k

-- The documentation of copy: it takes the value also to the other attribute, and if there is none,
-- this is an error, at which the entry is sent on as it is. `quote` is how a name is written in
-- a field.
pub record Copying (S : Pipeline) (quote : String → String) : Type 0 where
  pub lookup-apply-copy :
      (from to k : String) (a : Dict String)
      → lookup k (
          S.apply
            (copy
              (parsed ("attributes[" <> quote from <> "]"))
              (parsed ("attributes[" <> quote to <> "]")))
            a)
        ≡ copied from to (λ j. lookup j a) k

unfoldable pub find : List OperatorConfig → String → Option OperatorConfig
find [] id = none
find (o ∷ ops) id = let later = find ops id in if o.operator_id == id then some o else later

find_in :
    (before after : List OperatorConfig) (o : OperatorConfig)
    → DistinctIds (before ++ o ∷ after)
    → find (before ++ o ∷ after) o.operator_id ≡ some o
unfolding find DistinctIds
find_in [] after o d = ground (arith, eq_iff o.operator_id o.operator_id)
find_in (q ∷ before) after o (fresh, d) =
    rw (differs q.operator_id o.operator_id _ fresh (present before after o))
      (find_in before after o d)

pub find_at :
    {ops : List OperatorConfig} (before after : List OperatorConfig) (o : OperatorConfig)
    → ops ≡ before ++ o ∷ after
    → DistinctIds ops
    → find ops o.operator_id ≡ some o
find_at before after o e d = rw e (find_in before after o (rw e at d))

-- An entry with the attributes `a` that comes to the operator `id` leaves the pipeline with `b`.
pub data Leaves {ops : List OperatorConfig} (S : Pipeline) (R : Routing ops)
    : String → Dict String → Dict String → Type 0 where
  leave :
      {id : String} {a : Dict String} (o : OperatorConfig)
      → find ops id ≡ some o
      → R.targets id ≡ []
      → Leaves S R id a (S.apply o.action a)
  pass :
      {id : String} {a b : Dict String} (o : OperatorConfig) (c : String)
      → find ops id ≡ some o
      → contains c (R.targets id) ≡ true
      → Leaves S R c (S.apply o.action a) b
      → Leaves S R id a b

module _ {ops : List OperatorConfig} (S : Pipeline) (R : Routing ops) where
  through :
      (id c : String) (o : OperatorConfig) (a b : Dict String)
      → find ops id ≡ some o
      → R.targets id ≡ c ∷ []
      → Leaves S R id a b
      → Leaves S R c (S.apply o.action a) b
  through id c o a b f t (leave o' f' t') = cc
  through id c o a b f t (pass o' c' f' h l) =
      let same_target : c ≡ c' = eq_of_contains_one R id c c' t h in
      let same : o ≡ o' = cc in rw (same_target, same) l

  -- Through an operator with one output.
  pub Leaves-one_iff :
      (id c : String) (o : OperatorConfig) (a b : Dict String)
      → find ops id ≡ some o
      → R.targets id ≡ c ∷ []
      → Leaves S R id a b ↔ Leaves S R c (S.apply o.action a) b
  unfolding contains
  Leaves-one_iff id c o a b f t =
      (through id c o a b f t, pass o c f (rw t (ground (arith, eq_iff c c))))

  last_of :
      (id : String) (o : OperatorConfig) (a b : Dict String)
      → find ops id ≡ some o
      → R.targets id ≡ []
      → Leaves S R id a b
      → b ≡ S.apply o.action a
  unfolding contains
  last_of id o a b f t (leave o' f' t') = let same : o ≡ o' = cc in rw same refl
  last_of id o a b f t (pass o' c' f' h l) = cc (rw t at h)

  -- Through the last operator.
  pub Leaves-last_iff :
      (id : String) (o : OperatorConfig) (a b : Dict String)
      → find ops id ≡ some o
      → R.targets id ≡ []
      → Leaves S R id a b ↔ (b ≡ S.apply o.action a)
  Leaves-last_iff id o a b f t = (last_of id o a b f t, λ e. rw e (leave o f t))
