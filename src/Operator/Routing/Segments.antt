-- ===== src/Operator/Routing/Segments.antt =====
-- How entries pass through a chain of operators that stands somewhere in a pipeline.
use tarunner.Operator.Links.{IsLinked, id_of}
use mathlib.Core.List.{append_assoc}
use tarunner.Base.{
  ◌≡◌, sym, ◌∙◌, ◌⊎◌, inl, inr, String, true, List, [], ◌∷◌, ◌++◌, map, arith, eq_iff, ◌==◌,
  string_eq, Bool-cases,
}
use tarunner.Base.Dict.Size.{contains}
use tarunner.Operator.{OperatorConfig}
use tarunner.Operator.Routing.{Routing, Reaches, Reaches-one, eq_of_contains_one}

module _ {ops : List OperatorConfig} (R : Routing ops) where
  targets_linked :
      (before after : List OperatorConfig) (o : OperatorConfig) (id : String)
      → ops ≡ before ++ o ∷ after
      → o.output_ids ≡ id ∷ []
      → R.targets o.operator_id ≡ id ∷ []
  targets_linked before after o id e out = R.explicit before after o e (λ none'. cc) ∙ out

  -- From an operator of a chain an entry goes to an operator of the chain, or to its exit.
  pub segment_closed :
      (before seg after : List OperatorConfig) (exit b x : String)
      → ops ≡ before ++ (seg ++ after)
      → IsLinked seg exit
      → contains b (map id_of seg) ≡ true
      → contains x (R.targets b) ≡ true
      → (contains x (map id_of seg) ≡ true) ⊎ (exit ≡ x)
  unfolding contains
  segment_closed before [] after exit b x e h m t = cc
  segment_closed before (o ∷ []) after exit b x e h m t = inr (
      eq_of_contains_one R o.operator_id exit x (targets_linked before after o exit e h)
        (ground (arith, eq_iff o.operator_id b)))
  segment_closed before (o ∷ o' ∷ seg) after exit b x e (h, hs) m t =
      elim (Bool-cases (o.operator_id == b)) [
        | inl same ↦
            let to : o'.operator_id ≡ x =
              eq_of_contains_one R o.operator_id o'.operator_id x
                (targets_linked before (o' ∷ (seg ++ after)) o o'.operator_id e h)
                (ground (arith, eq_iff o.operator_id b)) in
            inl (ground (arith, eq_iff o'.operator_id x))
        | inr other ↦
            let later =
              segment_closed (before ++ o ∷ []) (o' ∷ seg) after exit b x
                (e ∙ sym (append_assoc before (o ∷ []) ((o' ∷ seg) ++ after))) hs (ground arith)
                t in
            ground (arith, later)
      ]

  -- From its first operator an entry reaches every operator of a chain, and its exit.
  pub segment-Reaches :
      (before seg after : List OperatorConfig) (o : OperatorConfig) (a exit : String)
      → ops ≡ before ++ ((o ∷ seg) ++ after)
      → IsLinked (o ∷ seg) exit
      → Reaches R a o.operator_id
      → Reaches R a exit
  segment-Reaches before [] after o a exit e h r =
      Reaches-one R a o.operator_id exit r (targets_linked before after o exit e h)
  segment-Reaches before (o' ∷ seg) after o a exit e (h, hs) r =
      segment-Reaches (before ++ o ∷ []) seg after o' a exit
        (e ∙ sym (append_assoc before (o ∷ []) ((o' ∷ seg) ++ after))) hs
        (Reaches-one R a o.operator_id o'.operator_id r
          (targets_linked before ((o' ∷ seg) ++ after) o o'.operator_id e h))
