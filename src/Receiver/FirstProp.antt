-- ===== src/Receiver/FirstProp.antt =====
-- Where entries go that start at the first operator of `BaseConfig`, with at least one prop.
use tarunner.Operator.Links.{IsLinked, id_of}
use tarunner.Base.ConcatMap.{concat_map}
use mathlib.Core.List.{append_assoc, append-nil}
use tarunner.Base.{
  ◌≡◌, refl, sym, ap, ◌∙◌, ◌⊎◌, inl, inr, String, Bool, true, List, [], ◌∷◌, ◌++◌, map, arith,
  eq_iff, string_eq,
}
use tarunner.Base.Dict.Size.{
  contains, contains-cons, contains-append_cases, contains-append_left, contains-append_right,
}
use tarunner.Conf.Data.{Prop, Transform}
use tarunner.Operator.{OperatorConfig}
use tarunner.Operator.Prop.{create_operator_configs}
use tarunner.Operator.Prop.Linked.{create_operator_configs-IsLinked}
use tarunner.Operator.Routing.{
  Routing, Reaches, here, Reaches-one, Reaches_induction, eq_of_contains_one,
}
use tarunner.Operator.Routing.Segments.{segment_closed, segment-Reaches}
use tarunner.Receiver.{
  Config, create_set_source_operator, append_props, end_noop, rename_metadata, base_operators,
}
use tarunner.Receiver.Reach.{end_ids, closed_end}

cons_of_ids :
    (ops : List OperatorConfig) (id : String) (ids : List String)
    → map id_of ops ≡ id ∷ ids
    → (o : OperatorConfig) × (seg : List OperatorConfig) × (ops ≡ o ∷ seg)
cons_of_ids [] id ids e = cc
cons_of_ids (o ∷ seg) id ids e = (o, seg, refl)

module _ (cook : Bool) (quote : String → String) where
  abbrev pub created : List Transform → Prop → List OperatorConfig
  created transforms p = create_operator_configs cook quote p transforms

  pub append_props-concat_map :
      (transforms : List Transform) (ops : List OperatorConfig) (props : List Prop)
      → append_props cook quote transforms ops props ≡ ops ++ concat_map (created transforms) props
  unfolding append_props
  append_props-concat_map transforms ops [] = sym (append-nil ops)
  append_props-concat_map transforms ops (p ∷ props) =
      append_props-concat_map transforms (ops ++ created transforms p) props
      ∙ append_assoc ops (created transforms p) (concat_map (created transforms) props)

  module _ (cfg : Config) (p : Prop) (props : List Prop) (e : cfg.props ≡ p ∷ props) where
    abbrev all_operators : List OperatorConfig
    all_operators = base_operators cook quote (create_set_source_operator ∷ []) rename_metadata cfg

    abbrev rest : List OperatorConfig
    rest =
        concat_map (created cfg.transforms) props
        ++ (end_noop rename_metadata ∷ [] ++ rename_metadata)

    all_operators-split :
        all_operators ≡ (create_set_source_operator ∷ []) ++ (created cfg.transforms p ++ rest)
    unfolding base_operators rename_metadata
    all_operators-split =
        rw (append_props-concat_map cfg.transforms (create_set_source_operator ∷ []) cfg.props, e)
          (simp append_assoc)

    -- The identifiers of the operators of the first prop.
    abbrev pub first_ids : List String
    first_ids = map id_of (created cfg.transforms p)

    first-IsLinked : IsLinked (created cfg.transforms p) "end"
    first-IsLinked = (create_operator_configs-IsLinked quote p cfg.transforms cook).0

    first-cons :
        (o : OperatorConfig) × (seg : List OperatorConfig) × (created cfg.transforms p ≡ o ∷ seg)
    first-cons =
        cons_of_ids (created cfg.transforms p) _ _
          (create_operator_configs-IsLinked quote p cfg.transforms cook).1

    module _
        (R : Routing
          (base_operators cook quote (create_set_source_operator ∷ []) rename_metadata cfg)) where
      targets_start :
          (o : OperatorConfig) (seg : List OperatorConfig)
          → created cfg.transforms p ≡ o ∷ seg
          → R.targets "start" ≡ o.operator_id ∷ []
      unfolding create_set_source_operator
      targets_start o seg f =
          R.default [] (seg ++ rest) create_set_source_operator o
            (all_operators-split ∙ ap (λ ops. create_set_source_operator ∷ (ops ++ rest)) f) refl

      from_start :
          (b x : String)
          → "start" ≡ b
          → contains x (R.targets b) ≡ true
          → contains x (first_ids ++ end_ids) ≡ true
      unfolding contains
      from_start b x e' t =
          let (o, seg, f) = first-cons in
          let to : o.operator_id ≡ x =
            eq_of_contains_one R b o.operator_id x (rw (← e') (targets_start o seg f)) t in
          rw f (ground (arith, eq_iff o.operator_id x))

      from_first :
          (b x : String)
          → contains b first_ids ≡ true
          → contains x (R.targets b) ≡ true
          → (contains x first_ids ≡ true) ⊎ ("end" ≡ x)
      from_first b x m t =
          segment_closed R (create_set_source_operator ∷ []) (created cfg.transforms p) rest "end" b
            x all_operators-split first-IsLinked m t

      at_end : contains "end" end_ids ≡ true
      unfolding contains
      at_end = refl

      closed :
          (b x : String)
          → contains b ("start" ∷ (first_ids ++ end_ids)) ≡ true
          → contains x (R.targets b) ≡ true
          → contains x (first_ids ++ end_ids) ≡ true
      closed b x m t = elim (contains-cons "start" b (first_ids ++ end_ids) m) [
        | inl start ↦ from_start b x start t
        | inr more ↦ elim (contains-append_cases b first_ids end_ids more) [
          | inl in_first ↦ elim (from_first b x in_first t) [
            | inl found ↦ contains-append_left x first_ids end_ids found
            | inr left ↦ contains-append_right x first_ids end_ids (rw (← left) at_end)
          ]
          | inr in_end ↦
              contains-append_right x first_ids end_ids
                (closed_end cook quote (create_set_source_operator ∷ []) cfg R b x in_end t)
        ]
      ]

      -- With at least one prop, an entry goes from `start` to `end`, and on its way it comes to no
      -- operator but those of the first prop.
      pub start-Reaches :
          Reaches R "start" "end"
          × ((x : String)
              → Reaches R "start" x
              → contains x ("start" ∷ (first_ids ++ end_ids)) ≡ true)
      unfolding contains
      start-Reaches =
          let (o, seg, f) = first-cons in
          (
            segment-Reaches R (create_set_source_operator ∷ []) seg rest o "start" "end"
                (rw f at all_operators-split) (rw f at first-IsLinked)
                (Reaches-one R "start" "start" o.operator_id here (targets_start o seg f)),
            Reaches_induction R (λ b. contains b ("start" ∷ (first_ids ++ end_ids)) ≡ true) "start"
                refl (λ b c m t. rw (closed b c m t) (ground arith)),
          )
