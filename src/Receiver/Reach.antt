-- ===== src/Receiver/Reach.antt =====
-- Which operators of a receiver's pipeline an entry comes to.
use mathlib.Core.List.{append_assoc}
use tarunner.Base.{
  ◌≡◌, refl, sym, ◌∙◌, ◌↔◌, ◌⊎◌, inl, inr, String, Bool, true, List, [], ◌∷◌, ◌++◌, arith, eq_iff,
  ◌==◌, string_eq,
}
use tarunner.Base.Dict.Size.{contains}
use tarunner.Operator.{OperatorConfig}
use tarunner.Operator.Routing.{
  Routing, Reaches, here, Reaches-one, Reaches_induction, eq_of_contains_one,
}
use tarunner.Receiver.{Config, move_to, append_props, end_noop, rename_metadata, base_operators}

-- What an entry passes through once it is at `end`.
abbrev pub end_ids : List String
end_ids = "end" ∷ "end-source" ∷ "end-sourcetype" ∷ "end-index" ∷ []

end_ids-cases :
    (x : String)
    → contains x end_ids ≡ true
    → ("end" ≡ x) ⊎ (("end-source" ≡ x) ⊎ (("end-sourcetype" ≡ x) ⊎ ("end-index" ≡ x)))
unfolding contains
end_ids-cases x m =
    ground (
      arith,
      eq_iff "end" x,
      eq_iff "end-source" x,
      eq_iff "end-sourcetype" x,
      eq_iff "end-index" x,
    )

abbrev pub end_source : OperatorConfig
end_source = record (move_to "end-source" "source") { output_ids = "end-sourcetype" ∷ [] }

abbrev pub end_sourcetype : OperatorConfig
end_sourcetype = record (move_to "end-sourcetype" "sourcetype") { output_ids = "end-index" ∷ [] }

abbrev end_host : OperatorConfig
end_host = move_to "end-host" "host"

abbrev pub end_index : OperatorConfig
end_index = move_to "end-index" "index"

module _ (cook : Bool) (quote : String → String) (first : List OperatorConfig) (cfg : Config) where
  abbrev all_operators : List OperatorConfig
  all_operators = base_operators cook quote first rename_metadata cfg

  abbrev front : List OperatorConfig
  front = append_props cook quote cfg.transforms first cfg.props

  regroup :
      (ms ns : List OperatorConfig) (e : OperatorConfig)
      → (front ++ e ∷ []) ++ (ms ++ ns) ≡ (front ++ e ∷ ms) ++ ns
  regroup ms ns e = append_assoc front (e ∷ []) (ms ++ ns) ∙ sym (append_assoc front (e ∷ ms) ns)

  -- Where the operators stand.
  pub place_end : all_operators ≡ front ++ end_noop rename_metadata ∷ rename_metadata
  unfolding base_operators
  place_end = append_assoc front (end_noop rename_metadata ∷ []) rename_metadata

  pub place_source :
      all_operators
      ≡ (front ++ end_noop rename_metadata ∷ [])
        ++ end_source ∷ end_sourcetype ∷ end_host ∷ end_index ∷ []
  unfolding base_operators rename_metadata
  place_source = refl

  pub place_sourcetype :
      all_operators
      ≡ (front ++ end_noop rename_metadata ∷ end_source ∷ [])
        ++ end_sourcetype ∷ end_host ∷ end_index ∷ []
  unfolding base_operators rename_metadata
  place_sourcetype = regroup (end_source ∷ []) _ _

  pub place_index :
      all_operators
      ≡ (front ++ end_noop rename_metadata ∷ end_source ∷ end_sourcetype ∷ end_host ∷ [])
        ++ end_index ∷ []
  unfolding base_operators rename_metadata
  place_index = regroup (end_source ∷ end_sourcetype ∷ end_host ∷ []) _ _

  module _ (R : Routing (base_operators cook quote first rename_metadata cfg)) where
    targets_end : R.targets "end" ≡ "end-source" ∷ []
    unfolding rename_metadata end_noop
    targets_end = R.explicit _ _ _ place_end (λ e. cc)

    targets_source : R.targets "end-source" ≡ "end-sourcetype" ∷ []
    targets_source = R.explicit _ _ _ place_source (λ e. cc)

    targets_sourcetype : R.targets "end-sourcetype" ≡ "end-index" ∷ []
    targets_sourcetype = R.explicit _ _ _ place_sourcetype (λ e. cc)

    pub targets_index : R.targets "end-index" ≡ []
    targets_index = R.last _ _ place_index refl

    forced :
        (c b x : String) → R.targets b ≡ c ∷ [] → contains x (R.targets b) ≡ true → (c == x) ≡ true
    forced c b x e t = (eq_iff c x).1 (eq_of_contains_one R b c x e t)

    pub closed_end :
        (b x : String)
        → contains b end_ids ≡ true
        → contains x (R.targets b) ≡ true
        → contains x end_ids ≡ true
    unfolding contains
    closed_end b x m t = elim (end_ids-cases b m) [
      | inl e ↦ ground (arith, forced "end-source" b x (rw (← e) targets_end) t)
      | inr (inl e) ↦ ground (arith, forced "end-sourcetype" b x (rw (← e) targets_source) t)
      | inr (inr (inl e)) ↦ ground (arith, forced "end-index" b x (rw (← e) targets_sourcetype) t)
      | inr (inr (inr e)) ↦ cc (rw (← e, targets_index) at t)
    ]

    end_reached : (x : String) → contains x end_ids ≡ true → Reaches R "end" x
    end_reached x m =
        let r₁ = Reaches-one R "end" "end" "end-source" here targets_end in
        let r₂ = Reaches-one R "end" "end-source" "end-sourcetype" r₁ targets_source in
        let r₃ = Reaches-one R "end" "end-sourcetype" "end-index" r₂ targets_sourcetype in
        elim (end_ids-cases x m) [
          | inl e ↦ rw (← e) here
          | inr (inl e) ↦ rw (← e) r₁
          | inr (inr (inl e)) ↦ rw (← e) r₂
          | inr (inr (inr e)) ↦ rw (← e) r₃
        ]

    -- From `end` an entry passes through the renaming of the source, of the source type and of
    -- the index, and nothing else: the operator that renames the host, `end-host`, is left out.
    pub end-Reaches_iff : (x : String) → Reaches R "end" x ↔ (contains x end_ids ≡ true)
    end-Reaches_iff x = (
      Reaches_induction R (λ b. contains b end_ids ≡ true) "end" (unfold contains in refl)
          closed_end x,
      end_reached x,
    )

    -- So no entry that has come to `end` has its host renamed.
    end-not_Reaches : ¬ Reaches R "end" "end-host"
    unfolding contains
    end-not_Reaches r = cc ((end-Reaches_iff "end-host").0 r)
