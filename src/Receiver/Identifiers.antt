-- ===== src/Receiver/Identifiers.antt =====
-- When the operators of a receiver have distinct identifiers.
use tarunner.Base.{
  ◌≡◌, refl, String, ◌<>◌, true, false, List, [], ◌∷◌, map, ◌==◌, string_eq, eq_iff, arith, ◌||◌,
}
use tarunner.Base.Dict.Size.{contains}
use tarunner.Conf.Data.{Prop, Transform}
use tarunner.Conf.Props.Names.{name_of, DistinctTexts, DistinctNames}
use tarunner.Operator.Names.{flip, ends_differ, longer, same_suffix, start_ne_end, end_ne_start}
use tarunner.Operator.Prop.{
  create_operator_configs, start_operator, end_operator, attach, set_output,
}
use tarunner.Operator.Routing.Route.{DistinctIds, ids, differs}
use tarunner.Receiver.{
  Config, base_operators, create_set_source_operator, end_noop, rename_metadata,
}
use tarunner.Receiver.Passage.{behind, split}

abbrev pub tail_ids : List String
tail_ids = "end" ∷ "end-source" ∷ "end-sourcetype" ∷ "end-host" ∷ "end-index" ∷ []

pub start-tail : (n : String) → contains (n <> "-start") tail_ids ≡ false
unfolding contains
start-tail n = ground (
  arith,
  flip (n <> "-start") "end" (longer n "-start" "end" (omega arith)),
  flip (n <> "-start") "end-source" (ends_differ n "-s" "end-so" "tart" "urce" refl refl),
  flip (n <> "-start") "end-sourcetype" (ends_differ n "-s" "end-source" "tart" "type" refl refl),
  flip (n <> "-start") "end-host" (ends_differ n "-s" "end-" "tart" "host" refl refl),
  flip (n <> "-start") "end-index" (ends_differ n "-s" "end-i" "tart" "ndex" refl refl),
)

pub end-tail : (n : String) → contains (n <> "-end") tail_ids ≡ false
unfolding contains
end-tail n = ground (
  arith,
  flip (n <> "-end") "end" (longer n "-end" "end" (omega arith)),
  flip (n <> "-end") "end-source" (ends_differ n "" "end-so" "-end" "urce" refl refl),
  flip (n <> "-end") "end-sourcetype" (ends_differ n "" "end-source" "-end" "type" refl refl),
  flip (n <> "-end") "end-host" (ends_differ n "" "end-" "-end" "host" refl refl),
  flip (n <> "-end") "end-index" (ends_differ n "" "end-i" "-end" "ndex" refl refl),
)

module _ (quote : String → String) (ts : List Transform) where
  -- An identifier that no prop gives, and that is none of those behind the props.
  absent :
      (id : String) (props : List Prop)
      → contains id tail_ids ≡ false
      → ((n : String)
          → contains n (map name_of props) ≡ true
          → (n <> "-start" == id || n <> "-end" == id) ≡ false)
      → contains id (ids (behind quote ts props)) ≡ false
  unfolding contains create_operator_configs start_operator end_operator attach set_output end_noop
      rename_metadata
  absent id [] h away = h
  absent id (p ∷ props) h away =
      let later = absent id props h (λ n m. away n (ground (arith, m))) in
      let here = away p.name (ground (arith, eq_iff p.name p.name)) in ground (arith, later, here)

  -- Made of a name with which no prop begins.
  start-absent :
      (m : String) (props : List Prop)
      → contains m (map name_of props) ≡ false
      → contains (m <> "-start") (ids (behind quote ts props)) ≡ false
  start-absent m props fresh = absent (m <> "-start") props (start-tail m) (λ n own.
      let other : (n == m) ≡ false = flip m n (differs m n (map name_of props) fresh own) in
      ground (arith, same_suffix n m "-start" other, end_ne_start n m))

  end-absent :
      (m : String) (props : List Prop)
      → contains m (map name_of props) ≡ false
      → contains (m <> "-end") (ids (behind quote ts props)) ≡ false
  end-absent m props fresh = absent (m <> "-end") props (end-tail m) (λ n own.
      let other : (n == m) ≡ false = flip m n (differs m n (map name_of props) fresh own) in
      ground (arith, same_suffix n m "-end" other, start_ne_end n m))

  entry-absent : (props : List Prop) → contains "start" (ids (behind quote ts props)) ≡ false
  unfolding contains
  entry-absent props = absent "start" props refl (λ n own. ground (
    arith,
    longer n "-start" "start" (omega arith),
    ends_differ n "" "s" "-end" "tart" refl refl,
  ))

  behind-DistinctIds :
      (props : List Prop) → DistinctNames props → DistinctIds (behind quote ts props)
  unfolding contains DistinctIds DistinctTexts create_operator_configs start_operator end_operator
      attach set_output end_noop rename_metadata
  behind-DistinctIds [] d = (refl, (refl, (refl, (refl, (refl, tt)))))
  behind-DistinctIds (p ∷ props) (fresh, d) = (
    ground (arith, end_ne_start p.name p.name, start-absent p.name props fresh),
    (end-absent p.name props fresh, behind-DistinctIds props d),
  )

module _ (quote : String → String) (cfg : Config) (d : DistinctNames cfg.props) where
  pub direct-DistinctIds : DistinctIds (base_operators false quote [] rename_metadata cfg)
  direct-DistinctIds = rw (split quote [] cfg) (behind-DistinctIds quote cfg.transforms cfg.props d)

  pub filed-DistinctIds :
      DistinctIds (base_operators false quote (create_set_source_operator ∷ []) rename_metadata cfg)
  unfolding DistinctIds create_set_source_operator
  filed-DistinctIds = rw (split quote (create_set_source_operator ∷ []) cfg) (
    entry-absent quote cfg.transforms cfg.props,
    behind-DistinctIds quote cfg.transforms cfg.props d,
  )
