-- ===== src/Collector/Refused.antt =====
-- `Run` of internal/collector/collector.go where the stanza pipeline refuses the operators of every
-- receiver.
use tarunner.Base.{
  String, ◌<>◌, ◌==◌, string_eq, false, Bool, true, Option, some, List, [], ◌∷◌, ◌++◌, map, ◌≡◌,
  refl, ap, ◌∙◌, inl, inr,
}
use tarunner.Base.Dict.Size.{contains}
use tarunner.Base.Result.{Error, Result, ok, err, Result-cases}
use tarunner.Collector.{
  Platform, Call, Outcome, failed, create_receivers, read_inputs, read_transforms_file,
  read_props_file, after, run,
}
use tarunner.Collector.Adapted.{IsAdapted, IsErr, create_receiver-refused}
use tarunner.Collector.Receivers.{enabled, Ends, MadeOf, create_receivers-Ends}
use tarunner.Conf.Data.{Input, Transform, Prop}
use tarunner.Conf.Props.{Text}
use tarunner.Env.{Env}
use tarunner.Ini.{Load}
use tarunner.Operator.{OperatorConfig}
use tarunner.Operator.Routing.Distinct.{Twice}
use tarunner.Receiver.Aliases.{alias_name}
use tarunner.Receiver.Unset.{CopiesUnset, base_config-CopiesUnset}
use tarunner.Receiver.Kinds.{Kind, base_config}
use tarunner.Receiver.Kinds.Types.{InputOperator, Defaults}
use tarunner.Receiver.Kinds.Adapter.{Adapter}
use tarunner.Receiver.Kinds.Distinct.{base_config-Twice}

-- What the pipeline refuses, says its documentation: operators of one identifier, unless that is the
-- name of an operator's type, which no identifier is that ends in `-copy`, and a copy of which the
-- fields are not set.
pub record IsStrict {Logs : Type 0} (adapter : Adapter Logs) : Type 0 where
  pub distinct :
      (name stem : String) (operator : InputOperator) (ops : List OperatorConfig)
      → Twice (stem <> "-copy") ops
      → IsErr (adapter.build name operator ops)
  pub fields :
      (name : String) (operator : InputOperator) (ops : List OperatorConfig)
      → CopiesUnset ops
      → IsErr (adapter.build name operator ops)

module _ {Logs : Type 0} (platform : Platform Logs) (adapter : Adapter Logs) (env : Env)
    (defaults : Defaults) (cook : Bool) (text : Text) (load : Load) (base_dir : String)
    (transforms : List Transform) (props : List Prop) where
  -- No receiver can be built, of whatever input.
  abbrev pub AllRefused : Type 0
  AllRefused =
      (kind : Kind) (name : String) (operator : InputOperator) (input : Input)
      → IsErr (
          adapter.build name operator (
            base_config cook env.quote kind (record {
              base_dir = base_dir;
              input = input;
              transforms = transforms;
              props = props;
            })))

  after-ok {ℓ} :
      {A : Type ℓ} {a : A} (o : Option (Result A)) (f : A → List (Call Logs) × Outcome Logs)
      → o ≡ some (ok a)
      → after env platform text load o f ≡ f a
  unfolding after
  after-ok o f e = rw e refl

  after-err {ℓ} :
      {A : Type ℓ} {cause : Error} (o : Option (Result A)) (f : A → List (Call Logs) × Outcome Logs)
      → o ≡ some (err cause)
      → after env platform text load o f ≡ ([], failed cause)
  unfolding after
  after-err o f e = rw e refl

  none_made :
      IsAdapted platform adapter env defaults cook
      → AllRefused
      → (rest : List Input) (first : Input) (more : List Logs)
      → ¬ MadeOf env platform text load base_dir transforms props (first ∷ rest) more
  unfolding MadeOf
  none_made adapted refused rest first [] m = m
  none_made adapted refused rest first (l ∷ more) (made, _) =
      let (e, fails) =
        create_receiver-refused platform adapter env defaults cook adapted text load base_dir
          transforms props first (λ kind name operator. refused kind name operator first) in
      cc (made, fails)

  create_receivers-refused :
      IsAdapted platform adapter env defaults cook
      → AllRefused
      → (inputs rest : List Input) (first : Input) → enabled inputs ≡ first ∷ rest
      → IsErr (create_receivers env platform text load base_dir transforms props inputs [])
  unfolding Ends
  create_receivers-refused adapted refused inputs rest first e =
      elim (Result-cases
        (create_receivers env platform text load base_dir transforms props inputs [])) [
          | inl failure ↦ failure
          | inr (receivers, made) ↦
              let ends =
                create_receivers-Ends env platform text load base_dir transforms props inputs [] in
              let (more, _, of) : Ends env platform text load base_dir transforms props
                  (first ∷ rest) [] (ok receivers) =
                rw (e, made) at ends in
              absurd (none_made adapted refused rest first more of)
        ]

  run-refused :
      IsAdapted platform adapter env defaults cook
      → AllRefused
      → (inputs rest : List Input) (first : Input) → platform.new_exporter ≡ ok tt
      → read_inputs env platform text load base_dir ≡ some (ok inputs)
      → read_transforms_file env platform text load base_dir ≡ some (ok transforms)
      → read_props_file env platform text load base_dir ≡ some (ok props)
      → enabled inputs ≡ first ∷ rest
      → (e : Error) × (run env platform text load base_dir ≡ ([], failed e))
  unfolding run
  run-refused adapted refused inputs rest first x i t p e =
      let (cause, stops) = create_receivers-refused adapted refused inputs rest first e in
      (
        cause,
        after-ok _ _ (ap some x)
            ∙ (after-ok _ _ i
                ∙ (after-ok _ _ t ∙ (after-ok _ _ p ∙ after-err _ _ (ap some stops)))),
      )

module _ {Logs : Type 0} (platform : Platform Logs) (adapter : Adapter Logs) (env : Env)
    (defaults : Defaults) (text : Text) (load : Load) (base_dir : String)
    (adapted : IsAdapted platform adapter env defaults true) (strict : IsStrict adapter) where
  -- Under the feature gate, Run makes no call and ends with an error if two stanzas of props.conf
  -- have a field alias of the same name and at least one input is not disabled, where the pipeline
  -- refuses operators of the same identifier.
  pub run-alias_clash :
      (transforms : List Transform) (name : String) (before between after : List Prop) (p q : Prop)
      (inputs rest : List Input) (first : Input)
      → contains name (map alias_name p.field_aliases) ≡ true
      → contains name (map alias_name q.field_aliases) ≡ true
      → platform.new_exporter ≡ ok tt
      → read_inputs env platform text load base_dir ≡ some (ok inputs)
      → read_transforms_file env platform text load base_dir ≡ some (ok transforms)
      → read_props_file env platform text load base_dir
        ≡ some (ok (before ++ p ∷ (between ++ q ∷ after)))
      → enabled inputs ≡ first ∷ rest
      → (e : Error) × (run env platform text load base_dir ≡ ([], failed e))
  run-alias_clash transforms name before between after p q inputs rest first in_p in_q =
      run-refused platform adapter env defaults true text load base_dir transforms _ adapted
        (λ kind receiver operator input.
          strict.distinct receiver name operator _
            (base_config-Twice env.quote kind _ name before between after p q refl in_p in_q))
        inputs rest first

  -- Under the feature gate, Run makes no call and ends with an error if a stanza of props.conf has a
  -- source type and at least one input is not disabled, where the pipeline refuses a copy without
  -- fields.
  pub run-source_type :
      (transforms : List Transform) (before after : List Prop) (p : Prop) (inputs rest : List Input)
      (first : Input)
      → (p.source_type == "") ≡ false
      → platform.new_exporter ≡ ok tt
      → read_inputs env platform text load base_dir ≡ some (ok inputs)
      → read_transforms_file env platform text load base_dir ≡ some (ok transforms)
      → read_props_file env platform text load base_dir ≡ some (ok (before ++ p ∷ after))
      → enabled inputs ≡ first ∷ rest
      → (e : Error) × (run env platform text load base_dir ≡ ([], failed e))
  run-source_type transforms before after p inputs rest first set =
      run-refused platform adapter env defaults true text load base_dir transforms _ adapted
        (λ kind receiver operator input.
          strict.fields receiver operator _
            (base_config-CopiesUnset env.quote kind _ before after p refl set))
        inputs rest first
