-- ===== src/Collector/Delivers.antt =====
-- From the files that `Run` of internal/collector/collector.go reads to the entries that leave the
-- pipelines of its receivers, while the feature gate is off.
use tarunner.Base.{◌≡◌, String, Bool, true, false, some, List, [], map, inl, inr}
use tarunner.Base.Dict.{Dict}
use tarunner.Base.Result.{ok, Result-cases}
use tarunner.Collector.{
  Platform, Call, running, file_to_read, read_props_file, read_transforms_file, read_with, run,
}
use tarunner.Collector.Adapted.{IsAdapted, AllBuilt, run-AllBuilt}
use tarunner.Collector.Receivers.{enabled}
use tarunner.Collector.Started.{Serves}
use tarunner.Conf.Data.{Input, Transform, Prop}
use tarunner.Conf.Props.{Text, read_props}
use tarunner.Conf.Props.Names.{DistinctNames, DistinctTexts, title_of, read_props-DistinctNames}
use tarunner.Conf.Props.Order.{Sorts}
use tarunner.Env.{Env}
use tarunner.FeatureGates.{Registry, cook_feature_gate, cook-off}
use tarunner.Ini.{Section, Load, HasDefaultFirst}
use tarunner.Operator.Routing.{Routing}
use tarunner.Operator.Stanza.{Pipeline}
use tarunner.Receiver.{Config}
use tarunner.Receiver.Becomes.{Becomes}
use tarunner.Receiver.Kinds.{Kind, base_config}
use tarunner.Receiver.Kinds.Adapter.{Adapter}
use tarunner.Receiver.Kinds.Delivered.{sent_attributes, base_config-Becomes}
use tarunner.Receiver.Kinds.Distinct.{base_config-DistinctIds}
use tarunner.Receiver.Kinds.Types.{Defaults}

-- Of every file that loads, the default section comes first, and the sections behind it have distinct
-- names, as ini.Load merges the sections of one name.
unfoldable pub IsDistinct : Load → Type 0
IsDistinct load =
    (payload : String) (sections : List Section)
    → load payload ≡ ok sections
    → (d : HasDefaultFirst sections) × DistinctTexts (map title_of d.rest)

module _ {Logs : Type 0} (env : Env) (platform : Platform Logs) (text : Text) (load : Load)
    (sorts : Sorts text.sort_slice) (distinct : IsDistinct load) where
  read_props-of_file :
      (payload : String) (props : List Prop)
      → read_props text load payload ≡ some (ok props)
      → DistinctNames props
  unfolding read_props IsDistinct
  read_props-of_file payload props e = elim (Result-cases (load payload)) [
    | inl (cause, failed) ↦ cc (rw (read_props, failed) at e)
    | inr (sections, loaded) ↦
        let (d, names) = distinct payload sections loaded in
        read_props-DistinctNames text load payload sections props sorts loaded d names e
  ]

  read_props_file-DistinctNames :
      (base_dir : String) (props : List Prop)
      → read_props_file env platform text load base_dir ≡ some (ok props)
      → DistinctNames props
  unfolding read_props_file DistinctTexts
  read_props_file-DistinctNames base_dir props e =
      elim (Result-cases (file_to_read env platform text load base_dir "props.conf")) [
        | inl (cause, failed) ↦
            let none_read : [] ≡ props = cc (rw (read_props_file, failed) at e) in
            rw (← none_read) tt
        | inr (file, found) ↦ elim (Result-cases (platform.read_file file)) [
          | inl (cause, failed) ↦ cc (rw (read_props_file, found, read_with, failed) at e)
          | inr (payload, got) ↦
              read_props-of_file payload props (rw (read_props_file, found, read_with, got) at e)
        ]
      ]

  module _ (adapter : Adapter Logs) (defaults : Defaults) (S : Pipeline) (base_dir : String)
      (calls stop : List (Call Logs)) (transforms : List Transform) (props : List Prop)
      (input : Input) (kind : Kind) where
    abbrev pub config : Config
    config = record { base_dir = base_dir; input = input; transforms = transforms; props = props }

    -- What a run has started, and what becomes of the entries of a receiver of this kind.
    abbrev pub Delivers :
        (cook : Bool)
        → IsAdapted platform adapter env defaults cook
        → Routing (base_config cook env.quote kind config)
        → Dict String
        → Type 0
    Delivers cook adapted R a =
        ((s : Serves env platform text load base_dir calls stop) × AllBuilt platform adapter env
            defaults cook adapted text load base_dir transforms props (enabled s.inputs)
            s.receivers)
        × Becomes S (base_config cook env.quote kind config) R (sent_attributes kind) a

    run-Delivers :
        (cook : Bool) (adapted : IsAdapted platform adapter env defaults cook)
        (R : Routing (base_config cook env.quote kind config)) (a : Dict String)
        → cook ≡ false
        → run env platform text load base_dir ≡ (calls, running stop)
        → read_transforms_file env platform text load base_dir ≡ some (ok transforms)
        → read_props_file env platform text load base_dir ≡ some (ok props)
        → Delivers cook adapted R a
    run-Delivers true adapted R a off e t p = cc
    run-Delivers false adapted R a off e t p =
        let (s, built) =
          run-AllBuilt platform adapter env defaults false adapted text load base_dir calls stop
            e in
        let same_transforms : s.transforms ≡ transforms = cc (s.read_transforms_ok, t) in
        let same_props : s.props ≡ props = cc (s.read_props_ok, p) in
        (
          (s, rw (same_transforms, same_props) at built),
          base_config-Becomes S env.quote kind config R
              (base_config-DistinctIds env.quote kind config
                (read_props_file-DistinctNames base_dir props p))
              a,
        )

    -- As the program sets no feature gate, whatever props.conf says, if its sections behind the
    -- default one have distinct names and sort.Slice permutes what it sorts: when Run returns a
    -- shutdown function, it has started the receivers that the pipeline builds for the inputs that
    -- are not disabled, from the props and transforms that were read, and in the package of each of
    -- them, for any routing, each entry leaves the operators with some attributes, and all that
    -- leave have the following. The source, the source type and the index stand under com.splunk.
    -- followed by their name, if the entry had them, and no longer under their name; the source is
    -- the path of the file, if there is one, where a package has the operator `start`; all else is
    -- unchanged.
    pub run-Becomes :
        (registry : Registry)
        (adapted : IsAdapted platform adapter env defaults (registry.is_enabled cook_feature_gate))
        (R : Routing (base_config (registry.is_enabled cook_feature_gate) env.quote kind config))
        (a : Dict String)
        → run env platform text load base_dir ≡ (calls, running stop)
        → read_transforms_file env platform text load base_dir ≡ some (ok transforms)
        → read_props_file env platform text load base_dir ≡ some (ok props)
        → Delivers (registry.is_enabled cook_feature_gate) adapted R a
    run-Becomes registry adapted R a =
        run-Delivers (registry.is_enabled cook_feature_gate) adapted R a (cook-off registry)
