-- ===== src/Collector/Total.antt =====
-- The panics of `Run` of internal/collector/collector.go.
use tarunner.Base.{String, Bool, ◌≡◌, refl, inl, inr, Option, none, some, List, [], ◌∷◌}
use tarunner.Base.Result.{Result, ok, err, Result-cases}
use tarunner.Conf.Data.{Input, Transform, Prop}
use tarunner.Conf.Props.{Text, no_prop, prop_of_section, read_props, order_props}
use tarunner.Conf.Read.{
  no_input, input_of_section, read_input, no_transform, transform_of_section, read_transforms,
}
use tarunner.Conf.Read.Filled.{read_each, read_all-read_each}
use tarunner.Env.{Env}
use tarunner.Ini.{Section, Load, HasDefaultFirst}
use tarunner.Receiver.Kinds.Adapter.{Adapter}
use tarunner.Receiver.Kinds.Types.{Defaults}
use tarunner.Collector.{
  Platform, Call, Outcome, panicked, conclude, start_with, run_receivers, after, read_with,
  file_to_read, read_inputs, read_transforms_file, read_props_file,
}
use tarunner.Collector.Packages.{
  create_package_receivers, create_package_receivers-returns, run_packages,
}

Returns {ℓ} : {A : Type ℓ} → Option A → Type ℓ
Returns {A = A} o = (a : A) × (o ≡ some a)

-- Every file that loads has its default section first and once.
unfoldable pub IsOrdered : Load → Type 0
IsOrdered load =
    (payload : String) (sections : List Section)
    → load payload ≡ ok sections
    → HasDefaultFirst sections

Returns-some {ℓ} : {A : Type ℓ} (a : A) → Returns (some a)
unfolding Returns
Returns-some a = (a, refl)

module _ (load : Load) (ordered : IsOrdered load) where
  read_input-Returns : (payload : String) → Returns (read_input load payload)
  unfolding read_input Returns IsOrdered
  read_input-Returns payload = elim (Result-cases (load payload)) [
    | inl (e, h) ↦ (err e, rw (read_input, h) refl)
    | inr (sections, h) ↦ (
      read_each (λ s. ok (input_of_section s)) (ordered payload sections h).rest,
      rw (read_input, h)
          (read_all-read_each (λ s. ok (input_of_section s)) no_input sections
            (ordered payload sections h)),
    )
  ]

  read_transforms-Returns : (payload : String) → Returns (read_transforms load payload)
  unfolding read_transforms Returns IsOrdered
  read_transforms-Returns payload = elim (Result-cases (load payload)) [
    | inl (e, h) ↦ (err e, rw (read_transforms, h) refl)
    | inr (sections, h) ↦ (
      read_each (λ s. ok (transform_of_section s)) (ordered payload sections h).rest,
      rw (read_transforms, h)
          (read_all-read_each (λ s. ok (transform_of_section s)) no_transform sections
            (ordered payload sections h)),
    )
  ]

  read_props-Returns : (text : Text) (payload : String) → Returns (read_props text load payload)
  unfolding read_props Returns IsOrdered
  read_props-Returns text payload = elim (Result-cases (load payload)) [
    | inl (e, h) ↦ (err e, rw (read_props, h) refl)
    | inr (sections, h) ↦
        let all =
          read_all-read_each (prop_of_section text) no_prop sections (ordered payload sections h) in
        elim (Result-cases (read_each (prop_of_section text) (ordered payload sections h).rest)) [
          | inl (e, k) ↦ (err e, rw (read_props, h) (rw (all, k) refl))
          | inr (props, k) ↦ (ok (order_props text props), rw (read_props, h) (rw (all, k) refl))
        ]
  ]

  module _ {Logs : Type 0} (env : Env) (platform : Platform Logs) (text : Text) where
    read_with-Returns {ℓ} :
        {A : Type ℓ} (read : String → Option (Result A)) (file : String)
        → ((payload : String) → Returns (read payload))
        → Returns (read_with env platform text load read file)
    unfolding Returns
    read_with-Returns read file h = elim (Result-cases (platform.read_file file)) [
      | inl (e, k) ↦ (err e, rw (read_with, k) refl)
      | inr (b, k) ↦ let (r, g) = h b in (r, rw (read_with, k) g)
    ]

    read_inputs-Returns :
        (base_dir : String) → Returns (read_inputs env platform text load base_dir)
    unfolding read_inputs Returns
    read_inputs-Returns base_dir =
        elim (Result-cases (file_to_read env platform text load base_dir "inputs.conf")) [
          | inl (e, h) ↦ (err e, rw (read_inputs, h) refl)
          | inr (file, h) ↦
              let (r, g) = read_with-Returns (read_input load) file read_input-Returns in
              (r, rw (read_inputs, h) g)
        ]

    read_transforms_file-Returns :
        (base_dir : String) → Returns (read_transforms_file env platform text load base_dir)
    unfolding read_transforms_file Returns
    read_transforms_file-Returns base_dir =
        elim (Result-cases (file_to_read env platform text load base_dir "transforms.conf")) [
          | inl (e, h) ↦ (ok [], rw (read_transforms_file, h) refl)
          | inr (file, h) ↦
              let (r, g) = read_with-Returns (read_transforms load) file read_transforms-Returns in
              (r, rw (read_transforms_file, h) g)
        ]

    read_props_file-Returns :
        (base_dir : String) → Returns (read_props_file env platform text load base_dir)
    unfolding read_props_file Returns
    read_props_file-Returns base_dir =
        elim (Result-cases (file_to_read env platform text load base_dir "props.conf")) [
          | inl (e, h) ↦ (ok [], rw (read_props_file, h) refl)
          | inr (file, h) ↦
              let (r, g) =
                read_with-Returns (read_props text load) file (read_props-Returns text) in
              (r, rw (read_props_file, h) g)
        ]

    unfoldable pub NotPanicked : List (Call Logs) × Outcome Logs → Type 0
    NotPanicked (calls, panicked) = ⊥
    NotPanicked (calls, _) = Unit

    after-NotPanicked {ℓ} :
        {A : Type ℓ} (o : Option (Result A)) (f : A → List (Call Logs) × Outcome Logs)
        → Returns o
        → ((a : A) → NotPanicked (f a))
        → NotPanicked (after env platform text load o f)
    unfolding NotPanicked after Returns
    after-NotPanicked none f (r, e) h = cc
    after-NotPanicked (some (err e)) f r h = tt
    after-NotPanicked (some (ok a)) f r h = h a

    conclude-NotPanicked :
        (receivers : List Logs) (r : List (Call Logs) × Result {0} Unit)
        → NotPanicked (conclude env platform text load receivers r)
    unfolding NotPanicked conclude
    conclude-NotPanicked receivers (calls, err e) = tt
    conclude-NotPanicked receivers (calls, ok _) = tt

    start_with-NotPanicked :
        (receivers : List Logs) (r : Result {0} Unit)
        → NotPanicked (start_with env platform text load receivers r)
    unfolding NotPanicked start_with
    start_with-NotPanicked receivers (err e) = tt
    start_with-NotPanicked receivers (ok _) = conclude-NotPanicked receivers _

    run_receivers-NotPanicked :
        (receivers : List Logs) → NotPanicked (run_receivers env platform text load receivers)
    unfolding NotPanicked run_receivers
    run_receivers-NotPanicked [] = tt
    run_receivers-NotPanicked (l ∷ receivers) =
        start_with-NotPanicked (l ∷ receivers) platform.start_exporter

    module _ (adapter : Adapter Logs) (defaults : Defaults) (cook : Bool) (base_dir : String) where
      abbrev of_props : List Input → List Transform → List Prop → List (Call Logs) × Outcome Logs
      of_props inputs transforms props =
          after env platform text load
            (create_package_receivers adapter env defaults cook base_dir transforms props inputs [])
            (run_receivers env platform text load)

      abbrev of_transforms : List Input → List Transform → List (Call Logs) × Outcome Logs
      of_transforms inputs transforms =
          after env platform text load (read_props_file env platform text load base_dir)
            (of_props inputs transforms)

      abbrev of_inputs : List Input → List (Call Logs) × Outcome Logs
      of_inputs inputs =
          after env platform text load (read_transforms_file env platform text load base_dir)
            (of_transforms inputs)

      of_props-NotPanicked :
          (inputs : List Input) (transforms : List Transform) (props : List Prop)
          → NotPanicked (of_props inputs transforms props)
      unfolding Returns
      of_props-NotPanicked inputs transforms props =
          after-NotPanicked
            (create_package_receivers adapter env defaults cook base_dir transforms props inputs [])
            (run_receivers env platform text load)
            (create_package_receivers-returns adapter env defaults cook base_dir transforms props
              inputs [])
            run_receivers-NotPanicked

      of_transforms-NotPanicked :
          (inputs : List Input) (transforms : List Transform)
          → NotPanicked (of_transforms inputs transforms)
      of_transforms-NotPanicked inputs transforms =
          after-NotPanicked (read_props_file env platform text load base_dir)
            (of_props inputs transforms) (read_props_file-Returns base_dir)
            (of_props-NotPanicked inputs transforms)

      of_inputs-NotPanicked : (inputs : List Input) → NotPanicked (of_inputs inputs)
      of_inputs-NotPanicked inputs =
          after-NotPanicked (read_transforms_file env platform text load base_dir)
            (of_transforms inputs) (read_transforms_file-Returns base_dir)
            (of_transforms-NotPanicked inputs)

      -- `Run`, over the factories of the packages, does not panic if every file that loads has its
      -- default section first and once: no slice is written out of range when the files are read, and
      -- each package gets of createReceiver a configuration that its type assertions accept.
      pub run_packages-NotPanicked :
          NotPanicked (run_packages adapter env defaults cook platform text load base_dir)
      unfolding run_packages
      run_packages-NotPanicked =
          after-NotPanicked (some platform.new_exporter)
            (λ _.
              after env platform text load (read_inputs env platform text load base_dir) of_inputs)
            (Returns-some _)
            (λ _.
              after-NotPanicked (read_inputs env platform text load base_dir) of_inputs
                (read_inputs-Returns base_dir) of_inputs-NotPanicked)
