-- ===== src/Collector/Receivers.antt =====
-- The receivers that `createReceivers` makes, against the inputs that are not disabled.
use mathlib.Core.List.{append_assoc, append-nil}
use tarunner.Base.{
  String, ◌≡◌, refl, sym, ap, ◌∙◌, inl, inr, List, [], ◌∷◌, ◌++◌, Bool-cases, if◌then◌else◌,
  string_eq,
}
use tarunner.Base.Result.{Error, Result, ok, err, failed_to_create_receiver, Result-cases}
use tarunner.Conf.Data.{Input, Transform, Prop}
use tarunner.Conf.Props.{Text}
use tarunner.Env.{Env}
use tarunner.Ini.{Load}
use tarunner.Collector.{Platform, is_disabled, create_receiver, create_receivers}

unfoldable pub enabled : List Input → List Input
enabled [] = []
enabled (i ∷ inputs) = let rest = enabled inputs in if is_disabled i then rest else i ∷ rest

module _ {Logs : Type 0} (env : Env) (platform : Platform Logs) (text : Text) (load : Load)
    (base_dir : String) (transforms : List Transform) (props : List Prop) where
  -- Each receiver is made of its input.
  unfoldable pub MadeOf : List Input → List Logs → Type 0
  MadeOf [] [] = Unit
  MadeOf (i ∷ inputs) (l ∷ receivers) =
      (create_receiver env platform text load base_dir transforms props i ≡ ok l)
      × MadeOf inputs receivers
  MadeOf _ _ = ⊥

  abbrev create_all : List Input → List Logs → Result (List Logs)
  create_all = create_receivers env platform text load base_dir transforms props

  -- How a run of the loop ends, behind the receivers made before.
  unfoldable pub Ends : List Input → List Logs → Result (List Logs) → Type 0
  Ends inputs made (ok receivers) =
      (more : List Logs) × (receivers ≡ made ++ more) × MadeOf inputs more
  Ends inputs made (err e) =
      (before after : List Input) × (input : Input) × (more : List Logs) × (cause : Error) × (inputs
        ≡ before ++ input ∷ after)
      × MadeOf before more
      × (create_receiver env platform text load base_dir transforms props input ≡ err cause)
      × (e ≡ failed_to_create_receiver input.stanza.name cause)

  Ends-cons :
      (i : Input) (inputs : List Input) (made : List Logs) (l : Logs) (r : Result (List Logs))
      → create_receiver env platform text load base_dir transforms props i ≡ ok l
      → Ends inputs (made ++ l ∷ []) r
      → Ends (i ∷ inputs) made r
  unfolding Ends MadeOf
  Ends-cons i inputs made l (ok receivers) h (more, same, of) =
      (l ∷ more, same ∙ append_assoc made (l ∷ []) more, (h, of))
  Ends-cons i inputs made l (err e) h (before, after, input, more, cause, split, of, failed, same) =
      (i ∷ before, after, input, l ∷ more, cause, ap (◌∷◌ i) split, (h, of), failed, same)

  -- `createReceivers` either returns one receiver for each input that is not disabled, in their
  -- order, each made of its input, or it returns the error of the first of these inputs that no
  -- receiver can be made of, wrapped with that input's name.
  pub create_receivers-Ends :
      (inputs : List Input) (made : List Logs) → Ends (enabled inputs) made (create_all inputs made)
  unfolding Ends MadeOf create_receivers enabled
  create_receivers-Ends [] made = ([], sym (append-nil made), tt)
  create_receivers-Ends (i ∷ inputs) made = elim (Bool-cases (is_disabled i)) [
    | inl off ↦ rw off (create_receivers-Ends inputs made)
    | inr on ↦
        elim (Result-cases (create_receiver env platform text load base_dir transforms props i)) [
          | inl (e, failed) ↦ rw (on, failed) ([], enabled inputs, i, [], e, refl, tt, failed, refl)
          | inr (l, found) ↦
              rw (on, found)
                (Ends-cons i (enabled inputs) made l _ found
                  (create_receivers-Ends inputs (made ++ l ∷ [])))
        ]
  ]
