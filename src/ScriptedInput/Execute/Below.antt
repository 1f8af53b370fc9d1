-- ===== src/ScriptedInput/Execute/Below.antt =====
-- Which programs `_execute` of internal/scriptedinput/input.go starts.
use tarunner.Base.{
  ℕ, zero, suc, String, ◌≡◌, refl, false, none, some, List, [], ◌∷◌, inl, inr, All, ◌==◌, string_eq,
  eq_iff, Bool-cases,
}
use tarunner.Base.Result.{Result, ok, err, >>=-eq-ok}
use tarunner.Conf.Data.{Input}
use tarunner.Env.{Env, Url}
use tarunner.FilePath
use tarunner.Script.{determine_command_name}
use tarunner.Script.Inside.{IsBelow, determine_command_name-IsBelow}
use tarunner.ScriptedInput.{Plan, schedule_input}
use tarunner.ScriptedInput.Execute.{Process, Call, start, Trace, to_xml, with_command, execute}
use tarunner.ScriptedInput.Execute.Stages.{Fits, take, complete, text_of, with_command-Fits}

-- The programs that the calls start.
unfoldable pub started : List Call → List String
started [] = []
started (start command ∷ calls) = command ∷ started calls
started (_ ∷ calls) = started calls

module _ {ℓ} (P : String → Type ℓ) where
  All-started-take :
      (n : ℕ) (calls : List Call) → All P (started calls) → All P (started (take n calls))
  unfolding started
  All-started-take zero calls h = tt
  All-started-take (suc n) [] h = tt
  All-started-take (suc n) (start command ∷ calls) (p, h) = (p, All-started-take n calls h)
  All-started-take (suc n) (_ ∷ calls) h = All-started-take n calls h

  All-started-prefix :
      (n : ℕ) (xml command : String) (calls : List Call)
      → P command
      → calls ≡ take n (complete xml command)
      → All P (started calls)
  unfolding started
  All-started-prefix n xml command calls p e =
      rw e (All-started-take n (complete xml command) (p, tt))

  Fits-started :
      (xml command : String) (t : Trace) → P command → Fits xml command t → All P (started t.0)
  unfolding Fits
  Fits-started xml command (calls, none) p (inl e) = All-started-prefix 4 xml command calls p e
  Fits-started xml command (calls, none) p (inr e) = All-started-prefix 8 xml command calls p e
  Fits-started xml command (calls, some (ok _)) p e = All-started-prefix 9 xml command calls p e
  Fits-started xml command (calls, some (err _)) p (inl e) =
      All-started-prefix 9 xml command calls p e
  Fits-started xml command (calls, some (err _)) p (inr (n, _, e)) =
      All-started-prefix n xml command calls p e

  with_command-started :
      (process : Process) (input : Input) (r : Result String)
      → ((command : String) → r ≡ ok command → P command)
      → All P (started (with_command process input r).0)
  unfolding started
  with_command-started process input (err e) h = tt
  with_command-started process input (ok command) h =
      Fits-started (text_of (to_xml process input)) command _ (h command refl)
        (with_command-Fits process input (ok command))

-- `scheduleInput` goes on for two schemes only.
scheme_of :
    (env : Env) (atoi : String → Result ℕ) (input : Input) (plan : Plan)
    → schedule_input env atoi input ≡ ok plan
    → (parsed : Url) × (env.url_parse input.stanza.name ≡ ok parsed)
      × ((parsed.scheme == "monitor") ≡ false)
unfolding schedule_input
scheme_of env atoi input plan e =
    let (parsed, found, later) = >>=-eq-ok (env.url_parse input.stanza.name) _ e in
    elim (Bool-cases (parsed.scheme == "script")) [
      | inl s ↦ (parsed, found, rw ((eq_iff parsed.scheme "script").0 s) refl)
      | inr s ↦ elim (Bool-cases (parsed.scheme == "")) [
        | inl n ↦ (parsed, found, rw ((eq_iff parsed.scheme "").0 n) refl)
        | inr n ↦ cc (rw (s, n) at later)
      ]
    ]

-- The program lies below the absolute base directory.
abbrev pub IsOwn : Env → String → String → Type 0
IsOwn env base_dir command =
    (abs_base : String) × (FilePath.abs env.getwd base_dir ≡ ok abs_base) × IsBelow abs_base command

-- Every program that a run starts, of an input that `scheduleInput` accepts, lies below the absolute
-- base directory.
pub started-IsOwn :
    (env : Env) (atoi : String → Result ℕ) (process : Process) (base_dir : String) (input : Input)
    (plan : Plan)
    → schedule_input env atoi input ≡ ok plan
    → All (IsOwn env base_dir) (started (execute env process base_dir input).0)
unfolding execute
started-IsOwn env atoi process base_dir input plan e =
    let (parsed, found, scheme) = scheme_of env atoi input plan e in
    with_command-started (IsOwn env base_dir) process input
      (determine_command_name env base_dir input)
      (λ command got.
        elim (determine_command_name-IsBelow env base_dir input parsed command found got) [
          | inl (monitor, _) ↦ cc ((eq_iff parsed.scheme "monitor").1 monitor, scheme)
          | inr (_, below) ↦ below
        ])
