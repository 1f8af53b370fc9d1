-- ===== src/ScriptedInput/Execute/Steps.antt =====
-- One run of `_execute` of internal/scriptedinput/input.go as steps of the goroutine that makes it.
use tarunner.Base.{ℕ, suc, ◌≤◌, ◌≡◌, refl, String, none, some, ◌⊎◌, inl, inr}
use tarunner.Base.Result.{ok, err}
use tarunner.Conf.Data.{Input}
use tarunner.Env.{Env}
use tarunner.Script.{determine_command_name}
use tarunner.ScriptedInput.{Plan}
use tarunner.ScriptedInput.Execute.{Process, Trace, to_xml, execute}
use tarunner.ScriptedInput.Execute.Stages.{Fits, complete, take, text_of, execute-Fits}
use tarunner.ScriptedInput.Loop.{
  System, preparing, running, at_select, fail, launch, publish, exit, Run, here, next,
}

-- The goroutine waits for a program that it has started.
abbrev pub in_program : System → System
in_program s = record s { pc = running; launches = suc s.launches; command = some (suc s.launches) }

abbrev pub back_to_select : System → System
back_to_select s = record s { pc = at_select }

-- The calls that have been made when the goroutine, from the state s, has come to the state t: a
-- run waits in its write, with no program started, or for its program; it ends before there is a
-- program, or when the program has exited and all calls are made.
unfoldable pub Agrees : String → String → System → System → Trace → Type 0
Agrees xml command s t (calls, none) =
    ((t ≡ s) × (calls ≡ take 4 (complete xml command)))
    ⊎ ((t ≡ in_program s) × (calls ≡ take 8 (complete xml command)))
Agrees xml command s t (calls, some r) =
    ((t ≡ back_to_select s) × ((n : ℕ) × (n ≤ 6) × (calls ≡ take n (complete xml command))))
    ⊎ ((t ≡ back_to_select (in_program s)) × (calls ≡ complete xml command))

module _ (plan : Plan) (s : System) (waits : s.pc ≡ preparing) where
  abbrev pub Reached : String → String → Trace → Type 0
  Reached xml command trace = (n : ℕ) × (t : System) × Run plan s n t × Agrees xml command s t trace

  to_program : Run plan s 2 (in_program s)
  to_program = next (next here (launch waits refl)) (publish refl refl)

  to_select : Run plan s 3 (back_to_select (in_program s))
  to_select = next to_program (exit refl refl)

  Fits-Reached :
      (xml command : String) (trace : Trace) → Fits xml command trace → Reached xml command trace
  unfolding Fits Agrees
  Fits-Reached xml command (calls, none) (inl e) = (0, s, here, inl (refl, e))
  Fits-Reached xml command (calls, none) (inr e) = (2, in_program s, to_program, inr (refl, e))
  Fits-Reached xml command (calls, some (ok _)) e =
      (3, back_to_select (in_program s), to_select, inr (refl, e))
  Fits-Reached xml command (calls, some (err _)) (inl e) =
      (3, back_to_select (in_program s), to_select, inr (refl, e))
  Fits-Reached xml command (calls, some (err _)) (inr (n, h, e)) =
      (1, back_to_select s, next here (fail waits refl), inl (refl, (n, h, e)))

  -- A run of `_execute` takes the goroutine, by its own steps, from where it prepares a program to
  -- the state that agrees with the calls of the run: whether the run ends or waits forever, it has
  -- started one program, and set si.command to it, or none, as the calls say.
  pub execute-Reached :
      (process : Process) (input : Input) (env : Env) (base_dir : String)
      → Reached
          (text_of (to_xml process input))
          (text_of (determine_command_name env base_dir input))
          (execute env process base_dir input)
  execute-Reached process input env base_dir =
      Fits-Reached _ _ (execute env process base_dir input)
        (execute-Fits process input env base_dir)
