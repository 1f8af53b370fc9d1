-- ===== src/ScriptedInput/Execute/Stages.antt =====
-- How far a run of `_execute` of internal/scriptedinput/input.go comes.
use tarunner.Base.{
  ℕ, zero, suc, ◌≤◌, ◌≡◌, refl, String, Option, none, some, List, [], ◌∷◌, ◌++◌, ◌⊎◌, inl, inr,
  arith,
}
use tarunner.Base.Result.{Result, ok, err}
use tarunner.Conf.Data.{Input}
use tarunner.Env.{Env}
use tarunner.Script.{determine_command_name}
use tarunner.ScriptedInput.Execute.{
  Process, Call, open_stdin, open_stdout, run_reader, close_stdin, set_command, wait,
  close_stop_read, write, start, Trace, to_xml, then_do, after_wait, run_program, feed,
  with_command, execute,
}

-- All calls of a run, in order.
abbrev pub complete : String → String → List Call
complete input_xml command =
    open_stdin
    ∷ open_stdout
    ∷ run_reader
    ∷ write input_xml
    ∷ close_stdin
    ∷ start command
    ∷ set_command
    ∷ wait
    ∷ close_stop_read
    ∷ []

abbrev pub take {ℓ} : {A : Type ℓ} → ℕ → List A → List A
take zero xs = []
take (suc n) [] = []
take (suc n) (x ∷ xs) = x ∷ take n xs

-- A run that does not end waits for the write or for the program. One that succeeds has made all
-- calls. One that fails has made all too, and the program has failed; or it ended before there was
-- a program.
unfoldable pub Fits : String → String → Trace → Type 0
Fits xml command (calls, none) =
    (calls ≡ take 4 (complete xml command)) ⊎ (calls ≡ take 8 (complete xml command))
Fits xml command (calls, some (ok _)) = calls ≡ complete xml command
Fits xml command (calls, some (err e)) =
    (calls ≡ complete xml command) ⊎ ((n : ℕ) × (n ≤ 6) × (calls ≡ take n (complete xml command)))

module _ (process : Process) (xml command : String) where
  -- The trace, behind the first n calls.
  abbrev behind : ℕ → Trace → Trace
  behind n rest = (take n (complete xml command) ++ rest.0, rest.1)

  program-Fits :
      (s : Result {0} Unit) (w : Option (Result {0} Unit))
      → Fits xml command (
          behind 5
            (then_do (start command) (some s) (then_do set_command (some (ok tt)) (after_wait w))))
  unfolding Fits
  program-Fits (err e) w = inr (6, omega arith, refl)
  program-Fits (ok _) none = inr refl
  program-Fits (ok _) (some (err e)) = inl refl
  program-Fits (ok _) (some (ok _)) = refl

  write-Fits :
      (w : Option (Result {0} Unit)) (c : Result {0} Unit) (rest : Trace)
      → Fits xml command (behind 5 rest)
      → Fits xml command (behind 3 (then_do (write xml) w (then_do close_stdin (some c) rest)))
  unfolding Fits
  write-Fits none c rest h = inl refl
  write-Fits (some (err e)) c rest h = inr (4, omega arith, refl)
  write-Fits (some (ok _)) (err e) rest h = inr (5, omega arith, refl)
  write-Fits (some (ok _)) (ok _) rest h = h

  pipes-Fits :
      (i o : Result {0} Unit) (rest : Trace)
      → Fits xml command (behind 3 rest)
      → Fits xml command (
          then_do open_stdin
            (some i)
            (then_do open_stdout (some o) (then_do run_reader (some (ok tt)) rest)))
  unfolding Fits
  pipes-Fits (err e) o rest h = inr (1, omega arith, refl)
  pipes-Fits (ok _) (err e) rest h = inr (2, omega arith, refl)
  pipes-Fits (ok _) (ok _) rest h = h

-- The text that the program is given, or the empty text.
abbrev pub text_of : Result String → String
text_of (err e) = ""
text_of (ok text) = text

module _ (process : Process) (input : Input) where
  feed-Fits :
      (command : String) (r : Result String)
      → Fits (text_of r) command (behind process (text_of r) command 3 (feed process command r))
  unfolding Fits run_program
  feed-Fits command (err e) = inr (3, omega arith, refl)
  feed-Fits command (ok xml) =
      write-Fits process xml command (process.write xml) process.close _
        (program-Fits process xml command process.start process.wait)

  pub with_command-Fits :
      (r : Result String)
      → Fits (text_of (to_xml process input)) (text_of r) (with_command process input r)
  unfolding Fits
  with_command-Fits (err e) = inr (0, omega arith, refl)
  with_command-Fits (ok command) =
      pipes-Fits process (text_of (to_xml process input)) command process.stdin_pipe
        process.stdout_pipe _ (feed-Fits command (to_xml process input))

  -- The calls of a run are the first few of the complete list, or all. A run that does not end
  -- waits in the write or for the program. A run that succeeds has made all calls. One that fails
  -- has made all, and so has closed the channel that stops the reader, or at most those up to the
  -- start of the program.
  pub execute-Fits :
      (env : Env) (base_dir : String)
      → Fits
          (text_of (to_xml process input))
          (text_of (determine_command_name env base_dir input))
          (execute env process base_dir input)
  unfolding execute
  execute-Fits env base_dir = with_command-Fits (determine_command_name env base_dir input)
