-- ===== src/ScriptedInput/Execute.antt =====
-- `_execute` of internal/scriptedinput/input.go: one run of the program of an input, as the calls
-- that it makes. `ToXML` of internal/conf/inputs.go writes what the program is given to read.
pub mod Stages
pub mod Below
pub mod Steps
use tarunner.Base.{String, ◌<>◌, Bool, Option, none, some, List, [], ◌∷◌}
use tarunner.Base.Result.{Result, ok, err, ◌>>=◌}
use tarunner.Conf.Data.{Input}
use tarunner.Env.{Env}
use tarunner.Script.{determine_command_name}

-- What os/exec and encoding/xml return in one run. `none` is a call that blocks forever: a write to
-- a full pipe that no program reads, and a program that does not exit.
pub record Process : Type 0 where
  pub stdin_pipe : Result {0} Unit
  pub stdout_pipe : Result {0} Unit
  -- xml.MarshalIndent(i, "", "  ")
  pub marshal_indent : Input → Result String
  pub write : String → Option (Result {0} Unit)
  pub close : Result {0} Unit
  pub start : Result {0} Unit
  pub wait : Option (Result {0} Unit)

-- `run_reader` starts the goroutine that reads the output, `set_command` is `si.command = cmd`.
pub data Call : Type 0 where
  open_stdin open_stdout run_reader close_stdin set_command wait close_stop_read : Call
  write start : String → Call

abbrev pub xml_declaration : String
xml_declaration = "<?xml version=\"1.0\" encoding=\"UTF-8\"?>\n"

unfoldable pub to_xml : Process → Input → Result String
to_xml process i = do b ← process.marshal_indent i; ok (xml_declaration <> b)

-- The calls made, and how the function ends: `none` if it does not.
abbrev pub Trace : Type 0
Trace = List Call × Option (Result {0} Unit)

-- A call, and what follows it if it gives no error.
abbrev pub then_do : Call → Option (Result {0} Unit) → Trace → Trace
then_do call none rest = (call ∷ [], none)
then_do call (some (err e)) rest = (call ∷ [], some (err e))
then_do call (some (ok _)) rest = (call ∷ rest.0, rest.1)

-- The channel is closed whether the program has succeeded or not.
abbrev pub after_wait : Option (Result {0} Unit) → Trace
after_wait none = (wait ∷ [], none)
after_wait (some r) = (wait ∷ close_stop_read ∷ [], some r)

-- From the start of the program.
unfoldable pub run_program : Process → String → Trace
run_program process command =
    then_do (start command) (some process.start)
      (then_do set_command (some (ok tt)) (after_wait process.wait))

-- From the XML, or the error that there is none.
abbrev pub feed : Process → String → Result String → Trace
feed process command (err e) = ([], some (err e))
feed process command (ok input_xml) =
    then_do (write input_xml) (process.write input_xml)
      (then_do close_stdin (some process.close) (run_program process command))

abbrev pub with_command : Process → Input → Result String → Trace
with_command process input (err e) = ([], some (err e))
with_command process input (ok command) = then_do open_stdin (some process.stdin_pipe) (
    then_do open_stdout (some process.stdout_pipe)
      (then_do run_reader (some (ok tt)) (feed process command (to_xml process input))))

unfoldable pub execute : Env → Process → String → Input → Trace
unfolding run_program to_xml
execute env process base_dir input =
    with_command process input (determine_command_name env base_dir input)
