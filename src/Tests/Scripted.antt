-- ===== src/Tests/Scripted.antt =====
-- A scripted input at concrete parameters: its plan, one run of its program, and its goroutine.
use tarunner.Base.{
  ℕ, suc, map, ◌+◌, ◌-◌, ◌^◌, ◌≤◌, ◌≡◌, ◌≢◌, refl, String, true, false, none, some, List, [], ◌∷◌,
  All, arith,
}
use tarunner.Base.Result.{Result, ok, err, external, ◌>>=◌}
use tarunner.Collector.{kind_of_scheme}
use tarunner.Receiver.Kinds.{script}
use tarunner.Conf.Data.{Param, Params, Input}
use tarunner.Env.{Env}
use tarunner.ScriptedInput.{
  every, is_off, interval_after, scan, seconds, plan_of, schedule_scripted_input, schedule_input,
}
use tarunner.Base.Dict.{Dict}
use tarunner.Receiver.{Config}
use tarunner.Receiver.ScriptReceiver.{ScriptInput, input_config}
use tarunner.ScriptedInput.Built.{ScriptedInput, build, start, start-build}
use tarunner.ScriptedInput.Decides.{Decides, scan-Decides}
use tarunner.ScriptedInput.Execute.{Process, execute, to_xml}
use tarunner.ScriptedInput.Execute.Below.{IsOwn, started, started-IsOwn}
use tarunner.ScriptedInput.Execute.Stages.{text_of}
use tarunner.ScriptedInput.Execute.Steps.{Reached, execute-Reached}
use tarunner.ScriptedInput.Loop.{
  IsPositive, System, at_select, preparing, launched, running, ended, begin, first_pc, close_done,
  Step, fire, finish, block, timer, wake, fail, launch, publish, exit, send, close, Run, here, next,
}
use tarunner.ScriptedInput.Loop.Ends.{rank, pending, Run-Stops, Run-ended, every-launches}
use tarunner.ScriptedInput.Loop.Signal.{signal-launched}
use tarunner.ScriptedInput.Reader.{Output, Round, read_loop}
use tarunner.ScriptedInput.Reader.Once.{
  IsReadAll, first_read, entries, attributed, read_loop-first_read,
}
use tarunner.Script.{determine_command_name}

abbrev machine : Env
machine = record {
  url_parse = λ s. ok (record { scheme = "script"; host = "."; path = "/bin/run.sh" });
  getwd = ok "/home";
  goos = "linux";
  goarch = "amd64";
  quote = λ s. s;
}

-- Every number is 60.
abbrev atoi : String → Result ℕ
atoi s = ok 60

abbrev interval : Param
interval = record { name = "interval"; value = "60" }

abbrev disabled : Param
disabled = record { name = "disabled"; value = "1" }

abbrev input : Params → Input
input params = record {
  server_host = "";
  server_uri = "";
  session_key = "";
  checkpoint_dir = "";
  stanza = record { name = "script://./bin/run.sh"; app = "tarunner"; params = params };
}

scan-Decides_example : Decides atoi (interval ∷ []) 3600 (scan atoi (interval ∷ []) 3600)
scan-Decides_example = scan-Decides atoi (interval ∷ []) 3600

scheduled : schedule_input machine atoi (input (interval ∷ [])) ≡ ok (every 60_000_000_000)
unfolding schedule_input schedule_scripted_input scan is_off interval_after plan_of seconds
scheduled = refl

abbrev receiver_config : Config
receiver_config = record {
  base_dir = "/opt/ta";
  input = input (interval ∷ []);
  transforms = [];
  props = [];
}

-- What `NewConfig` gives.
abbrev new_input : ScriptInput
new_input = record { input = input []; base_dir = ""; attributes = [] }

-- The input operator of the library is its attributes.
abbrev build_operator : Dict String → Result (Dict String)
build_operator attributes = ok attributes

abbrev scripted : ScriptedInput (Dict String)
scripted = record {
  input_operator = (input_config new_input receiver_config).attributes;
  cfg = input_config new_input receiver_config;
}

scripted-built : build build_operator (input_config new_input receiver_config) ≡ ok scripted
unfolding build
scripted-built = refl

script-kind : kind_of_scheme "script" ≡ ok script
unfolding kind_of_scheme
script-kind = refl

start-build_example :
    start machine atoi scripted
    ≡ schedule_scripted_input atoi (input (interval ∷ [])) >>= (λ plan. ok (begin plan))
start-build_example =
    start-build build_operator machine atoi new_input receiver_config scripted
      (record { scheme = "script"; host = "."; path = "/bin/run.sh" }) refl script-kind
      scripted-built

-- The program runs, and fails.
abbrev process : Process
process = record {
  stdin_pipe = ok tt;
  stdout_pipe = ok tt;
  marshal_indent = λ i. ok i.stanza.name;
  write = λ s. some (ok tt);
  close = ok tt;
  start = ok tt;
  wait = some (err (external "exit status 1"));
}

started-IsOwn_example :
    All
      (IsOwn machine "/opt/ta")
      (started (execute machine process "/opt/ta" (input (interval ∷ []))).0)
started-IsOwn_example =
    started-IsOwn machine atoi process "/opt/ta" (input (interval ∷ [])) (every 60_000_000_000)
      scheduled

-- The first program of an input has been started.
abbrev one_launched : System
one_launched = record (begin (every 60_000_000_000)) { pc = launched; launches = 1 }

to_launched : Run (every 60_000_000_000) (begin (every 60_000_000_000)) 1 one_launched
unfolding begin first_pc
to_launched = next here (launch refl refl)

signal-launched_example :
    (t : System) × Run (every 60_000_000_000) one_launched 3 t
    × (t.done ≡ true)
    × (t.pc ≡ running)
    × (t.launches ≡ 1)
    × (t.command ≡ some t.launches)
    × (t.signalled ≢ some t.launches)
unfolding begin
signal-launched_example =
    signal-launched (every 60_000_000_000) 1 one_launched to_launched refl refl refl

abbrev one_running : System
one_running = record one_launched { pc = running; command = some 1 }

-- `Stop` has returned while the program runs, and the program exits.
abbrev stopped : System
stopped = record one_running { stopping = true; done = true; signalled = some 1 }

abbrev back : System
back = record stopped { pc = at_select }

to_back : Run (every 60_000_000_000) stopped 1 back
to_back = next here (exit refl refl)

minute-IsPositive : IsPositive 60_000_000_000
minute-IsPositive = (omega arith, omega arith)

Run-Stops_example :
    ((back.stopping ≡ true) × (back.done ≡ true))
    × (1 + rank back.pc ≤ rank stopped.pc)
    × (back.launches + pending back.pc ≤ stopped.launches + pending stopped.pc)
Run-Stops_example = Run-Stops (every 60_000_000_000) minute-IsPositive to_back (refl, refl)

abbrev returned : System
returned = record back { pc = ended }

to_returned : Run (every 60_000_000_000) stopped 2 returned
to_returned = next to_back (finish refl refl refl)

-- Behind the end there is no step.
returned-is_last : (u : System) → ¬ (Step (every 60_000_000_000) returned u)
unfolding close_done
returned-is_last u (fire p m e) = cc
returned-is_last u (finish p d e) = cc
returned-is_last u (block p m c e) = cc
returned-is_last u (timer p e) = cc
returned-is_last u (wake p d e) = cc
returned-is_last u (fail p e) = cc
returned-is_last u (launch p e) = cc
returned-is_last u (publish p e) = cc
returned-is_last u (exit p e) = cc
returned-is_last u (send p e) = cc
returned-is_last u (close p e) = cc

Run-ended_example : (returned.pc ≡ ended) × (2 ≤ 5) × (returned.launches ≤ suc stopped.launches)
Run-ended_example =
    Run-ended (every 60_000_000_000) minute-IsPositive to_returned (refl, refl) returned-is_last

-- The interval -2.
backwards : ¬ (IsPositive 18_446_744_071_709_551_616)
backwards (_, h) = absurd (omega arith)

every-launches_example :
    (n : ℕ) × (t : System) × Run (every 18_446_744_071_709_551_616) back n t
    × (t.done ≡ true)
    × (t.pc ≡ at_select)
    × (t.launches ≡ back.launches + 2)
every-launches_example = every-launches 18_446_744_071_709_551_616 2 back backwards refl refl

minus_two : seconds (2 ^ 64 - 2) ≡ 18_446_744_071_709_551_616
unfolding seconds
minus_two = refl

abbrev prepared : System
prepared = begin (every 60_000_000_000)

prepared-waits : prepared.pc ≡ preparing
unfolding begin first_pc
prepared-waits = refl

execute-Reached_example :
    Reached
      (every 60_000_000_000)
      prepared
      prepared-waits
      (text_of (to_xml process (input [])))
      (text_of (determine_command_name machine "/opt/ta" (input [])))
      (execute machine process "/opt/ta" (input []))
execute-Reached_example =
    execute-Reached (every 60_000_000_000) prepared prepared-waits process (input []) machine
      "/opt/ta"

abbrev output : Output
output = record { attribute = λ e. (e, none); write = λ e. some (external "full") }

-- All output in one read, and the end.
abbrev rounds : List Round
rounds =
    record { stopped = false; bytes = "a b"; io_err = none }
    ∷ record { stopped = false; bytes = ""; io_err = none }
    ∷ []

rounds-IsReadAll : IsReadAll rounds
unfolding IsReadAll
rounds-IsReadAll = (λ e. (refl, tt), (λ e. tt, tt))

read_loop-first_read_example :
    entries (read_loop output rounds) ≡ map (attributed output) (first_read rounds)
read_loop-first_read_example = read_loop-first_read output rounds rounds-IsReadAll
