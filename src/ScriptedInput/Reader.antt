-- ===== src/ScriptedInput/Reader.antt =====
-- The goroutine of `_execute` of internal/scriptedinput/input.go that reads the output of the program.
pub mod Once
use tarunner.Base.{String, Bool, Option, none, some, List, [], ◌∷◌, ◌==◌, string_eq, if◌then◌else◌}
use tarunner.Base.Dict.{Dict}
use tarunner.Base.Result.{Error}

-- Of an entry of the stanza library, what this code sets.
pub record Entry : Type 0 where
  pub body : String
  pub attributes : Dict String

-- `Attribute` and `Write` of the input operator. The first can fail when it has set some attributes.
pub record Output : Type 0 where
  pub attribute : Entry → Entry × Option Error
  pub write : Entry → Option Error

-- One round of the loop: whether the select finds doneChan or stopRead closed, and what io.ReadAll
-- gives if it finds neither.
pub record Round : Type 0 where
  pub stopped : Bool
  pub bytes : String
  pub io_err : Option Error

pub data Event : Type 0 where
  written : Entry → Event
  error_setting_attributes error_consuming_logs : Error → Event

abbrev pub logged : (Error → Event) → Option Error → List Event → List Event
logged message none events = events
logged message (some e) events = message e ∷ events

-- The errors are logged, and change nothing else: an entry without its attributes is written too.
unfoldable pub consume : Output → String → List Event → List Event
consume output b events =
    let (e, attribute_err) = output.attribute (record { body = b; attributes = [] }) in
    logged error_setting_attributes attribute_err
      (written e ∷ logged error_consuming_logs (output.write e) events)

-- The events of the goroutine; after the last round of the list it waits in its read.
unfoldable pub read_loop : Output → List Round → List Event
unfolding consume
read_loop output [] = []
read_loop output (r ∷ rounds) =
    let rest = read_loop output rounds in
    if r.stopped
    then []
    else if r.bytes == ""
    then []
    else consume output r.bytes (elim r.io_err [ some _ ↦ [] | none ↦ rest ])
