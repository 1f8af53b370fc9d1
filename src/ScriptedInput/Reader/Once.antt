-- ===== src/ScriptedInput/Reader/Once.antt =====
-- How many entries one run of a program gives.
use tarunner.Base.{
  String, ◌≡◌, refl, ap, ◌∙◌, inl, inr, Option, none, some, List, [], ◌∷◌, map, All, ◌==◌,
  string_eq, if◌then◌else◌, Bool-cases, Option-cases,
}
use tarunner.Base.Result.{Error}
use tarunner.ScriptedInput.Reader.{
  Entry, Output, Round, Event, written, error_setting_attributes, error_consuming_logs, logged,
  consume, read_loop,
}

-- io.ReadAll without an error has come to the end of the output, and later reads are empty.
unfoldable pub IsReadAll : List Round → Type 0
IsReadAll [] = Unit
IsReadAll (r ∷ rounds) =
    (r.io_err ≡ none → All (λ (q : Round). q.bytes ≡ "") rounds) × IsReadAll rounds

-- What the first round reads, if it finds the channels open and the read gives something.
abbrev pub first_read : List Round → List String
first_read [] = []
first_read (r ∷ rounds) = if r.stopped then [] else if r.bytes == "" then [] else r.bytes ∷ []

-- The entries that are written.
abbrev pub entries : List Event → List Entry
entries [] = []
entries (written e ∷ events) = e ∷ entries events
entries (error_setting_attributes e ∷ events) = entries events
entries (error_consuming_logs e ∷ events) = entries events

-- The entry of a body, as `Attribute` leaves it, whether it fails or not.
abbrev pub attributed : Output → String → Entry
attributed output b = (output.attribute (record { body = b; attributes = [] })).0

read_loop-empty :
    (output : Output) (rounds : List Round)
    → All (λ (q : Round). q.bytes ≡ "") rounds
    → read_loop output rounds ≡ []
unfolding read_loop
read_loop-empty output [] h = refl
read_loop-empty output (r ∷ rounds) (h, hs) = elim (Bool-cases r.stopped) [
  | inl stopped ↦ rw (read_loop, stopped) refl
  | inr open_ ↦ rw (read_loop, open_, h) refl
]

entries-logged :
    (message : Error → Event) (failure : Option Error) (events : List Event)
    → ((e : Error) → entries (message e ∷ events) ≡ entries events)
    → entries (logged message failure events) ≡ entries events
entries-logged message none events h = refl
entries-logged message (some e) events h = h e

entries-consume :
    (output : Output) (b : String) (events : List Event)
    → entries (consume output b events) ≡ attributed output b ∷ entries events
unfolding consume
entries-consume output b events =
    entries-logged error_setting_attributes
      (output.attribute (record { body = b; attributes = [] })).1 _ (λ e. refl)
    ∙ ap (◌∷◌ (attributed output b)) (
        entries-logged error_consuming_logs (output.write (attributed output b)) events (λ e. refl))

-- Of one run at most one entry is written: all that the first read gives, with the attributes of the
-- input, whether or not they or the write fail. There is none when a channel is closed before that
-- read, or when it gives nothing.
pub read_loop-first_read :
    (output : Output) (rounds : List Round)
    → IsReadAll rounds
    → entries (read_loop output rounds) ≡ map (attributed output) (first_read rounds)
unfolding read_loop IsReadAll
read_loop-first_read output [] h = refl
read_loop-first_read output (r ∷ rounds) (ends, _) = elim (Bool-cases r.stopped) [
  | inl stopped ↦ rw (read_loop, stopped) refl
  | inr open_ ↦ elim (Bool-cases (r.bytes == "")) [
    | inl nothing ↦ rw (read_loop, open_, nothing) refl
    | inr some_bytes ↦ elim (Option-cases r.io_err) [
      | inl no_err ↦
          rw (read_loop, open_, some_bytes, no_err, read_loop-empty output rounds (ends no_err))
            (entries-consume output r.bytes [])
      | inr (e, failed) ↦
          rw (read_loop, open_, some_bytes, failed) (entries-consume output r.bytes [])
    ]
  ]
]
