-- ===== src/ScriptedInput/Loop.antt =====
-- The goroutine that `scheduleScriptedInput` of internal/scriptedinput/input.go starts, beside `Stop`.
-- A program that has been started is known by its number, from 1 on. The goroutine and the two steps
-- of `Stop`, which is called once, are interleaved in any order; a select whose cases are both ready takes either, and a
-- default case is taken if no other is ready. time.After sets a new timer at each select.
pub mod Signal
pub mod Ends
use tarunner.Base.{ℕ, suc, ◌+◌, ◌^◌, ◌<◌, Bool, true, false, Option, none, some, ◌≡◌, if◌then◌else◌}
use tarunner.ScriptedInput.{Plan, unscheduled, continuous, every}

-- Where the goroutine stands: before its select, blocked in it with the timer set, in `_execute`
-- before the start of the program, behind it but before `si.command = cmd`, in `cmd.Wait`, or
-- returned.
pub data Pc : Type 0 where
  at_select blocked preparing launched running ended : Pc

pub record System : Type 0 where
  -- `Stop` has sent its signal.
  pub stopping : Bool
  -- doneChan is closed.
  pub done : Bool
  pub pc : Pc
  -- The programs started so far.
  pub launches : ℕ
  -- si.command
  pub command : Option ℕ
  -- The program that `Stop` has sent the signal to.
  pub signalled : Option ℕ

-- The goroutine of an interval runs the program before its first select.
unfoldable pub first_pc : Plan → Pc
first_pc unscheduled = ended
first_pc continuous = at_select
first_pc (every duration) = preparing

unfoldable pub begin : Plan → System
unfolding first_pc
begin plan = record {
  stopping = false;
  done = false;
  pc = first_pc plan;
  launches = 0;
  command = none;
  signalled = none;
}

-- The first half of `Stop`. The error of the signal is dropped.
unfoldable pub signal : System → System
signal s = record s { stopping = true; signalled = s.command }

-- `close` of a closed channel panics: `none`.
unfoldable pub close_done : System → Option System
close_done s = if s.done then none else some (record s { done = true })

-- A time.Duration above 0.
abbrev pub IsPositive : ℕ → Type 0
IsPositive duration = (0 < duration) × (duration < 2 ^ 63)

-- Whether the select can run the program as soon as it is entered: by its default case, or by a
-- timer that fires at once, since its duration is not above 0.
abbrev pub MayFire : Plan → Bool → Type 0
MayFire unscheduled done = ⊥
MayFire continuous done = done ≡ false
MayFire (every duration) done = ¬ (IsPositive duration)

-- Whether the select can block: it has a timer and no default case.
abbrev pub MayBlock : Plan → Type 0
MayBlock unscheduled = ⊥
MayBlock continuous = ⊥
MayBlock (every duration) = Unit

-- A goroutine that is blocked may see the timer although doneChan has been closed since.
pub data Step (plan : Plan) (s t : System) : Type 0 where
  fire : s.pc ≡ at_select → MayFire plan s.done → t ≡ record s { pc = preparing } → Step plan s t
  finish : s.pc ≡ at_select → s.done ≡ true → t ≡ record s { pc = ended } → Step plan s t
  block :
      s.pc ≡ at_select
      → MayBlock plan
      → s.done ≡ false
      → t ≡ record s { pc = blocked }
      → Step plan s t
  timer : s.pc ≡ blocked → t ≡ record s { pc = preparing } → Step plan s t
  wake : s.pc ≡ blocked → s.done ≡ true → t ≡ record s { pc = ended } → Step plan s t
  fail : s.pc ≡ preparing → t ≡ record s { pc = at_select } → Step plan s t
  launch :
      s.pc ≡ preparing → t ≡ record s { pc = launched; launches = suc s.launches } → Step plan s t
  publish :
      s.pc ≡ launched → t ≡ record s { pc = running; command = some s.launches } → Step plan s t
  exit : s.pc ≡ running → t ≡ record s { pc = at_select } → Step plan s t
  send : s.stopping ≡ false → t ≡ signal s → Step plan s t
  close : s.stopping ≡ true → close_done s ≡ some t → Step plan s t

-- A number of steps.
pub data Run (plan : Plan) (s : System) : ℕ → System → Type 0 where
  here : Run plan s 0 s
  next : {n : ℕ} {t u : System} → Run plan s n t → Step plan t u → Run plan s (suc n) u
