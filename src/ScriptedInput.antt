-- ===== src/ScriptedInput.antt =====
-- internal/scriptedinput/input.go: when the program of an input runs. The numbers are Go's int and
-- time.Duration, as bit patterns of 64 bits; strconv.Atoi is the parameter `atoi`.
pub mod Decides
pub mod Execute
pub mod Built
pub mod Reader
pub mod Loop
pub mod Disabled
use tarunner.Base.{
  ℕ, ◌-◌, ◌*◌, ◌%◌, ◌^◌, String, Bool, Option, none, some, List, [], ◌∷◌, ◌&&◌, ◌==◌, nat_eq,
  string_eq, if◌then◌else◌,
}
use tarunner.Base.Result.{Result, ok, err, ◌>>=◌, unknown_scheme}
use tarunner.Conf.Data.{Param, Params, Input}
use tarunner.Env.{Env, Url}

-- What the goroutine that `scheduleScriptedInput` starts does: there is none, it runs the program
-- again and again, or once and then again after each duration.
pub data Plan : Type 0 where
  unscheduled continuous : Plan
  every : ℕ → Plan

abbrev pub minus_one : ℕ
minus_one = 2 ^ 64 - 1

-- time.Duration(intervalS) * time.Second
unfoldable pub seconds : ℕ → ℕ
seconds interval_s = interval_s * 1_000_000_000 % 2 ^ 64

unfoldable pub is_off : Param → Bool
is_off p = p.name == "disabled" && p.value == "1"

unfoldable pub interval_after : (String → Result ℕ) → Param → ℕ → Result ℕ
interval_after atoi p interval_s = if p.name == "interval" then atoi p.value else ok interval_s

-- The loop over the parameters, from the interval so far: `none` is the early return at a
-- parameter that disables the input.
unfoldable pub scan : (String → Result ℕ) → Params → ℕ → Result (Option ℕ)
unfolding is_off interval_after
scan atoi [] interval_s = ok (some interval_s)
scan atoi (p ∷ params) interval_s = do
  next ← interval_after atoi p interval_s
  (let rest = scan atoi params next in if is_off p then ok none else rest)

unfoldable pub plan_of : Option ℕ → Plan
unfolding seconds
plan_of none = unscheduled
plan_of (some interval_s) =
    if interval_s == minus_one
    then unscheduled
    else if interval_s == 0
    then continuous
    else every (seconds interval_s)

unfoldable pub schedule_scripted_input : (String → Result ℕ) → Input → Result Plan
unfolding scan plan_of
schedule_scripted_input atoi input = do r ← scan atoi input.stanza.params 3600; ok (plan_of r)

-- `Start` gives the error of this, and drops the rest.
unfoldable pub schedule_input : Env → (String → Result ℕ) → Input → Result Plan
unfolding schedule_scripted_input
schedule_input env atoi input = do
  parsed ← env.url_parse input.stanza.name
  if parsed.scheme == "script"
      then schedule_scripted_input atoi input
      else if parsed.scheme == ""
      then schedule_scripted_input atoi input
      else err (unknown_scheme parsed.scheme)
