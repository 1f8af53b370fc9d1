-- ===== src/ScriptedInput/Disabled.antt =====
-- The two tests for `disabled`: that of `createReceivers` of internal/collector/collector.go and
-- that of `scheduleScriptedInput` of internal/scriptedinput/input.go; and the range of an interval.
use tarunner.Base.{
  ℕ, ◌*◌, ◌≤◌, ◌<◌, ◌≡◌, sym, String, true, Option, none, some, List, [], ◌∷◌, ◌++◌, arith, eq_iff,
  All, string_eq, nat_eq, Option-cases, inl, inr,
}
use tarunner.Base.Result.{Result, ok, >>=-eq-ok, ok_inj}
use tarunner.Collector.{is_disabled}
use tarunner.Conf.Data.{Param, Params, Input}
use tarunner.Conf.Params.{get, get_lem}
use tarunner.ScriptedInput.{Plan, unscheduled, seconds, scan, plan_of, schedule_scripted_input}
use tarunner.ScriptedInput.Decides.{IsOff, IsPassed, Decides, scan-Decides}
use tarunner.ScriptedInput.Loop.{IsPositive}

All-middle {ℓ κ} :
    {A : Type ℓ} (P : A → Type κ) (before after : List A) (x : A)
    → All P (before ++ x ∷ after)
    → P x
All-middle P [] after x (h, _) = h
All-middle P (y ∷ before) after x (_, hs) = All-middle P before after x hs

-- The parameter that disables the input is not passed.
is_disabled-IsOff :
    (input : Input)
    → is_disabled input ≡ true
    → (before after : Params) × (p : Param) × (input.stanza.params ≡ before ++ p ∷ after) × IsOff p
unfolding is_disabled
is_disabled-IsOff input h = elim (Option-cases (get input.stanza.params "disabled")) [
  | inl missing ↦ cc (rw (is_disabled, missing) at h)
  | inr (p, found) ↦
      let (before, after, split, named, _) = get_lem input.stanza.params "disabled" p found in
      (before, after, p, split, (named, (eq_iff p.value "1").0 (rw (is_disabled, found) at h)))
]

-- An input for which `createReceivers` makes no receiver would not be scheduled either: whatever its
-- other parameters are, the result is an error or no plan.
schedule-is_disabled :
    (atoi : String → Result ℕ) (input : Input) (plan : Plan)
    → is_disabled input ≡ true
    → schedule_scripted_input atoi input ≡ ok plan
    → plan ≡ unscheduled
unfolding schedule_scripted_input plan_of Decides IsPassed
schedule-is_disabled atoi input plan h e =
    let (r, scanned, planned) = >>=-eq-ok (scan atoi input.stanza.params 3600) _ e in
    let fits = scan-Decides atoi input.stanza.params 3600 in
    from r (rw scanned at fits) (ok_inj planned)
  where
    from :
        (r : Option ℕ)
        → Decides atoi input.stanza.params 3600 (ok r)
        → plan_of r ≡ plan
        → plan ≡ unscheduled
    from none d p = sym p
    from (some n) (passed, _) p =
        let (before, after, q, split, off) = is_disabled-IsOff input h in
        absurd ((All-middle (IsPassed atoi) before after q (rw split at passed)).0 off)

-- An interval of at most 9,223,372,036 seconds, about 292 years, is a positive duration of that
-- many nanoseconds.
seconds-IsPositive :
    (interval_s : ℕ)
    → 0 < interval_s
    → interval_s ≤ 9_223_372_036
    → (seconds interval_s ≡ interval_s * 1_000_000_000) × IsPositive (seconds interval_s)
unfolding seconds
seconds-IsPositive interval_s l u = ground arith
