-- ===== src/ScriptedInput/Decides.antt =====
-- What `scheduleScriptedInput` of internal/scriptedinput/input.go decides, by the parameters.
use tarunner.Base.{
  ℕ, String, ◌≡◌, refl, ap, sym, ◌∙◌, true, false, Option, none, some, [], ◌∷◌, ◌++◌, inl, inr,
  ◌==◌, nat_eq, string_eq, if◌then◌else◌, arith, eq_iff, All, Bool-cases,
}
use tarunner.Base.Result.{Error, Result, ok, err, Result-cases, ok_inj}
use tarunner.Conf.Data.{Param, Params}
use tarunner.ScriptedInput.{is_off, interval_after, scan}

-- The parameter disables the input.
abbrev pub IsOff : Param → Type 0
IsOff p = (p.name ≡ "disabled") × (p.value ≡ "1")

is_off-IsOff : (p : Param) → is_off p ≡ true → IsOff p
unfolding is_off
is_off-IsOff p h = ground (arith, eq_iff p.name "disabled", eq_iff p.value "1")

is_off-not_IsOff : (p : Param) → is_off p ≡ false → ¬ (IsOff p)
unfolding is_off
is_off-not_IsOff p h (named, one) =
    let named' = (eq_iff p.name "disabled").1 named in
    let one' = (eq_iff p.value "1").1 one in ground arith

module _ (atoi : String → Result ℕ) where
  -- The loop goes past the parameter: it is not `disabled` of value 1, and if it is an interval, it
  -- is a number.
  unfoldable pub IsPassed : Param → Type 0
  IsPassed p = (¬ (IsOff p)) × (p.name ≡ "interval" → (n : ℕ) × (atoi p.value ≡ ok n))

  -- The number of the last interval, if there is one.
  abbrev value_of : ℕ → Result ℕ → ℕ
  value_of n (err e) = n
  value_of n (ok k) = k

  unfoldable pub last_interval : ℕ → Params → ℕ
  last_interval n [] = n
  last_interval n (p ∷ params) =
      last_interval (if p.name == "interval" then value_of n (atoi p.value) else n) params

  -- What each result of the loop says of the parameters.
  unfoldable pub Decides : Params → ℕ → Result (Option ℕ) → Type 0
  Decides params n (err e) =
      (before after : Params) × (p : Param) × (params ≡ before ++ p ∷ after)
      × All IsPassed before
      × (p.name ≡ "interval")
      × (atoi p.value ≡ err e)
  Decides params n (ok none) =
      (before after : Params) × (p : Param) × (params ≡ before ++ p ∷ after)
      × All IsPassed before
      × IsOff p
  Decides params n (ok (some k)) = All IsPassed params × (k ≡ last_interval n params)

  Decides-cons :
      (p : Param) (params : Params) (n next : ℕ) (r : Result (Option ℕ))
      → IsPassed p
      → last_interval n (p ∷ params) ≡ last_interval next params
      → Decides params next r
      → Decides (p ∷ params) n r
  unfolding Decides
  Decides-cons p params n next (err e) h l (before, after, q, split, passed, i, bad) =
      (p ∷ before, after, q, ap (◌∷◌ p) split, (h, passed), i, bad)
  Decides-cons p params n next (ok none) h l (before, after, q, split, passed, off) =
      (p ∷ before, after, q, ap (◌∷◌ p) split, (h, passed), off)
  Decides-cons p params n next (ok (some k)) h l (passed, k-eq) = ((h, passed), k-eq ∙ sym l)

  -- A parameter that gives an interval is a number if it is one for the interval.
  number_of :
      (p : Param) (n next : ℕ)
      → interval_after atoi p n ≡ ok next
      → p.name ≡ "interval"
      → atoi p.value ≡ ok next
  unfolding interval_after
  number_of p n next e named = ground (arith, eq_iff p.name "interval")

  next_of :
      (p : Param) (n next : ℕ)
      → interval_after atoi p n ≡ ok next
      → (if p.name == "interval" then value_of n (atoi p.value) else n) ≡ next
  unfolding interval_after
  next_of p n next e = elim (Bool-cases (p.name == "interval")) [
    | inl named ↦ rw (named, number_of p n next e ((eq_iff p.name "interval").0 named)) refl
    | inr other ↦ rw other (ground (arith, ok_inj (rw other at e)))
  ]

  bad_number :
      (p : Param) (n : ℕ) (e : Error)
      → interval_after atoi p n ≡ err e
      → (p.name ≡ "interval") × (atoi p.value ≡ err e)
  unfolding interval_after
  bad_number p n e h = ground (arith, eq_iff p.name "interval")

  -- The result of the loop fits the parameters: an error is that of an interval, and the early
  -- return is at a parameter `disabled` of value 1, both behind parameters that are passed; else
  -- all are passed, and the interval is the last one.
  pub scan-Decides : (params : Params) (n : ℕ) → Decides params n (scan atoi params n)
  unfolding scan Decides last_interval IsPassed
  scan-Decides [] n = (tt, refl)
  scan-Decides (p ∷ params) n = elim (Result-cases (interval_after atoi p n)) [
    | inl (e, bad) ↦
        let (named, failed) = bad_number p n e bad in
        rw bad ([], params, p, refl, tt, named, failed)
    | inr (next, h) ↦ rw h (elim (Bool-cases (is_off p)) [
      | inl off ↦ rw off ([], params, p, refl, tt, is_off-IsOff p off)
      | inr on ↦ rw on (
          Decides-cons p params n next _
            (is_off-not_IsOff p on, λ named. (next, number_of p n next h named))
            (ap (λ m. last_interval m params) (next_of p n next h)) (scan-Decides params next))
    ])
  ]
