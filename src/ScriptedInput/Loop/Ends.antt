-- ===== src/ScriptedInput/Loop/Ends.antt =====
-- When the goroutine of a scripted input returns.
use tarunner.Base.{ℕ, zero, suc, ◌+◌, ◌≤◌, ◌≡◌, ◌⊎◌, inl, inr, refl, true, some, arith}
use tarunner.ScriptedInput.{Plan, unscheduled, continuous, every}
use tarunner.ScriptedInput.Loop.{
  Pc, IsPositive, at_select, blocked, preparing, launched, running, ended, System, signal,
  close_done, Step, fire, finish, block, timer, wake, fail, launch, publish, exit, send, close, Run,
  here, next,
}

-- How many steps the goroutine can still make.
abbrev pub rank : Pc → ℕ
rank ended = 0
rank at_select = 1
rank running = 2
rank launched = 3
rank preparing = 4
rank blocked = 5

-- How many programs it can still start.
abbrev pub pending : Pc → ℕ
pending preparing = 1
pending blocked = 1
pending _ = 0

-- Its select does not run the program at once when doneChan is closed.
abbrev pub Stops : Plan → Type 0
Stops (every duration) = IsPositive duration
Stops _ = Unit

Step-Stops :
    (plan : Plan) {s t : System}
    → Stops plan
    → Step plan s t
    → (s.stopping ≡ true) × (s.done ≡ true)
    → ((t.stopping ≡ true) × (t.done ≡ true))
      × (suc (rank t.pc) ≤ rank s.pc)
      × (t.launches + pending t.pc ≤ s.launches + pending s.pc)
unfolding signal close_done
Step-Stops unscheduled h (fire p m e) d = elim m [ ]
Step-Stops continuous h (fire p m e) d = ground arith
Step-Stops (every duration) h (fire p m e) d = absurd (m h)
Step-Stops plan h (finish p m e) d = ground arith
Step-Stops plan h (block p m c e) d = ground arith
Step-Stops plan h (timer p e) d = ground arith
Step-Stops plan h (wake p c e) d = ground arith
Step-Stops plan h (fail p e) d = ground arith
Step-Stops plan h (launch p e) d = ground arith
Step-Stops plan h (publish p e) d = ground arith
Step-Stops plan h (exit p e) d = ground arith
Step-Stops plan h (send p e) d = ground arith
Step-Stops plan h (close p e) d = ground arith

-- Once `Stop` has sent its signal and closed doneChan, the goroutine of a continuous input, or of one with a positive interval,
-- makes at most five more steps, and starts at most one more program; how many exactly, the place
-- bounds at which it stands.
pub Run-Stops :
    (plan : Plan) {s t : System} {n : ℕ}
    → Stops plan
    → Run plan s n t
    → (s.stopping ≡ true) × (s.done ≡ true)
    → ((t.stopping ≡ true) × (t.done ≡ true))
      × (n + rank t.pc ≤ rank s.pc)
      × (t.launches + pending t.pc ≤ s.launches + pending s.pc)
Run-Stops plan h here d = (d, omega arith, omega arith)
Run-Stops plan h (next r step) d =
    let (d', m, l) = Run-Stops plan h r d in
    let (d'', m', l') = Step-Stops plan h step d' in (d'', omega arith, omega arith)

-- A goroutine that has not returned has a step, once doneChan is closed: it waits for nothing
-- else than the program that runs.
abbrev NextStep : Plan → System → Type 0
NextStep plan t = (u : System) × Step plan t u

ended_or_next : (plan : Plan) (t : System) → t.done ≡ true → (t.pc ≡ ended) ⊎ NextStep plan t
ended_or_next plan t d = from t.pc refl
  where
    from : (p : Pc) → t.pc ≡ p → (t.pc ≡ ended) ⊎ NextStep plan t
    from ended e = inl e
    from at_select e = inr (record t { pc = ended }, finish e d refl)
    from blocked e = inr (record t { pc = ended }, wake e d refl)
    from preparing e = inr (record t { pc = at_select }, fail e refl)
    from launched e = inr (record t { pc = running; command = some t.launches }, publish e refl)
    from running e = inr (record t { pc = at_select }, exit e refl)

pending-bound : (p : Pc) → pending p ≤ 1
pending-bound at_select = omega arith
pending-bound blocked = omega arith
pending-bound preparing = omega arith
pending-bound launched = omega arith
pending-bound running = omega arith
pending-bound ended = omega arith

rank-bound : (p : Pc) → rank p ≤ 5
rank-bound at_select = omega arith
rank-bound blocked = omega arith
rank-bound preparing = omega arith
rank-bound launched = omega arith
rank-bound running = omega arith
rank-bound ended = omega arith

pub Run-ended :
    (plan : Plan) {s t : System} {n : ℕ}
    → Stops plan
    → Run plan s n t
    → (s.stopping ≡ true) × (s.done ≡ true)
    → ((u : System) → ¬ (Step plan t u))
    → (t.pc ≡ ended) × (n ≤ 5) × (t.launches ≤ suc s.launches)
Run-ended plan {s} {t} h r d stuck =
    let ((_, closed), steps, started) = Run-Stops plan h r d in
    let most = rank-bound s.pc in
    let one = pending-bound s.pc in
    elim (ended_or_next plan t closed) [
      | inl e ↦ (e, omega arith, omega arith)
      | inr (u, step) ↦ absurd (stuck u step)
    ]

-- One more program, from the select and back to it.
again :
    (duration : ℕ) (s : System) (n : ℕ) (t : System)
    → ¬ (IsPositive duration)
    → Run (every duration) s n t
    → t.pc ≡ at_select
    → Run
        (every duration)
        s
        (suc (suc (suc (suc n))))
        (record t { launches = suc t.launches; command = some (suc t.launches); pc = at_select })
again duration s n t h r p =
    next (next (next (next r (fire p h refl)) (launch refl refl)) (publish refl refl))
      (exit refl refl)

-- With an interval that is not above 0 the select may take the timer although doneChan is closed:
-- there are runs in which a stopped goroutine starts any number of further programs.
pub every-launches :
    (duration k : ℕ) (s : System)
    → ¬ (IsPositive duration)
    → s.done ≡ true
    → s.pc ≡ at_select
    → (n : ℕ) × (t : System) × Run (every duration) s n t
      × (t.done ≡ true)
      × (t.pc ≡ at_select)
      × (t.launches ≡ s.launches + k)
every-launches duration zero s h d p = (0, s, here, d, p, omega arith)
every-launches duration (suc k) s h d p =
    let (n, t, r, d', p', l) = every-launches duration k s h d p in
    (
      suc (suc (suc (suc n))),
      record t { launches = suc t.launches; command = some (suc t.launches); pc = at_select },
      again duration s n t h r p',
      d',
      refl,
      omega arith,
    )
