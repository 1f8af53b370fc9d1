-- ===== src/ScriptedInput/Loop/Signal.antt =====
-- Which program the signal of `Stop` goes to.
use tarunner.Base.{ℕ, ◌≤◌, ◌≡◌, ◌≢◌, refl, true, false, Option, none, some, arith}
use tarunner.ScriptedInput.{Plan}
use tarunner.ScriptedInput.Loop.{
  launched, running, System, first_pc, begin, signal, close_done, Step, fire, finish, block, timer,
  wake, fail, launch, publish, exit, send, close, Run, here, next,
}

-- The numbers that si.command can hold.
abbrev pub IsBounded : Option ℕ → ℕ → Type 0
IsBounded none n = Unit
IsBounded (some k) n = k ≤ n

pub record IsTracked (s : System) : Type 0 where
  pub bounded : IsBounded s.command s.launches
  -- In `cmd.Wait` the command is the program that runs.
  pub current : s.pc ≡ running → s.command ≡ some s.launches
  -- Before its publication it is another.
  pub stale : s.pc ≡ launched → s.command ≢ some s.launches

begin-IsTracked : (plan : Plan) → IsTracked (begin plan)
unfolding begin first_pc
begin-IsTracked plan = ground arith

Step-IsTracked : (plan : Plan) {s t : System} → Step plan s t → IsTracked s → IsTracked t
unfolding signal close_done
Step-IsTracked plan (fire p m e) v = ground arith
Step-IsTracked plan (finish p d e) v = ground arith
Step-IsTracked plan (block p m d e) v = ground arith
Step-IsTracked plan (timer p e) v = ground arith
Step-IsTracked plan (wake p d e) v = ground arith
Step-IsTracked plan (fail p e) v = ground arith
Step-IsTracked plan (launch p e) v = ground arith
Step-IsTracked plan (publish p e) v = ground arith
Step-IsTracked plan (exit p e) v = ground arith
Step-IsTracked plan (send p e) v = ground arith
Step-IsTracked plan (close p e) v = ground arith

Run-IsTracked : (plan : Plan) {s t : System} {n : ℕ} → Run plan s n t → IsTracked s → IsTracked t
Run-IsTracked plan here v = v
Run-IsTracked plan (next r step) v = Step-IsTracked plan step (Run-IsTracked plan r v)

-- The signal that `Stop` sends while the goroutine waits for a program goes to that program.
signal-running :
    (plan : Plan) (n : ℕ) (s : System)
    → Run plan (begin plan) n s
    → s.pc ≡ running
    → (signal s).signalled ≡ some s.launches
unfolding signal
signal-running plan n s r p = (Run-IsTracked plan r (begin-IsTracked plan)).current p

close_done_lem : (s : System) → s.done ≡ false → close_done s ≡ some (record s { done = true })
unfolding close_done
close_done_lem s d = rw d refl

-- A `Stop` between the start of a program and `si.command = cmd` does not signal that program:
-- the goroutine can go on to wait for it, with doneChan closed, while no signal has gone to it.
pub signal-launched :
    (plan : Plan) (n : ℕ) (s : System)
    → Run plan (begin plan) n s
    → s.pc ≡ launched
    → s.stopping ≡ false
    → s.done ≡ false
    → (t : System) × Run plan s 3 t
      × (t.done ≡ true)
      × (t.pc ≡ running)
      × (t.launches ≡ s.launches)
      × (t.command ≡ some t.launches)
      × (t.signalled ≢ some t.launches)
unfolding signal
signal-launched plan n s r p open_ d =
    let v = Run-IsTracked plan r (begin-IsTracked plan) in
    let t = record s {
      stopping = true;
      done = true;
      signalled = s.command;
      pc = running;
      command = some s.launches;
    } in
    (
      t,
      next (next (next here (send open_ refl)) (publish p refl)) (close refl (close_done_lem _ d)),
      refl,
      refl,
      refl,
      refl,
      v.stale p,
    )
