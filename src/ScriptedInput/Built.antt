-- ===== src/ScriptedInput/Built.antt =====
-- internal/scriptedinput/config.go and `Start` of input.go: from the configuration that a receiver
-- makes to the goroutine. `Operator` is the input operator of the stanza library, built from the
-- attributes.
use tarunner.Base.{ℕ, String, ◌≡◌, sym, ap, ◌∙◌, string_eq, arith}
use tarunner.Base.Dict.{Dict}
use tarunner.Base.Result.{Result, ok, ◌>>=◌, >>=-eq-ok, ok_inj}
use tarunner.Collector.{kind_of_scheme}
use tarunner.Conf.Data.{Input}
use tarunner.Env.{Env, Url}
use tarunner.Receiver.{Config}
use tarunner.Receiver.Kinds.{script}
use tarunner.Receiver.ScriptReceiver.{ScriptInput, input_config}
use tarunner.ScriptedInput.{schedule_input, schedule_scripted_input}
use tarunner.ScriptedInput.Loop.{System, begin}

-- doneChan and the command stand in the state of the goroutine.
pub record ScriptedInput (Operator : Type 0) : Type 0 where
  pub input_operator : Operator
  pub cfg : ScriptInput

module _ {Operator : Type 0} (build_operator : Dict String → Result Operator) where
  unfoldable pub build : ScriptInput → Result (ScriptedInput Operator)
  build c = do
    input_operator ← build_operator c.attributes
    ok (record { input_operator = input_operator; cfg = c })

-- A doneChan is made by `Build`; nothing happens to it before `Start`.
unfoldable pub start :
    {Operator : Type 0} → Env → (String → Result ℕ) → ScriptedInput Operator → Result System
unfolding schedule_input
start env atoi si = do plan ← schedule_input env atoi si.cfg.input; ok (begin plan)

-- The schemes of `createReceiver` for scripts are those of `scheduleInput`.
script_scheme :
    (env : Env) (atoi : String → Result ℕ) (input : Input) (parsed : Url)
    → env.url_parse input.stanza.name ≡ ok parsed
    → kind_of_scheme parsed.scheme ≡ ok script
    → schedule_input env atoi input ≡ schedule_scripted_input atoi input
unfolding schedule_input kind_of_scheme
script_scheme env atoi input parsed e k = ground (arith, e)

-- The operator of a receiver that `createReceiver` makes for a script starts its goroutine with the
-- plan of that receiver's own input, or fails for its interval, never for its scheme.
pub start-build :
    {Operator : Type 0} (build_operator : Dict String → Result Operator) (env : Env)
    (atoi : String → Result ℕ) (oc : ScriptInput) (rcfg : Config) (si : ScriptedInput Operator)
    (parsed : Url)
    → env.url_parse rcfg.input.stanza.name ≡ ok parsed
    → kind_of_scheme parsed.scheme ≡ ok script
    → build build_operator (input_config oc rcfg) ≡ ok si
    → start env atoi si ≡ schedule_scripted_input atoi rcfg.input >>= (λ plan. ok (begin plan))
unfolding start build input_config
start-build build_operator env atoi oc rcfg si parsed e k b =
    let (input_operator, _, made) =
      >>=-eq-ok (build_operator (input_config oc rcfg).attributes) _ b in
    let same : si.cfg.input ≡ rcfg.input = ap (λ built. built.cfg.input) (sym (ok_inj made)) in
    ap (λ i. schedule_input env atoi i >>= (λ plan. ok (begin plan))) same
    ∙ ap (λ r. r >>= (λ plan. ok (begin plan))) (script_scheme env atoi rcfg.input parsed e k)
