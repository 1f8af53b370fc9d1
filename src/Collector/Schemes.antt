-- ===== src/Collector/Schemes.antt =====
-- `createReceiver` of internal/collector/collector.go and the schemes that url.Parse can give.
use tarunner.Base.{String, ◌≡◌, ◌≢◌, refl, sym, ap, ◌∙◌, List, arith, string_eq, eq_iff, inl, inr}
use tarunner.Base.Result.{Result, ok, Result-cases}
use tarunner.Collector.{Platform, kind_of_scheme, create_logs, create_receiver}
use tarunner.Conf.Data.{Input, Transform, Prop}
use tarunner.Conf.Props.{Text}
use tarunner.Env.{Env, Url}
use tarunner.Ini.{Load}
use tarunner.Receiver.{Config}
use tarunner.Receiver.Kinds.{Kind, monitor, script, win_event_log, tcp, udp}

-- What net/url documents: `to_lower` is strings.ToLower, and the scheme of a parsed URL is in lower
-- case.
pub record IsLowered (to_lower : String → String) (env : Env) : Type 0 where
  pub event_log : to_lower "WinEventLog" ≡ "wineventlog"
  pub scheme :
      (name : String) (parsed : Url)
      → env.url_parse name ≡ ok parsed
      → to_lower parsed.scheme ≡ parsed.scheme

event_log_scheme :
    (scheme : String) → kind_of_scheme scheme ≡ ok win_event_log → scheme ≡ "WinEventLog"
unfolding kind_of_scheme
event_log_scheme scheme e = ground (arith, eq_iff scheme "WinEventLog")

no_event_log :
    (to_lower : String → String) (env : Env) (name : String) (parsed : Url)
    → IsLowered to_lower env
    → env.url_parse name ≡ ok parsed
    → kind_of_scheme parsed.scheme ≢ ok win_event_log
no_event_log to_lower env name parsed l e k =
    let same : parsed.scheme ≡ "WinEventLog" = event_log_scheme parsed.scheme k in
    let lower : to_lower "WinEventLog" ≡ "WinEventLog" = rw same at (l.scheme name parsed e) in
    cc ((eq_iff "WinEventLog" "wineventlog").1 (sym lower ∙ l.event_log))

module _ {Logs : Type 0} where
  -- The platform with another factory for the event log.
  abbrev pub other_factory :
      (String → Config → Result Logs) → Kind → String → Config → Result Logs → Result Logs
  other_factory f win_event_log name cfg r = f name cfg
  other_factory f _ name cfg r = r

  abbrev pub with_event_log : (String → Config → Result Logs) → Platform Logs → Platform Logs
  with_event_log f platform = record platform {
    create_logs =
        λ kind name cfg. other_factory f kind name cfg (platform.create_logs kind name cfg);
  }

  same_logs :
      (env : Env) (platform : Platform Logs) (text : Text) (load : Load)
      (f g : String → Config → Result Logs) (kind : Kind) (name : String) (cfg : Config)
      → kind ≢ win_event_log
      → create_logs env (with_event_log f platform) text load kind name cfg
        ≡ create_logs env (with_event_log g platform) text load kind name cfg
  unfolding create_logs
  same_logs env platform text load f g win_event_log name cfg h = absurd (h refl)
  same_logs env platform text load f g monitor name cfg h = refl
  same_logs env platform text load f g script name cfg h = refl
  same_logs env platform text load f g tcp name cfg h = refl
  same_logs env platform text load f g udp name cfg h = refl

  -- As url.Parse gives schemes in lower case, `createReceiver` never comes to the factory of the
  -- event log: whatever that factory makes, the result is the same.
  pub create_receiver-with_event_log :
      (to_lower : String → String) (env : Env) (platform : Platform Logs) (text : Text)
      (load : Load) (f g : String → Config → Result Logs) (base_dir : String)
      (transforms : List Transform) (props : List Prop) (input : Input)
      → IsLowered to_lower env
      → create_receiver env (with_event_log f platform) text load base_dir transforms props input
        ≡ create_receiver env (with_event_log g platform) text load base_dir transforms props input
  unfolding create_receiver
  create_receiver-with_event_log to_lower env platform text load f g base_dir transforms props input
        l =
      elim (Result-cases (env.url_parse input.stanza.name)) [
        | inl (e, failed) ↦ rw (create_receiver, failed) refl
        | inr (parsed, found) ↦ elim (Result-cases (kind_of_scheme parsed.scheme)) [
          | inl (e, failed) ↦ rw (create_receiver, found, failed) refl
          | inr (kind, chosen) ↦
              rw (create_receiver, found, chosen)
                (same_logs env platform text load f g kind parsed.path _ (λ k.
                  no_event_log to_lower env input.stanza.name parsed l found (chosen ∙ ap ok k)))
        ]
      ]
