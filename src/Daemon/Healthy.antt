-- ===== src/Daemon/Healthy.antt =====
-- cmd/agent/main.go: the agent under ticks and subscribers, its channels and its interval.
use mathlib.Core.Path.{subst}
use edge_telemetry_daemon.Shared.{
  ℕ, ◌≤◌, sym, Bool, List, [], ◌∷◌, ◌++◌, map, length, length-append, arith, if_ind, ltb, ◌==◌,
}
use edge_telemetry_daemon.Shared.Int.{◌≤ℤ◌}
use edge_telemetry_daemon.Shared.Time.{Time}
use edge_telemetry_daemon.Shared.Float.{Float}
use edge_telemetry_daemon.Outbox.{Outbox, Event}
use edge_telemetry_daemon.Outbox.Inv.{IsValid, new_outbox-IsValid}
use edge_telemetry_daemon.Cgroup.Discover.{Files}
use edge_telemetry_daemon.Config.{Config}
use edge_telemetry_daemon.Agent.Interval.{tick-Follows}
use edge_telemetry_daemon.Agent.{Agent, Channel, send, remove, Host, new_agent, tick, Sources}
use edge_telemetry_daemon.Daemon.{outbox_config, drop_first, receive, build}

-- No channel's buffer of 64 events is overrun.
abbrev pub AllWithin : List Channel → Type 0
AllWithin [] = Unit
AllWithin ((i, q) ∷ cs) = (length q ≤ 64) × AllWithin cs

abbrev Within : Channel → Type 0
Within (i, q) = length q ≤ 64

send-Within : (e : Event) (c : Channel) → Within c → Within (send e c)
unfolding send
send-Within e (i, q) le =
    if_ind (λ (c : Channel). Within c) (ltb (length q) 64)
      (λ room. ground (arith, length-append q (e ∷ []))) (λ _. le)

pub send-AllWithin : (e : Event) (cs : List Channel) → AllWithin cs → AllWithin (map (send e) cs)
send-AllWithin e [] h = tt
send-AllWithin e (c ∷ cs) (s, h) = (send-Within e c s, send-AllWithin e cs h)

pub remove-Within : (i : ℕ) (cs : List Channel) → AllWithin cs → AllWithin (remove i cs)
unfolding remove
remove-Within i [] h = tt
remove-Within i ((j, q) ∷ cs) (s, h) =
    if_ind (λ (xs : List Channel). AllWithin xs) (i == j) (λ _. h) (λ _. (s, remove-Within i cs h))

drop_first-le : (q : List Event) → length (drop_first q) ≤ length q
unfolding drop_first
drop_first-le [] = omega arith
drop_first-le (e ∷ q) = omega arith

pub receive-Within : (i : ℕ) (cs : List Channel) → AllWithin cs → AllWithin (receive i cs)
unfolding receive
receive-Within i [] h = tt
receive-Within i ((j, q) ∷ cs) (le, h) =
    if_ind (λ (xs : List Channel). AllWithin xs) (i == j) (λ _. (omega (arith, drop_first-le q), h))
      (λ _. (le, receive-Within i cs h))

pub subscribe-Within : (n : ℕ) (cs : List Channel) → AllWithin cs → AllWithin (cs ++ ((n, []) ∷ []))
subscribe-Within n [] h = (omega arith, tt)
subscribe-Within n (c ∷ cs) (le, h) = (le, subscribe-Within n cs h)

module _ {ℓ} {F : Type ℓ} ⦃f : Float F⦄ (h : Host F) where
  -- The outbox is well formed, no channel is overrun, and the interval is no shorter than the least.
  pub record Healthy (a : Agent F) : Type ℓ where
    pub outbox : IsValid a.ob
    pub channels : AllWithin a.subs
    pub interval : a.cfg.rate_tau_min ≤ℤ a.tau_prev

  pub build-Healthy :
      (fs : Files) (cfg : Config F) (now : Time) (ok : Bool)
      → cfg.rate_tau_min ≤ℤ cfg.rate_tau_max
      → Healthy (build h fs cfg now ok)
  unfolding build new_agent
  build-Healthy fs cfg now ok le = record {
    outbox = new_outbox-IsValid outbox_config (ground arith);
    channels = tt;
    interval = le;
  }

  pub with_outbox :
      (a : Agent F) (o : Outbox) → Healthy a → IsValid o → Healthy (record a { ob = o })
  with_outbox a o ok v = record { outbox = v; channels = ok.channels; interval = ok.interval }

  pub with_subs :
      (a : Agent F) (cs : List Channel) (n : ℕ)
      → Healthy a
      → AllWithin cs
      → Healthy (record a { subs = cs; next_channel = n })
  with_subs a cs n ok w = record { outbox = ok.outbox; channels = w; interval = ok.interval }

  -- The part of a tick before its events.
  pub tick-Healthy :
      (a : Agent F) (s : Sources F) (now : Time)
      → Healthy a
      → Healthy (record ((tick h s now a).0) { ob = a.ob; subs = a.subs })
  tick-Healthy a s now ok =
      let (least, tau, cfg) = tick-Follows h s now a in
      record {
        outbox = ok.outbox;
        channels = ok.channels;
        interval =
            subst (λ (c : Config F). c.rate_tau_min ≤ℤ (tick h s now a).0.tau_prev) (sym cfg)
              (subst (λ t. a.cfg.rate_tau_min ≤ℤ t) (sym tau) least.0);
      }
