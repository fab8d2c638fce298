-- ===== src/Daemon/Watch.antt =====
-- cmd/agent/main.go: the life of one subscriber's channel, from `subscribe` to now, while the daemon
-- runs on, and what its handler has received from it.
pub mod Queue
pub mod Kept
pub mod Frames
use mathlib.Core.Path.{subst}
use edge_telemetry_daemon.Shared.{
  ℕ, zero, suc, ◌+◌, ◌-◌, ◌<◌, ◌≤◌, ◌≡◌, ◌≢◌, ◌⊎◌, inl, inr, refl, sym, ap, ◌∙◌, Bool, true, false,
  Option, none, some, List, [], ◌∷◌, ◌++◌, map, arith, length, length-append, append_assoc,
  append-nil, if_ind, Bool-cases, if◌then◌else◌, ◌==◌, ltb,
}
use edge_telemetry_daemon.Shared.Merge.{
  Merge, ends, left, right, Merge-append, Merge-left, Merge-right,
}
use edge_telemetry_daemon.Shared.Time.{Time}
use edge_telemetry_daemon.Shared.Float.{Float}
use edge_telemetry_daemon.Outbox.{Event}
use edge_telemetry_daemon.Cgroup.Discover.{Files}
use edge_telemetry_daemon.Config.{Config}
use edge_telemetry_daemon.Agent.Usage.{inject_anomaly}
use edge_telemetry_daemon.Agent.Channels.{take, send_all, send_all-take}
use edge_telemetry_daemon.Agent.Events.Ticks.{tick_events, tick-Delivered}
use edge_telemetry_daemon.Agent.{
  Agent, Channel, Host, Sources, new_agent, send, remove, subscribe, unsubscribe, tick,
}
use edge_telemetry_daemon.Daemon.{
  Daemon, looping, launch, build, receive, drop_first, broadcasting, broadcast_event, Step, ticks,
  pushes, broadcasts, resets, subscribes, receives, leaves, injects, works, cancels, stops,
  finishes, panics, returns, Reach, here, next,
}

-- The events in the channel `i`, where it is open.
unfoldable pub queue_of : ℕ → List Channel → Option (List Event)
queue_of i [] = none
queue_of i ((j, q) ∷ cs) = if i == j then some q else queue_of i cs

pub drop : ℕ → List Event → List Event
drop zero es = es
drop (suc n) [] = []
drop (suc n) (e ∷ es) = drop n es

module _ {ℓ} {F : Type ℓ} ⦃f : Float F⦄ (h : Host F) where
  -- A step that broadcasts nothing and that leaves the channel `i` to its handler.
  abbrev pub IsOther : ℕ → {d e : Daemon F} → Step h d e → Type 0
  IsOther i (ticks s now p) = Unit
  IsOther i (pushes e es p) = Unit
  IsOther i (broadcasts e es p) = ⊥
  IsOther i (resets p) = Unit
  IsOther i subscribes = Unit
  IsOther i (receives j) = i ≢ j
  IsOther i (leaves j) = i ≢ j
  IsOther i (injects p) = Unit
  IsOther i (works ps qs p mv) = Unit
  IsOther i cancels = Unit
  IsOther i (stops p looped) = Unit
  IsOther i (finishes p all) = Unit
  IsOther i (panics p) = Unit
  IsOther i (returns p rests) = Unit

  -- The handler subscribed to the channel `i` of a daemon that was at `d` at first. Since then the
  -- ticks broadcast `offered`; the handler received `received`, and `lost` came when the channel was full.
  pub data Watch (d : Daemon F) (i : ℕ)
      : Daemon F → List Event → List Event → List Event → Type ℓ where
    opens :
        {e : Daemon F}
        → Reach h d e
        → e.agent.next_channel ≡ i
        → Watch d i (record e { agent = (subscribe e.agent).1 }) [] [] []
    offers :
        {e : Daemon F} {offered received lost : List Event} (q : List Event)
        → Watch d i e offered received lost
        → queue_of i e.agent.subs ≡ some q
        → (x : Event) (xs : List Event) → e.phase ≡ broadcasting x xs
        → Watch d i
            (broadcast_event h x xs e)
            (offered ++ (x ∷ []))
            received
            (lost ++ drop (64 - length q) (x ∷ []))
    gets :
        {e : Daemon F} {offered received lost : List Event} (x : Event) (q : List Event)
        → Watch d i e offered received lost
        → queue_of i e.agent.subs ≡ some (x ∷ q)
        → Watch d i
            (record e { agent = record (e.agent) { subs = receive i e.agent.subs } })
            offered
            (received ++ (x ∷ []))
            lost
    others :
        {e e' : Daemon F} {offered received lost : List Event}
        → Watch d i e offered received lost
        → (st : Step h e e') → IsOther i st
        → Watch d i e' offered received lost
