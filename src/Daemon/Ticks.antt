-- ===== src/Daemon/Ticks.antt =====
-- cmd/agent/main.go: the steps of a tick that nothing comes between are `tick` and the reset.
use edge_telemetry_daemon.Shared.{◌≡◌, refl, sym, ap, ap₂, ◌∙◌, List, [], ◌∷◌, map}
use edge_telemetry_daemon.Shared.Time.{Time}
use edge_telemetry_daemon.Shared.Float.{Float}
use edge_telemetry_daemon.Outbox
use edge_telemetry_daemon.Outbox.{Outbox, Event}
use edge_telemetry_daemon.Agent.Channels.{send_all, map-send_all, map-send_all-nil}
use edge_telemetry_daemon.Agent.Events.{push_all}
use edge_telemetry_daemon.Agent.Events.Ticks.{tick_events, tick-Delivered}
use edge_telemetry_daemon.Agent.Interval.{tick-Follows}
use edge_telemetry_daemon.Agent.{Agent, Channel, Host, Sources, tick}
use edge_telemetry_daemon.Daemon.{
  Daemon, looping, pushing, begin_tick, push_event, broadcast_event, reset_ticker, ticks, pushes,
  broadcasts, resets, Reach, here, next,
}

module _ {ℓ} {F : Type ℓ} ⦃f : Float F⦄ (h : Host F) where
  abbrev emitted_to : List Event → Agent F → Agent F
  emitted_to es a = record a { ob = push_all es a.ob; subs = map (send_all es) a.subs }

  -- The daemon got from `d` to the end of the events, with the agent as after all of them.
  record Emits (d : Daemon F) (es : List Event) (b : Daemon F) : Type ℓ where
    pub drained : Daemon F
    pub reach : Reach h b drained
    pub phase : drained.phase ≡ pushing []
    pub agent : drained.agent ≡ emitted_to es d.agent

  emit-Reach :
      (es : List Event) (b d : Daemon F) → Reach h b d → d.phase ≡ pushing es → Emits d es b
  unfolding push_all send_all push_event broadcast_event
  emit-Reach [] b d r p = record {
    drained = d;
    reach = r;
    phase = p;
    agent =
        ap (λ (cs : List Channel). record (d.agent) { subs = cs })
          (sym (map-send_all-nil d.agent.subs));
  }
  emit-Reach (e ∷ es) b d r p =
      let pushed = push_event h e es d in
      let sent = broadcast_event h e es pushed in
      let rest = emit-Reach es b sent (next (next r (pushes e es p)) (broadcasts e es refl)) refl in
      record {
        drained = rest.drained;
        reach = rest.reach;
        phase = rest.phase;
        agent =
            rest.agent
            ∙ ap
                (λ (cs : List Channel). record (d.agent) {
                  ob = push_all es (Outbox.push d.agent.ob e).0;
                  subs = cs;
                })
                (map-send_all e es d.agent.subs);
      }

  -- From main's loop the daemon can step through a whole tick, to the agent that `tick` gives and the
  -- ticker reset to the interval that it returns.
  tick-Reach :
      (s : Sources F) (now : Time) (d : Daemon F)
      → d.phase ≡ looping
      → (e : Daemon F) × Reach h d e
        × (e.phase ≡ looping)
        × (e.agent ≡ (tick h s now d.agent).0)
        × (e.ticker ≡ (tick h s now d.agent).1)
  unfolding begin_tick reset_ticker
  tick-Reach s now d p =
      let begun = begin_tick h s now d in
      let all = emit-Reach (tick_events h s now d.agent) d begun (next here (ticks s now p)) refl in
      let (ob, subs, channel) = tick-Delivered h s now d.agent in
      let (least, tau, cfg) = tick-Follows h s now d.agent in
      let whole : all.drained.agent ≡ (tick h s now d.agent).0 =
        all.agent
        ∙ ap₂
            (λ (o : Outbox) (cs : List Channel). record ((tick h s now d.agent).0) {
              ob = o;
              subs = cs;
            })
            (sym ob) (sym subs) in
      (
        reset_ticker h all.drained,
        next all.reach (resets all.phase),
        refl,
        whole,
        ap (λ (a : Agent F). a.tau_prev) whole ∙ tau,
      )
