-- ===== src/Agent/Events/Ticks.antt =====
-- The events of a whole tick.
use edge_telemetry_daemon.Shared.{◌≡◌, refl, ap, ◌∙◌, Bool, not, List, map, if_ind, if◌then◌else◌}
use edge_telemetry_daemon.Shared.Time.{Time}
use edge_telemetry_daemon.Shared.Float.{Float}
use edge_telemetry_daemon.Outbox.{Event}
use edge_telemetry_daemon.Filter.Heartbeat.{observe}
use edge_telemetry_daemon.Agent.State.{Agent, Sources, Reading}
use edge_telemetry_daemon.Agent.Usage.{collect_usage}
use edge_telemetry_daemon.Agent.Frame.{read-Untouched}
use edge_telemetry_daemon.Agent.Channels.{send_all}
use edge_telemetry_daemon.Agent.Events.{push_all, report_events, report-deliver, report-drift}
use edge_telemetry_daemon.Agent.{
  Host, count_scrape, detect, suppress, is_state, switch_quota, show_cgroup, update_cgroup,
  log_reading, act, tick, drift_is_due,
}

module _ {ℓ} {F : Type ℓ} ⦃f : Float F⦄ (h : Host F) where
  -- The state of a tick before it emits events, and whether the suppressor alerts.
  abbrev pub judged_at : Sources F → Reading F → Time → Agent F → Agent F × Bool
  judged_at s r now a =
      let (detected, is_anom) = detect r a in
      let (judged, should_alert) = suppress is_anom now detected in
      (log_reading r is_anom now (update_cgroup h s judged.supp.state judged), should_alert)

  abbrev pub tick_events : Sources F → Time → Agent F → List Event
  tick_events s now a =
      let (b, r) = collect_usage s (count_scrape now a) in
      let (logged, should_alert) = judged_at s r now b in report_events h r should_alert now logged

  -- A list of events went to the outbox and to every subscriber.
  abbrev pub Delivered : List Event → Agent F → Agent F → Type 0
  Delivered es a b =
      (b.ob ≡ push_all es a.ob)
      × (b.subs ≡ map (send_all es) a.subs)
      × (b.next_channel ≡ a.next_channel)

  Delivered-from :
      (es : List Event) (a a' b : Agent F)
      → a'.ob ≡ a.ob
      → a'.subs ≡ a.subs
      → a'.next_channel ≡ a.next_channel
      → Delivered es a' b
      → Delivered es a b
  Delivered-from es a a' b ob subs channel (p, q, r) =
      (p ∙ ap (push_all es) ob, q ∙ ap (map (send_all es)) subs, r ∙ channel)

  judged_at-same :
      (s : Sources F) (r : Reading F) (now : Time) (a : Agent F)
      → let b = (judged_at s r now a).0 in
        (b.ob ≡ a.ob) × (b.subs ≡ a.subs) × (b.next_channel ≡ a.next_channel)
  unfolding detect suppress log_reading update_cgroup show_cgroup switch_quota
  judged_at-same s r now a =
      let judged = (suppress (detect r a).1 now (detect r a).0).0 in
      if_ind
        (λ (x : Agent F). (x.ob ≡ a.ob) × (x.subs ≡ a.subs) × (x.next_channel ≡ a.next_channel))
        (not (is_state judged.supp.state judged.prev_suppressor_state)) (λ _. (refl, refl, refl))
        (λ _. (refl, refl, refl))

  -- A tick emits the alert, the drift alert and the heartbeat that its state calls for once it has read
  -- and judged, in this order and each where it could be encoded: the outbox is as after pushing them
  -- one by one, and every subscriber's channel as after sending them one by one; no channel is added.
  pub tick-Delivered :
      (s : Sources F) (now : Time) (a : Agent F)
      → Delivered (tick_events s now a) a (tick h s now a).0
  unfolding tick act
  tick-Delivered s now a =
      let read = collect_usage s (count_scrape now a) in
      let logged = judged_at s read.1 now read.0 in
      let e = read-Untouched h s now a in
      let same = judged_at-same s read.1 now read.0 in
      Delivered-from (tick_events s now a) a logged.0 (tick h s now a).0
        (same.0 ∙ ap (λ (x : Agent F). x.ob) e) (same.1 ∙ ap (λ (x : Agent F). x.subs) e)
        (same.2 ∙ ap (λ (x : Agent F). x.next_channel) e)
        (report-deliver h read.1 logged.1 now logged.0)

  -- The state in which a tick decides what it emits.
  abbrev pub seen : Sources F → Time → Agent F → Agent F
  seen s now a = let (b, r) = collect_usage s (count_scrape now a) in (judged_at s r now b).0

  -- What the alerts of drift and the heartbeats depend on, other than the detector.
  abbrev pub Held : Agent F → Agent F → Type 0
  Held a b =
      (b.prev_drifting ≡ a.prev_drifting)
      × (b.last_drift_alert ≡ a.last_drift_alert)
      × (b.supp_cfg ≡ a.supp_cfg)
      × (b.hb.window_start ≡ a.hb.window_start)
      × (b.hb.interval ≡ a.hb.interval)

  judged_at-Held :
      (s : Sources F) (r : Reading F) (now : Time) (a : Agent F) → Held a (judged_at s r now a).0
  unfolding detect suppress log_reading update_cgroup show_cgroup switch_quota observe
  judged_at-Held s r now a =
      let judged = (suppress (detect r a).1 now (detect r a).0).0 in
      if_ind (λ (x : Agent F). Held a x)
        (not (is_state judged.supp.state judged.prev_suppressor_state))
        (λ _. (refl, refl, refl, refl, refl)) (λ _. (refl, refl, refl, refl, refl))

  -- A tick has read and judged without a change to these.
  pub seen-Held : (s : Sources F) (now : Time) (a : Agent F) → Held a (seen s now a)
  seen-Held s now a =
      let read = collect_usage s (count_scrape now a) in
      let e = read-Untouched h s now a in
      let (prev, last, cfg, start, interval) = judged_at-Held s read.1 now read.0 in
      (
        prev ∙ ap (λ (x : Agent F). x.prev_drifting) e,
        last ∙ ap (λ (x : Agent F). x.last_drift_alert) e,
        cfg ∙ ap (λ (x : Agent F). x.supp_cfg) e,
        start ∙ ap (λ (x : Agent F). x.hb.window_start) e,
        interval ∙ ap (λ (x : Agent F). x.hb.interval) e,
      )

  -- What a tick leaves for the drift alerts to come.
  pub tick-drift :
      (s : Sources F) (now : Time) (a : Agent F)
      → let b = seen s now a in
        let c = (tick h s now a).0 in
        (c.prev_drifting ≡ b.det.drifting)
        × (c.last_drift_alert ≡ (if drift_is_due b now then now else a.last_drift_alert))
        × (c.supp_cfg ≡ a.supp_cfg)
  unfolding tick act
  tick-drift s now a =
      let read = collect_usage s (count_scrape now a) in
      let b = judged_at s read.1 now read.0 in
      let (prev, last, cfg) = report-drift h read.1 b.1 now b.0 in
      let held = seen-Held s now a in
      (prev, last ∙ ap (λ t. if drift_is_due b.0 now then now else t) held.1, cfg ∙ held.2)
