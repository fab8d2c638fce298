-- ===== src/Agent/Drift.antt =====
-- How far apart the drift alerts of a run of ticks are.
use edge_telemetry_daemon.Shared.{
  ◌≡◌, arith, refl, ap, ◌∙◌, Bool, true, false, not, ◌&&◌, ◌||◌, List, [], ◌∷◌, ◌++◌, if◌then◌else◌,
  append-nil, if_ind, Option, none, some,
}
use edge_telemetry_daemon.Shared.Int.{leb_ℤ}
use edge_telemetry_daemon.Shared.Text.{Bytes}
use edge_telemetry_daemon.Shared.Time.{Time, time_sub}
use edge_telemetry_daemon.Shared.Float.{Float}
use edge_telemetry_daemon.Outbox.{Event, EventType, no_type, anomaly_alert, drift_alert, heartbeat}
use edge_telemetry_daemon.Filter.Heartbeat.{should_flush}
use edge_telemetry_daemon.Filter.Suppressor.{SuppressorConfig}
use edge_telemetry_daemon.Agent.State.{Agent, Sources, Reading}
use edge_telemetry_daemon.Agent.Usage.{collect_usage}
use edge_telemetry_daemon.Agent.Events.{
  encoded, alert_events, drift_events, heartbeat_events, report_events,
}
use edge_telemetry_daemon.Agent.Events.Ticks.{tick_events, judged_at, seen, seen-Held, tick-drift}
use edge_telemetry_daemon.Agent.{Host, drift_is_due, count_scrape, tick}

abbrev is_drift : EventType → Bool
is_drift no_type = false
is_drift anomaly_alert = false
is_drift heartbeat = false
is_drift drift_alert = true

-- The drift alerts among some events.
abbrev pub drift_alerts : List Event → List Event
drift_alerts [] = []
drift_alerts (e ∷ es) = let rest = drift_alerts es in if is_drift e.type then e ∷ rest else rest

drift_alerts-append :
    (xs ys : List Event) → drift_alerts (xs ++ ys) ≡ drift_alerts xs ++ drift_alerts ys
drift_alerts-append [] ys = refl
drift_alerts-append (e ∷ es) ys =
    if_ind
      (λ (r : List Event).
        (if is_drift e.type then e ∷ drift_alerts (es ++ ys) else drift_alerts (es ++ ys))
        ≡ r ++ drift_alerts ys)
      (is_drift e.type) (λ hit. rw hit (ap (λ r. e ∷ r) (drift_alerts-append es ys)))
      (λ miss. rw miss (drift_alerts-append es ys))

drift_alerts-encoded :
    (bytes : Option Bytes) (id : Bytes) (t : EventType) (now : Time)
    → drift_alerts (encoded bytes id t now) ≡ (if is_drift t then encoded bytes id t now else [])
drift_alerts-encoded none id no_type now = refl
drift_alerts-encoded none id anomaly_alert now = refl
drift_alerts-encoded none id heartbeat now = refl
drift_alerts-encoded none id drift_alert now = refl
drift_alerts-encoded (some bytes) id t now = refl

-- A list that a test guards.
drift_alerts-if :
    (b : Bool) (xs ys : List Event)
    → drift_alerts xs ≡ ys
    → drift_alerts (if b then xs else []) ≡ (if b then ys else [])
drift_alerts-if true xs ys h = h
drift_alerts-if false xs ys h = refl

drift_alerts-none :
    (b : Bool) (xs : List Event) → drift_alerts xs ≡ [] → drift_alerts (if b then xs else []) ≡ []
drift_alerts-none true xs h = h
drift_alerts-none false xs h = refl

module _ {ℓ} {F : Type ℓ} ⦃f : Float F⦄ (h : Host F) where
  drift_alerts-report :
      (r : Reading F) (alert : Bool) (now : Time) (a : Agent F)
      → drift_alerts (report_events h r alert now a)
        ≡ (if drift_is_due a now then drift_events h now a else [])
  drift_alerts-report r alert now a =
      let e1 = if alert then alert_events h r now a else [] in
      let e2 = if drift_is_due a now then drift_events h now a else [] in
      let e3 = if should_flush a.hb now then heartbeat_events h now a else [] in
      let n1 : drift_alerts e1 ≡ [] =
        drift_alerts-none alert _ (drift_alerts-encoded _ _ anomaly_alert now) in
      let n2 : drift_alerts e2 ≡ e2 =
        drift_alerts-if (drift_is_due a now) _ _ (drift_alerts-encoded _ _ drift_alert now) in
      let n3 : drift_alerts e3 ≡ [] =
        drift_alerts-none (should_flush a.hb now) _ (drift_alerts-encoded _ _ heartbeat now) in
      drift_alerts-append (e1 ++ e2) e3
      ∙ ap (λ xs. xs ++ drift_alerts e3) (drift_alerts-append e1 e2)
      ∙ ap (λ xs. (xs ++ drift_alerts e2) ++ drift_alerts e3) n1
      ∙ ap (λ xs. xs ++ drift_alerts e3) n2
      ∙ ap (λ xs. e2 ++ xs) n3
      ∙ append-nil e2

  drift_alerts-tick :
      (s : Sources F) (now : Time) (a : Agent F)
      → drift_alerts (tick_events h s now a)
        ≡ (if drift_is_due (seen h s now a) now then drift_events h now (seen h s now a) else [])
  drift_alerts-tick s now a =
      let read = collect_usage s (count_scrape now a) in
      let b = judged_at h s read.1 now read.0 in drift_alerts-report read.1 b.1 now b.0

  -- The ticks of a run.
  abbrev pub tick_all : List (Sources F × Time) → Agent F → Agent F
  tick_all [] a = a
  tick_all ((s, now) ∷ rs) a = tick_all rs (tick h s now a).0

  -- The drift alerts of a run.
  abbrev pub drift_alerts_of : List (Sources F × Time) → Agent F → List Event
  drift_alerts_of [] a = []
  drift_alerts_of ((s, now) ∷ rs) a =
      drift_alerts (tick_events h s now a) ++ drift_alerts_of rs (tick h s now a).0

  -- The detector finds drift at each tick, and each comes before the holdoff from `t` is over.
  abbrev pub AllWithin : SuppressorConfig → Time → List (Sources F × Time) → Agent F → Type 0
  AllWithin c t [] a = Unit
  AllWithin c t ((s, now) ∷ rs) a =
      ((seen h s now a).det.drifting ≡ true)
      × (leb_ℤ c.holdoff_duration (time_sub now t) ≡ false)
      × AllWithin c t rs (tick h s now a).0

  -- The last tick found drift, and the last alert is that of `t`.
  abbrev Alerted : SuppressorConfig → Time → Agent F → Type 0
  Alerted c t a = (a.prev_drifting ≡ true) × (a.last_drift_alert ≡ t) × (a.supp_cfg ≡ c)

  due_after :
      (c : SuppressorConfig) (t : Time) (a : Agent F) (s : Sources F) (now : Time)
      → Alerted c t a
      → (seen h s now a).det.drifting ≡ true
      → drift_is_due (seen h s now a) now ≡ leb_ℤ c.holdoff_duration (time_sub now t)
  unfolding drift_is_due
  due_after c t a s now (prev, last, cfg) on =
      let b = seen h s now a in
      let held = seen-Held h s now a in
      ap
        (λ x.
          x
          && (not b.prev_drifting
              || leb_ℤ b.supp_cfg.holdoff_duration (time_sub now b.last_drift_alert)))
        on
      ∙ ap (λ x. not x || leb_ℤ b.supp_cfg.holdoff_duration (time_sub now b.last_drift_alert))
          (held.0 ∙ prev)
      ∙ ap (λ x. leb_ℤ b.supp_cfg.holdoff_duration (time_sub now x)) (held.1 ∙ last)
      ∙ ap (λ (x : SuppressorConfig). leb_ℤ x.holdoff_duration (time_sub now t)) (held.2 ∙ cfg)

  tick-Alerted :
      (c : SuppressorConfig) (t : Time) (a : Agent F) (s : Sources F) (now : Time)
      → Alerted c t a
      → (seen h s now a).det.drifting ≡ true
      → leb_ℤ c.holdoff_duration (time_sub now t) ≡ false
      → Alerted c t (tick h s now a).0 × (drift_alerts (tick_events h s now a) ≡ [])
  tick-Alerted c t a s now q on early =
      let b = seen h s now a in
      let (prev, last, cfg) = tick-drift h s now a in
      let quiet = due_after c t a s now q on ∙ early in
      (
        (prev ∙ on, last ∙ ap (λ x. if x then now else a.last_drift_alert) quiet ∙ q.1, cfg ∙ q.2),
        drift_alerts-tick s now a ∙ ap (λ x. if x then drift_events h now b else []) quiet,
      )

  tick_all-Alerted :
      (c : SuppressorConfig) (t : Time) (rs : List (Sources F × Time)) (a : Agent F)
      → Alerted c t a
      → AllWithin c t rs a
      → Alerted c t (tick_all rs a) × (drift_alerts_of rs a ≡ [])
  tick_all-Alerted c t [] a q w = (q, refl)
  tick_all-Alerted c t ((s, now) ∷ rs) a q (on, early, w) =
      let (next, none_now) = tick-Alerted c t a s now q on early in
      let (last, none_later) = tick_all-Alerted c t rs (tick h s now a).0 next w in
      (last, ap (λ xs. xs ++ drift_alerts_of rs (tick h s now a).0) none_now ∙ none_later)

  due-drifting : (a : Agent F) (now : Time) → drift_is_due a now ≡ true → a.det.drifting ≡ true
  unfolding drift_is_due
  due-drifting a now due = ground arith

  -- After a tick at a time `t` at which a drift alert is due, ticks at which the detector finds drift and
  -- that come before the holdoff from `t` is over emit no drift alert; and the next tick at which it finds
  -- drift emits one if the holdoff from `t` is over, where it could be encoded, and none otherwise.
  pub drifts-holdoff :
      (a : Agent F) (s : Sources F) (t : Time) (rs : List (Sources F × Time)) (s' : Sources F)
      (now : Time)
      → drift_is_due (seen h s t a) t ≡ true
      → AllWithin a.supp_cfg t rs (tick h s t a).0
      → (seen h s' now (tick_all rs (tick h s t a).0)).det.drifting ≡ true
      → let b = tick_all rs (tick h s t a).0 in
        (drift_alerts_of rs (tick h s t a).0 ≡ [])
        × (drift_alerts (tick_events h s' now b) ≡ (
            if leb_ℤ a.supp_cfg.holdoff_duration (time_sub now t)
            then drift_events h now (seen h s' now b)
            else []))
  drifts-holdoff a s t rs s' now due within on =
      let (prev, last, cfg) = tick-drift h s t a in
      let first : Alerted a.supp_cfg t (tick h s t a).0 = (
        prev ∙ due-drifting (seen h s t a) t due,
        last ∙ ap (λ x. if x then t else a.last_drift_alert) due,
        cfg,
      ) in
      let (after, silent) = tick_all-Alerted a.supp_cfg t rs (tick h s t a).0 first within in
      let b = tick_all rs (tick h s t a).0 in
      (
        silent,
        drift_alerts-tick s' now b
            ∙ ap (λ x. if x then drift_events h now (seen h s' now b) else [])
                (due_after a.supp_cfg t b s' now after on),
      )
