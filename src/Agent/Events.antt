-- ===== src/Agent/Events.antt =====
-- The events that a tick emits.
pub mod Ticks
use edge_telemetry_daemon.Shared.{
  ◌≡◌, refl, sym, ap, ◌∙◌, Bool, not, Option, none, some, map, List, [], ◌∷◌, ◌++◌, if◌then◌else◌,
  inc64, true, false,
}
use edge_telemetry_daemon.Shared.Time.{Time}
use edge_telemetry_daemon.Shared.Text.{Bytes, codes}
use edge_telemetry_daemon.Shared.Float.{Float}
use edge_telemetry_daemon.Outbox
use edge_telemetry_daemon.Outbox.{Outbox, Event, EventType, anomaly_alert, drift_alert, heartbeat}
use edge_telemetry_daemon.Filter.Heartbeat.{should_flush, flush}
use edge_telemetry_daemon.Filter.RingBuffer.{snapshot}
use edge_telemetry_daemon.Engine.Stats.{mean_of}
use edge_telemetry_daemon.Agent.State.{Agent, Channel, send}
use edge_telemetry_daemon.Agent.Channels.{send_all, map-send_all, map-send_all-nil}
use edge_telemetry_daemon.Agent.{
  Host, Reading, AnomalyPayload, zero_entry, emit_event, emit_encoded, emit_anomaly_alert,
  drift_is_due, handle_drift, flush_heartbeat, report,
}

-- Pushes, whatever they return.
unfoldable pub push_all : List Event → Outbox → Outbox
push_all [] o = o
push_all (e ∷ es) o = push_all es (Outbox.push o e).0

-- The event of an encoding, if there is one.
abbrev pub encoded : Option Bytes → Bytes → EventType → Time → List Event
encoded none id t now = []
encoded (some bytes) id t now = record { id = id; type = t; timestamp = now; payload = bytes } ∷ []

push_all-append :
    (xs ys : List Event) (o : Outbox) → push_all (xs ++ ys) o ≡ push_all ys (push_all xs o)
unfolding push_all
push_all-append [] ys o = refl
push_all-append (x ∷ xs) ys o = push_all-append xs ys (Outbox.push o x).0

map-send_all-append :
    (xs ys : List Event) (cs : List Channel)
    → map (send_all (xs ++ ys)) cs ≡ map (send_all ys) (map (send_all xs) cs)
map-send_all-append [] ys cs = ap (map (send_all ys)) (sym (map-send_all-nil cs))
map-send_all-append (x ∷ xs) ys cs =
    sym (map-send_all x (xs ++ ys) cs)
    ∙ map-send_all-append xs ys (map (send x) cs)
    ∙ ap (map (send_all ys)) (map-send_all x xs cs)

module _ {ℓ} {F : Type ℓ} ⦃f : Float F⦄ (h : Host F) where
  -- The events go to the outbox and to every subscriber.
  abbrev pub deliver : List Event → Agent F → Agent F
  deliver es a = record a { ob = push_all es a.ob; subs = map (send_all es) a.subs }

  pub deliver-nil : (a : Agent F) → a ≡ deliver [] a
  unfolding push_all
  deliver-nil a = ap (λ (cs : List Channel). record a { subs = cs }) (sym (map-send_all-nil a.subs))

  emit_encoded-deliver :
      (a : Agent F) (bytes : Option Bytes) (id : Bytes) (t : EventType) (now : Time)
      → emit_encoded a bytes id t now ≡ deliver (encoded bytes id t now) a
  unfolding emit_encoded emit_event push_all
  emit_encoded-deliver a none id t now =
      ap (λ (cs : List Channel). record a { subs = cs }) (sym (map-send_all-nil a.subs))
  emit_encoded-deliver a (some bytes) id t now =
      let evt : Event = record { id = id; type = t; timestamp = now; payload = bytes } in
      ap (λ (cs : List Channel). record a { ob = (Outbox.push a.ob evt).0; subs = cs })
        (sym (map-send_all-nil (map (send evt) a.subs)) ∙ map-send_all evt [] a.subs)

  abbrev pub alert_events : Reading F → Time → Agent F → List Event
  alert_events r now a =
      let payload : AnomalyPayload F = record {
        timestamp = now;
        cpu = r.cpu_pct;
        memory = r.mem_pct;
        baseline_cpu = mean_of a.det.cpu_stats;
        baseline_mem = mean_of a.det.mem_stats;
        z_score = a.det.zscore;
        threshold = a.det.threshold;
        pre_context = snapshot zero_entry a.ring_buf;
      } in
      encoded (h.marshal_anomaly payload) (h.event_id (codes "alert-") now) anomaly_alert now

  abbrev pub drift_events : Time → Agent F → List Event
  drift_events now a =
      encoded (h.marshal_drift (record { timestamp = now; drift_index = a.det.drift_index }))
        (h.event_id (codes "drift-") now) drift_alert now

  abbrev pub heartbeat_events : Time → Agent F → List Event
  heartbeat_events now a =
      encoded (h.marshal_heartbeat (flush a.hb now).0) (h.event_id (codes "hb-") now) heartbeat now

  -- In the order of the tick, and each from the state before any of them is emitted.
  abbrev pub report_events : Reading F → Bool → Time → Agent F → List Event
  report_events r should_alert now a =
      ((if should_alert then alert_events r now a else [])
        ++ (if drift_is_due a now then drift_events now a else []))
      ++ (if should_flush a.hb now then heartbeat_events now a else [])

  -- What the steps change beside.
  abbrev counted : Bool → Agent F → Agent F
  counted b a = record a {
    metrics = record (a.metrics) {
      alerts = if b then inc64 a.metrics.alerts else a.metrics.alerts;
    };
  }

  abbrev pub drift_marked : Bool → Time → Agent F → Agent F
  drift_marked b now a = record a {
    prev_drifting = a.det.drifting;
    last_drift_alert = if b then now else a.last_drift_alert;
  }

  abbrev restarted : Bool → Time → Agent F → Agent F
  restarted b now a = record a { hb = if b then (flush a.hb now).1 else a.hb }

  alert-deliver :
      (b : Bool) (r : Reading F) (now : Time) (a : Agent F)
      → (if b then emit_anomaly_alert h a now r.cpu_pct r.mem_pct a.det.zscore else a)
        ≡ deliver (if b then alert_events r now a else []) (counted b a)
  unfolding emit_anomaly_alert
  alert-deliver true r now a =
      emit_encoded-deliver (counted true a) _ (h.event_id (codes "alert-") now) anomaly_alert now
  alert-deliver false r now a = deliver-nil a

  pub handle_drift-deliver :
      (now : Time) (a : Agent F)
      → handle_drift h a now
        ≡ deliver
            (if drift_is_due a now then drift_events now a else [])
            (drift_marked (drift_is_due a now) now a)
  unfolding handle_drift
  handle_drift-deliver now a = go (drift_is_due a now)
    where
      go :
          (b : Bool)
          → (record (if b
              then emit_encoded
                  (record a { last_drift_alert = now })
                  (h.marshal_drift (record { timestamp = now; drift_index = a.det.drift_index }))
                  (h.event_id (codes "drift-") now)
                  drift_alert
                  now
              else a) { prev_drifting = a.det.drifting })
            ≡ deliver (if b then drift_events now a else []) (drift_marked b now a)
      go true =
          ap (λ (x : Agent F). record x { prev_drifting = a.det.drifting })
            (emit_encoded-deliver (record a { last_drift_alert = now }) _
              (h.event_id (codes "drift-") now) drift_alert now)
      go false = ap (λ (x : Agent F). record x { prev_drifting = a.det.drifting }) (deliver-nil a)

  flush_heartbeat-deliver :
      (now : Time) (a : Agent F)
      → flush_heartbeat h a now
        ≡ deliver
            (if should_flush a.hb now then heartbeat_events now a else [])
            (restarted (should_flush a.hb now) now a)
  unfolding flush_heartbeat
  flush_heartbeat-deliver now a = go (should_flush a.hb now)
    where
      go :
          (b : Bool)
          → (if not b
              then a
              else emit_encoded
                  (record a { hb = (flush a.hb now).1 })
                  (h.marshal_heartbeat (flush a.hb now).0)
                  (h.event_id (codes "hb-") now)
                  heartbeat
                  now)
            ≡ deliver (if b then heartbeat_events now a else []) (restarted b now a)
      go true =
          emit_encoded-deliver (record a { hb = (flush a.hb now).1 }) _
            (h.event_id (codes "hb-") now) heartbeat now
      go false = deliver-nil a

  -- The whole report as one delivery.
  report-same :
      (r : Reading F) (should_alert : Bool) (now : Time) (a : Agent F)
      → let e1 = if should_alert then alert_events r now a else [] in
        let e2 = if drift_is_due a now then drift_events now a else [] in
        let e3 = if should_flush a.hb now then heartbeat_events now a else [] in
        report h r should_alert now a
        ≡ deliver e3 (
            restarted (should_flush a.hb now) now (
              deliver e2
                (drift_marked (drift_is_due a now) now (deliver e1 (counted should_alert a)))))
  unfolding report drift_is_due
  report-same r should_alert now a =
      let x =
        deliver (if should_alert then alert_events r now a else []) (counted should_alert a) in
      ap (λ z. flush_heartbeat h (handle_drift h z now) now) (alert-deliver should_alert r now a)
      ∙ ap (λ z. flush_heartbeat h z now) (handle_drift-deliver now x)
      ∙ flush_heartbeat-deliver now _

  -- What the report leaves for the drift alerts to come.
  pub report-drift :
      (r : Reading F) (should_alert : Bool) (now : Time) (a : Agent F)
      → let b = report h r should_alert now a in
        (b.prev_drifting ≡ a.det.drifting)
        × (b.last_drift_alert ≡ (if drift_is_due a now then now else a.last_drift_alert))
        × (b.supp_cfg ≡ a.supp_cfg)
  report-drift r should_alert now a =
      let same = report-same r should_alert now a in
      (
        ap (λ (z : Agent F). z.prev_drifting) same,
        ap (λ (z : Agent F). z.last_drift_alert) same,
        ap (λ (z : Agent F). z.supp_cfg) same,
      )

  -- After the alert, the drift alert and the heartbeat that the tick's state calls for, in this order
  -- and each where it could be encoded, the outbox is as after pushing them one by one, and every
  -- subscriber's channel as after sending them one by one; no channel is added.
  pub report-deliver :
      (r : Reading F) (should_alert : Bool) (now : Time) (a : Agent F)
      → let b = report h r should_alert now a in
        let es = report_events r should_alert now a in
        (b.ob ≡ push_all es a.ob)
        × (b.subs ≡ map (send_all es) a.subs)
        × (b.next_channel ≡ a.next_channel)
  unfolding push_all
  report-deliver r should_alert now a =
      let e1 = if should_alert then alert_events r now a else [] in
      let e2 = if drift_is_due a now then drift_events now a else [] in
      let e3 = if should_flush a.hb now then heartbeat_events now a else [] in
      let same = report-same r should_alert now a in
      (
        ap (λ (z : Agent F). z.ob) same
            ∙ sym (ap (push_all e3) (push_all-append e1 e2 a.ob))
            ∙ sym (push_all-append (e1 ++ e2) e3 a.ob),
        ap (λ (z : Agent F). z.subs) same
            ∙ sym (ap (map (send_all e3)) (map-send_all-append e1 e2 a.subs))
            ∙ sym (map-send_all-append (e1 ++ e2) e3 a.subs),
        ap (λ (z : Agent F). z.next_channel) same,
      )
