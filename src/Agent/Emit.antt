-- ===== src/Agent/Emit.antt =====
-- cmd/agent/main.go: the subscribers, and the events that a tick emits.

use edge_telemetry_daemon.Shared.{
  ℕ, ◌+◌, Bool, false, not, ◌&&◌, ◌||◌, Option, none, some, [], ◌∷◌, ◌++◌, map, if◌then◌else◌,
  inc64,
}
use edge_telemetry_daemon.Shared.Int.{leb_ℤ}
use edge_telemetry_daemon.Shared.Time.{Time, zero_time, time_sub}
use edge_telemetry_daemon.Shared.Float.{Float, nought}
use edge_telemetry_daemon.Shared.Text.{Bytes, codes}
use edge_telemetry_daemon.Outbox
use edge_telemetry_daemon.Outbox.{Outbox, Event, EventType, anomaly_alert, drift_alert, heartbeat}
use edge_telemetry_daemon.Filter.RingBuffer.{SnapshotEntry, snapshot}
use edge_telemetry_daemon.Filter.Heartbeat.{should_flush, flush}
use edge_telemetry_daemon.Engine.Stats.{mean_of}
use edge_telemetry_daemon.Agent.State.{Agent, Host, AnomalyPayload, DriftPayload, send, remove}

module _ {ℓ} {F : Type ℓ} ⦃f : Float F⦄ where
  unfoldable pub subscribe : Agent F → ℕ × Agent F
  subscribe a = (
    a.next_channel,
    record a { subs = a.subs ++ ((a.next_channel, []) ∷ []); next_channel = a.next_channel + 1 },
  )

  unfoldable pub unsubscribe : Agent F → ℕ → Agent F
  unsubscribe a i = record a { subs = remove i a.subs }

  unfoldable pub emit_event : Agent F → Event → Agent F
  emit_event a evt = record a { ob = (Outbox.push a.ob evt).0; subs = map (send evt) a.subs }

  -- `emit` of an encoding, where there is one.
  unfoldable pub emit_encoded : Agent F → Option Bytes → Bytes → EventType → Time → Agent F
  emit_encoded a none id t now = a
  emit_encoded a (some bytes) id t now =
      emit_event a (record { id = id; type = t; timestamp = now; payload = bytes })

  -- `SnapshotEntry{}`
  abbrev pub zero_entry : SnapshotEntry F
  zero_entry = record { timestamp = zero_time; value = nought; z_score = nought; anomalous = false }

  unfoldable pub emit_anomaly_alert : Host F → Agent F → Time → F → F → F → Agent F
  emit_anomaly_alert h a now cpu_pct mem_pct z_score =
      let payload : AnomalyPayload F = record {
        timestamp = now;
        cpu = cpu_pct;
        memory = mem_pct;
        baseline_cpu = mean_of a.det.cpu_stats;
        baseline_mem = mean_of a.det.mem_stats;
        z_score = z_score;
        threshold = a.det.threshold;
        pre_context = snapshot zero_entry a.ring_buf;
      } in
      emit_encoded (record a { metrics = record (a.metrics) { alerts = inc64 a.metrics.alerts } })
        (h.marshal_anomaly payload) (h.event_id (codes "alert-") now) anomaly_alert now

  -- The test of `handleDrift`.
  unfoldable pub drift_is_due : Agent F → Time → Bool
  drift_is_due a now =
      a.det.drifting
      && (not a.prev_drifting
          || leb_ℤ a.supp_cfg.holdoff_duration (time_sub now a.last_drift_alert))

  unfoldable pub handle_drift : Host F → Agent F → Time → Agent F
  handle_drift h a now =
      let payload : DriftPayload F = record { timestamp = now; drift_index = a.det.drift_index } in
      let alerted =
        if drift_is_due a now
        then emit_encoded (record a { last_drift_alert = now }) (h.marshal_drift payload)
            (h.event_id (codes "drift-") now) drift_alert now
        else a in
      record alerted { prev_drifting = a.det.drifting }

  unfoldable pub flush_heartbeat : Host F → Agent F → Time → Agent F
  flush_heartbeat h a now =
      if not (should_flush a.hb now)
      then a
      else (let (summary, next) = flush a.hb now in
          emit_encoded (record a { hb = next }) (h.marshal_heartbeat summary)
            (h.event_id (codes "hb-") now) heartbeat now)
