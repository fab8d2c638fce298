-- ===== src/Agent/Frame.antt =====
-- What the reading and the reporting parts of a tick leave alone.

use edge_telemetry_daemon.Shared.{
  ◌≡◌, refl, ap, ◌∙◌, Bool, not, Option, none, some, if_ind, if◌then◌else◌,
}
use edge_telemetry_daemon.Shared.Time.{Time}
use edge_telemetry_daemon.Shared.Text.{Bytes}
use edge_telemetry_daemon.Shared.Float.{Float}
use edge_telemetry_daemon.Outbox.{EventType}
use edge_telemetry_daemon.Filter.Heartbeat.{should_flush, flush}
use edge_telemetry_daemon.Agent.{
  Agent, Host, Reading, emit_event, emit_encoded, emit_anomaly_alert, drift_is_due, handle_drift,
  flush_heartbeat, report, count_scrape,
}
use edge_telemetry_daemon.Agent.State.{Sources}
use edge_telemetry_daemon.Agent.Usage.{collect_usage}
use edge_telemetry_daemon.Agent.Usage.Untouched.{
  Untouched, Untouched-trans, collect_usage-Untouched,
}

module _ {ℓ} {F : Type ℓ} ⦃f : Float F⦄ (h : Host F) where
  -- What those parts leave alone.
  pub record Same (a b : Agent F) : Type ℓ where
    pub supp : b.supp ≡ a.supp
    pub cgroup_ctl : b.cgroup_ctl ≡ a.cgroup_ctl
    pub prev : b.prev_suppressor_state ≡ a.prev_suppressor_state
    pub cfg : b.cfg ≡ a.cfg
    pub tau : b.tau_prev ≡ a.tau_prev

  Same-refl : (a : Agent F) → Same a a
  Same-refl a = record { supp = refl; cgroup_ctl = refl; prev = refl; cfg = refl; tau = refl }

  Same-trans : (a b c : Agent F) → Same a b → Same b c → Same a c
  Same-trans a b c p q = record {
    supp = q.supp ∙ p.supp;
    cgroup_ctl = q.cgroup_ctl ∙ p.cgroup_ctl;
    prev = q.prev ∙ p.prev;
    cfg = q.cfg ∙ p.cfg;
    tau = q.tau ∙ p.tau;
  }

  -- The part of a tick that reads.
  pub read-Untouched :
      (s : Sources F) (now : Time) (a : Agent F)
      → Untouched a (collect_usage s (count_scrape now a)).0
  unfolding count_scrape
  read-Untouched s now a =
      Untouched-trans a (count_scrape now a) _ refl (collect_usage-Untouched s (count_scrape now a))

  pub read-Same :
      (s : Sources F) (now : Time) (a : Agent F) → Same a (collect_usage s (count_scrape now a)).0
  read-Same s now a =
      let e = read-Untouched s now a in
      record {
        supp = ap (λ (x : Agent F). x.supp) e;
        cgroup_ctl = ap (λ (x : Agent F). x.cgroup_ctl) e;
        prev = ap (λ (x : Agent F). x.prev_suppressor_state) e;
        cfg = ap (λ (x : Agent F). x.cfg) e;
        tau = ap (λ (x : Agent F). x.tau_prev) e;
      }

  emit_encoded-Same :
      (a : Agent F) (data' : Option Bytes) (id : Bytes) (t : EventType) (now : Time)
      → Same a (emit_encoded a data' id t now)
  unfolding emit_encoded emit_event
  emit_encoded-Same a none id t now = Same-refl a
  emit_encoded-Same a (some bytes) id t now = record {
    supp = refl;
    cgroup_ctl = refl;
    prev = refl;
    cfg = refl;
    tau = refl;
  }

  emit_anomaly_alert-Same :
      (a : Agent F) (now : Time) (c m z : F) → Same a (emit_anomaly_alert h a now c m z)
  unfolding emit_anomaly_alert
  emit_anomaly_alert-Same a now c m z =
      let e = emit_encoded-Same _ _ _ _ now in
      record { supp = e.supp; cgroup_ctl = e.cgroup_ctl; prev = e.prev; cfg = e.cfg; tau = e.tau }

  handle_drift-Same : (a : Agent F) (now : Time) → Same a (handle_drift h a now)
  unfolding handle_drift
  handle_drift-Same a now =
      if_ind (λ (x : Agent F). Same a (record x { prev_drifting = a.det.drifting }))
        (drift_is_due a now)
        (λ _.
          let e = emit_encoded-Same (record a { last_drift_alert = now }) _ _ _ now in
          record {
            supp = e.supp;
            cgroup_ctl = e.cgroup_ctl;
            prev = e.prev;
            cfg = e.cfg;
            tau = e.tau;
          })
        (λ _. record { supp = refl; cgroup_ctl = refl; prev = refl; cfg = refl; tau = refl })

  flush_heartbeat-Same : (a : Agent F) (now : Time) → Same a (flush_heartbeat h a now)
  unfolding flush_heartbeat
  flush_heartbeat-Same a now =
      if_ind (λ (x : Agent F). Same a x) (not (should_flush a.hb now)) (λ _. Same-refl a)
        (λ _.
          let e = emit_encoded-Same (record a { hb = (flush a.hb now).1 }) _ _ _ now in
          record {
            supp = e.supp;
            cgroup_ctl = e.cgroup_ctl;
            prev = e.prev;
            cfg = e.cfg;
            tau = e.tau;
          })

  pub report-Same :
      (r : Reading F) (alert : Bool) (now : Time) (a : Agent F) → Same a (report h r alert now a)
  unfolding report
  report-Same r alert now a =
      let alerted =
        if alert then emit_anomaly_alert h a now r.cpu_pct r.mem_pct a.det.zscore else a in
      let first : Same a alerted =
        if_ind (λ (x : Agent F). Same a x) alert
          (λ _. emit_anomaly_alert-Same a now r.cpu_pct r.mem_pct a.det.zscore)
          (λ _. Same-refl a) in
      Same-trans a alerted _ first (
        Same-trans alerted (handle_drift h alerted now) _ (handle_drift-Same alerted now)
          (flush_heartbeat-Same (handle_drift h alerted now) now))
