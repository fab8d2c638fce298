-- ===== src/Filter/Suppressor.antt =====
-- internal/filter/suppressor.go: the deadband state machine that decides which anomalies alert. The
-- mutex makes each method one step.
pub mod Trace
pub mod Alerts
mod Tests
use edge_telemetry_daemon.Shared.{ℕ, Bool, true, false, not, ◌&&◌, ◌||◌, if◌then◌else◌, inc64}
use edge_telemetry_daemon.Shared.Int.{ℤ, pos, leb_ℤ, ltb_ℤ, inc_int}
use edge_telemetry_daemon.Shared.Text.{Bytes, codes}
use edge_telemetry_daemon.Shared.Time.{Time, Duration, zero_time, is_zero, time_sub}

pub data SuppressorState : Type 0 where
  normal alerting suppressed : SuppressorState

-- `String` of a state
pub state_name : SuppressorState → Bytes
state_name normal = codes "NORMAL"
state_name alerting = codes "ALERTING"
state_name suppressed = codes "SUPPRESSED"

pub record SuppressorConfig : Type 0 where
  pub holdoff_duration : Duration
  pub min_consecutive_anomalies : ℤ
  pub min_consecutive_normals : ℤ

pub record Suppressor : Type 0 where
  pub cfg : SuppressorConfig
  pub state : SuppressorState
  pub consecutive_anoms : ℤ
  pub consecutive_norms : ℤ
  pub last_alert_time : Time
  pub total_anomalies : ℕ
  pub total_suppressed : ℕ
  pub total_alerts_fired : ℕ

unfoldable pub new_suppressor : SuppressorConfig → Suppressor
new_suppressor c = record {
  cfg = record {
    holdoff_duration = if ltb_ℤ c.holdoff_duration (pos 0) then pos 0 else c.holdoff_duration;
    min_consecutive_anomalies =
        if leb_ℤ c.min_consecutive_anomalies (pos 0) then pos 1 else c.min_consecutive_anomalies;
    min_consecutive_normals =
        if leb_ℤ c.min_consecutive_normals (pos 0) then pos 3 else c.min_consecutive_normals;
  };
  state = normal;
  consecutive_anoms = pos 0;
  consecutive_norms = pos 0;
  last_alert_time = zero_time;
  total_anomalies = 0;
  total_suppressed = 0;
  total_alerts_fired = 0;
}

-- The four lines that fire an alert, in two places of `Process`.
abbrev fire : Suppressor → Time → Suppressor
fire s now = record s {
  state = alerting;
  last_alert_time = now;
  total_alerts_fired = inc64 s.total_alerts_fired;
}

-- `s.cfg.HoldoffDuration == 0 || (!s.lastAlertTime.IsZero() && now.Sub(s.lastAlertTime) >= …)`
pub held_off : Suppressor → Time → Bool
held_off s now =
    is_zero s.cfg.holdoff_duration
    || (not (is_zero s.last_alert_time)
        && leb_ℤ s.cfg.holdoff_duration (time_sub now s.last_alert_time))

-- `case StateAlerting, StateSuppressed:`
unfoldable pub on_active : Suppressor → Time → Suppressor × Bool
on_active s now =
    if held_off s now
    then (fire s now, true)
    else (record s { state = suppressed; total_suppressed = inc64 s.total_suppressed }, false)

-- The switch on the state, for an anomaly.
unfoldable pub on_anomaly : SuppressorState → Suppressor → Time → Suppressor × Bool
unfolding on_active
on_anomaly normal s now =
    if leb_ℤ s.cfg.min_consecutive_anomalies s.consecutive_anoms
    then (fire s now, true)
    else (s, false)
on_anomaly alerting s now = on_active s now
on_anomaly suppressed s now = on_active s now

-- What `Process` counts first, for an anomaly and for a normal reading.
abbrev count_anomaly : Suppressor → Suppressor
count_anomaly s = record s {
  total_anomalies = inc64 s.total_anomalies;
  consecutive_norms = pos 0;
  consecutive_anoms = inc_int s.consecutive_anoms;
}

abbrev count_normal : Suppressor → Suppressor
count_normal s = record s {
  consecutive_anoms = pos 0;
  consecutive_norms = inc_int s.consecutive_norms;
}

unfoldable pub on_normal : Suppressor → Suppressor × Bool
on_normal s = (
  if leb_ℤ s.cfg.min_consecutive_normals s.consecutive_norms
      then record s { state = normal }
      else s,
  false,
)

-- The state that `Process` returns beside the flag is the new state's.
unfoldable pub process : Suppressor → Bool → Time → Suppressor × Bool
unfolding on_anomaly on_normal
process s is_anomalous now =
    if is_anomalous then on_anomaly s.state (count_anomaly s) now else on_normal (count_normal s)

pub state_of : Suppressor → SuppressorState
state_of s = s.state

pub stats : Suppressor → ℕ × ℕ × ℕ
stats s = (s.total_anomalies, s.total_alerts_fired, s.total_suppressed)

pub reset : Suppressor → Suppressor
reset s = record s {
  state = normal;
  consecutive_anoms = pos 0;
  consecutive_norms = pos 0;
  last_alert_time = zero_time;
  total_anomalies = 0;
  total_suppressed = 0;
  total_alerts_fired = 0;
}
