-- ===== src/Agent.antt =====
-- cmd/agent/main.go: the agent, which puts the parts together. The system calls, the encodings
-- of encoding/json and fmt, the number of CPUs and whether writes succeed are arguments.
pub mod Drift
pub mod Events
mod Frame
pub mod Interval
pub mod Quota
mod Tests
mod State
pub mod Usage
pub mod Channels
mod Emit
mod Pace
unfoldable pub use State.*
unfoldable pub use Emit.*
unfoldable pub use Pace.*
use mathlib.Core.Option
use edge_telemetry_daemon.Shared.{
  ℕ, ◌+◌, ◌-◌, ◌*◌, ◌%◌, Bool, true, false, not, ◌&&◌, ◌||◌, Option, none, some, List, [], ◌∷◌,
  ◌++◌, map, length, if◌then◌else◌, ltb, leb, ◌==◌, inc64, u64_mod,
}
use edge_telemetry_daemon.Shared.Int.{ℤ, pos, leb_ℤ, ltb_ℤ, add_int, ◌-ℤ◌}
use edge_telemetry_daemon.Shared.Time.{Time, Duration, zero_time, time_sub, second, millisecond}
use edge_telemetry_daemon.Shared.Float.{Float, nought, one}
use edge_telemetry_daemon.Shared.Text.{Bytes, codes}
use edge_telemetry_daemon.Outbox.{Outbox, Event, EventType, anomaly_alert, drift_alert, heartbeat}
use edge_telemetry_daemon.Filter.RingBuffer.{RingBuffer, SnapshotEntry, new_ring_buffer, snapshot}
use edge_telemetry_daemon.Filter.Suppressor.{
  Suppressor, SuppressorState, SuppressorConfig, normal, alerting, suppressed, new_suppressor,
  process,
}
use edge_telemetry_daemon.Filter.Heartbeat.{
  HeartbeatAggregator, HeartbeatSummary, new_aggregator, observe, should_flush, flush,
}
use edge_telemetry_daemon.Engine.Ewma.{is_saturated}
use edge_telemetry_daemon.Engine.Stats.{mean_of}
use edge_telemetry_daemon.Engine.Detector.{ZScoreDetector, new_detector}
use edge_telemetry_daemon.Engine.Detector
use edge_telemetry_daemon.Filter.RingBuffer
use edge_telemetry_daemon.Outbox
use edge_telemetry_daemon.Cgroup.{
  Controller, Mode, mode_burst, is_mode, new_controller, set_burst, set_quiescent, quiescent_quota,
  mode_of, is_read_only,
}
use edge_telemetry_daemon.Cgroup.Discover.{Files}
use edge_telemetry_daemon.Cgroup.Stat.{CpuStat, read_cpu_stat}
use edge_telemetry_daemon.Collector.{CpuStats}
use edge_telemetry_daemon.Collector.Mem.{MemStats}
use edge_telemetry_daemon.Collector.Generator.{new_ai_gen, default_ai_gen_config}
use edge_telemetry_daemon.Agent.Usage.{collect_usage}
use edge_telemetry_daemon.Config.{Config}

unfoldable pub is_state : SuppressorState → SuppressorState → Bool
is_state normal normal = true
is_state alerting alerting = true
is_state suppressed suppressed = true
is_state _ _ = false

-- The setter for the new state; a suppressed one calls none.
pub set_quota : Bytes → Bool → SuppressorState → Controller → Controller
set_quota quota ok alerting c = (set_burst ok c).0
set_quota quota ok normal c = (set_quiescent quota ok c).0
set_quota quota ok suppressed c = c

-- `CPUStats{}` and `MemStats{}`
abbrev pub zero_cpu : CpuStats
zero_cpu = record {
  user = 0;
  nice = 0;
  system = 0;
  idle = 0;
  iowait = 0;
  irq = 0;
  softirq = 0;
  steal = 0;
  guest = 0;
  guest_n = 0;
  total = 0;
}

abbrev pub zero_mem : MemStats
zero_mem = record {
  mem_total = 0;
  mem_free = 0;
  mem_available = 0;
  buffers = 0;
  cached = 0;
  swap_total = 0;
  swap_free = 0;
}

module _ {ℓ} {F : Type ℓ} ⦃f : Float F⦄ where
  open f use {sub, mul, div, lt, abs, max, is_nan, of_ratio, of_uint, of_int, to_int}

  -- The quota's part of `updateCgroup`, and its metrics.
  unfoldable pub switch_quota : Host F → Sources F → SuppressorState → Agent F → Agent F
  switch_quota h s state a =
      if not (is_state state a.prev_suppressor_state)
      then record a {
        prev_suppressor_state = state;
        cgroup_ctl = set_quota h.quiescent s.write_succeeds state a.cgroup_ctl;
      }
      else a

  unfoldable pub show_cgroup : Sources F → Agent F → Agent F
  show_cgroup s a = record a {
    metrics = record (a.metrics) {
      cgroup_mode = of_uint (if is_mode (mode_of a.cgroup_ctl) mode_burst then 1 else 0);
      cgroup_throttled = elim (read_cpu_stat s.os a.cgroup_ctl.cgroup_root) [
        | none ↦ a.metrics.cgroup_throttled
        | some stat ↦ of_uint stat.throttled_usec
      ];
    };
  }

  unfoldable pub update_cgroup : Host F → Sources F → SuppressorState → Agent F → Agent F
  update_cgroup h s state a = show_cgroup s (switch_quota h s state a)

  -- The detector's part of `tick`, with `isAnom`.
  unfoldable pub detect : Reading F → Agent F → Agent F × Bool
  detect r a =
      let (det, raw) = Detector.update a.det r.cpu_pct r.mem_pct in
      (
        record a {
          det = det;
          metrics = record (a.metrics) {
            anomalies = if raw then inc64 a.metrics.anomalies else a.metrics.anomalies;
          };
        },
        raw || is_saturated a.mem_stats.mem_total a.mem_stats.mem_available (of_ratio 5 1),
      )

  unfoldable pub suppress : Bool → Time → Agent F → Agent F × Bool
  suppress is_anom now a =
      let (s, should_alert) = process a.supp is_anom now in (record a { supp = s }, should_alert)

  -- What the ring buffer and the heartbeat take.
  unfoldable pub log_reading : Reading F → Bool → Time → Agent F → Agent F
  log_reading r is_anom now a =
      let entry : SnapshotEntry F = record {
        timestamp = now;
        value = r.cpu_pct;
        z_score = a.det.zscore;
        anomalous = is_anom;
      } in
      record a {
        ring_buf = RingBuffer.push a.ring_buf entry;
        hb = observe a.hb r.inferences_per_sec is_anom (is_state a.supp.state suppressed);
      }

  -- The start of `tick`.
  unfoldable pub count_scrape : Time → Agent F → Agent F
  count_scrape now a = record a {
    prev_tick = now;
    metrics = record (a.metrics) { scrapes = inc64 a.metrics.scrapes };
  }

  -- The rest of `tick` but for the interval.
  pub report : Host F → Reading F → Bool → Time → Agent F → Agent F
  report h r should_alert now a =
      let alerted =
        if should_alert then emit_anomaly_alert h a now r.cpu_pct r.mem_pct a.det.zscore else a in
      flush_heartbeat h (handle_drift h alerted now) now

  pub next_interval : Agent F → Duration
  next_interval a =
      compute_interval a.det.zscore a.det.drift_index a.det.drift_threshold a.cfg.rate_theta
        a.cfg.rate_tau_min a.cfg.rate_tau_max a.tau_prev tau_recovery_step

  -- `tick` from what it has read.
  pub act : Host F → Sources F → Reading F → Time → Agent F → Agent F × Duration
  act h s r now a =
      let (detected, is_anom) = detect r a in
      let (judged, should_alert) = suppress is_anom now detected in
      let logged = log_reading r is_anom now (update_cgroup h s judged.supp.state judged) in
      let reported = report h r should_alert now logged in
      let tau = next_interval reported in (record reported { tau_prev = tau }, tau)

  pub tick : Host F → Sources F → Time → Agent F → Agent F × Duration
  tick h s now a = let (b, r) = collect_usage s (count_scrape now a) in act h s r now b

  -- `newAgent`, at a time, from whether the first write of cpu.max succeeds.
  unfoldable pub new_agent : Host F → Files → Config F → Outbox → Time → Bool → Agent F
  new_agent h fs cfg ob now write_succeeds =
      let ctl = new_controller fs cfg.cgroup_root in
      let supp_cfg : SuppressorConfig = record {
        holdoff_duration = pos (10 * second);
        min_consecutive_anomalies = pos 2;
        min_consecutive_normals = pos 3;
      } in
      record {
        cfg = cfg;
        supp_cfg = supp_cfg;
        ob = ob;
        det =
            new_detector (of_ratio 1 10) (of_ratio 1 100) cfg.detector_min_samples (of_ratio 3 1)
              (of_ratio 15 100);
        supp = new_suppressor supp_cfg;
        ring_buf = new_ring_buffer zero_entry (pos 20);
        hb = new_aggregator (pos (30 * second)) now;
        cgroup_ctl = (set_quiescent h.quiescent write_succeeds ctl).0;
        ai_gen =
            if cfg.enable_synthetic_workload then some (new_ai_gen default_ai_gen_config) else none;
        prev_suppressor_state = normal;
        prev_tick = zero_time;
        inject_spikes = pos 0;
        prev_cpu = zero_cpu;
        has_prev_cpu = false;
        mem_stats = zero_mem;
        prev_drifting = false;
        last_drift_alert = zero_time;
        tau_prev = cfg.rate_tau_max;
        subs = [];
        next_channel = 0;
        metrics = record {
          scrapes = 0;
          anomalies = 0;
          alerts = 0;
          throughput = nought;
          cpu = nought;
          mem = nought;
          cgroup_mode = nought;
          cgroup_throttled = nought;
          cgroup_read_only = of_uint (if is_read_only ctl then 1 else 0);
        };
      }
