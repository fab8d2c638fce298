-- ===== src/Agent/Tests.antt =====
-- Ticks over whole numbers, and the agent's theorems at concrete inputs.

use edge_telemetry_daemon.Shared.{
  ◌≡◌, refl, true, false, none, some, List, [], ◌∷◌, ◌++◌, arith, if◌then◌else◌,
}
use edge_telemetry_daemon.Shared.Int.{pos, leb_ℤ, add_int}
use edge_telemetry_daemon.Shared.Time.{Time, time_sub}
use edge_telemetry_daemon.Shared.Fixed.{Fixed, fixed}
use edge_telemetry_daemon.Shared.Text.{Bytes, codes, equal}
use edge_telemetry_daemon.Outbox.{Outbox, new_outbox, drop_oldest}
use edge_telemetry_daemon.Config.{Config}
use edge_telemetry_daemon.KernelFile.{
  Os, fetch, write_path, finish, separate, slash_before, copy_at, overwrite, put, seal, c_string,
  read_kernel_file,
}
use edge_telemetry_daemon.Shared.Scan.{is_blank, is_digit, read_digits, skip_while}
use edge_telemetry_daemon.Cgroup.{is_read_only, new_controller}
use edge_telemetry_daemon.Cgroup.Discover.{Files}
use edge_telemetry_daemon.Agent.State.{Sources}
use edge_telemetry_daemon.Agent.{Agent, Host, new_agent, tick, zero_cpu, drift_is_due}
use edge_telemetry_daemon.Agent.Events.Ticks.{Delivered, tick_events, tick-Delivered}
use edge_telemetry_daemon.Collector.{
  CpuStats, collect_cpu, parse_stat, parse_cpu_line, skip_token, skip_word, rest_or_none, next_uint,
  is_space, read_fields, stats_of,
}
use edge_telemetry_daemon.Agent.Usage.{cpu_usage, cpu_percent}
use edge_telemetry_daemon.Agent.Usage.Gaps.{samples, cpu_usage-samples}
use edge_telemetry_daemon.Engine.Detector.{ZScoreDetector}
use edge_telemetry_daemon.Agent.Drift.{drift_alerts, drift_alerts_of, drifts-holdoff}
use edge_telemetry_daemon.Agent.Usage.{
  collect_usage, read_sample, mem_usage, take_spike, show_throughput,
}
use edge_telemetry_daemon.Agent.{
  act, report, handle_drift, flush_heartbeat, emit_anomaly_alert, emit_encoded, emit_event,
  count_scrape, detect, suppress, log_reading, update_cgroup, show_cgroup, switch_quota, is_state,
}
use edge_telemetry_daemon.Agent.Events.Ticks.{seen}
use edge_telemetry_daemon.Agent.Events.{drift_events}
use edge_telemetry_daemon.Collector.Mem.{collect_mem, parse_file}
use edge_telemetry_daemon.Engine.Detector
use edge_telemetry_daemon.Engine.Stats
use edge_telemetry_daemon.Filter.Suppressor
use edge_telemetry_daemon.Filter.Suppressor.{process, new_suppressor}
use edge_telemetry_daemon.Filter.Heartbeat.{should_flush, flush, observe, new_aggregator}
use edge_telemetry_daemon.Engine.Ewma
use edge_telemetry_daemon.Engine.Detector.{unusable, judge, drift_of}
use edge_telemetry_daemon.Agent.Interval.{Steady, intervals, intervals-Steady}
use edge_telemetry_daemon.Agent.Quota.{mode_for, ticks, quota-ticks}
use edge_telemetry_daemon.Cgroup.Quota.{quota_of}

abbrev host : Host Fixed
host = record {
  marshal_anomaly = λ _. some [];
  marshal_drift = λ _. none;
  marshal_heartbeat = λ _. some [];
  event_id = λ prefix _. prefix;
  quiescent = codes "40000 100000\n";
}

abbrev cfg : Config Fixed
cfg = record {
  listen_addr = codes ":8080";
  scrape_interval = pos 5000;
  cpu_report_mode = codes "percent";
  log_level = codes "info";
  target_url = [];
  target_auth_token = [];
  detector_min_samples = 3;
  procfs_path = codes "/proc";
  rate_tau_min = pos 50;
  rate_tau_max = pos 5000;
  rate_theta = some (pos 4);
  cgroup_root = [];
  socket_path = [];
  enable_synthetic_workload = false;
  enable_debug_endpoints = false;
}

-- A busier /proc/stat at each tick; the second reading leaves no memory.
abbrev files : Bytes → Bytes → Os
files stat mem = record {
  open_file = λ _. true;
  read_file = λ path size.
      if equal path (codes "/proc/stat")
      then some stat
      else if equal path (codes "/proc/meminfo")
      then some mem
      else none;
}

-- No file can be read.
abbrev no_files : Sources Fixed
no_files = record {
  os = record { open_file = λ _. false; read_file = λ path size. none };
  draws = record { first = some (pos 0); second = some (pos 0); batch = 0; now = pos 0 };
  write_succeeds = true;
}

abbrev sources : Bytes → Bytes → Sources Fixed
sources stat mem = record {
  os = files stat mem;
  draws = record { first = some (pos 0); second = some (pos 0); batch = 0; now = pos 0 };
  write_succeeds = true;
}

abbrev rows : List (Sources Fixed × Time)
rows =
    (
      sources (codes "cpu 1 0 1 8 0 0 0 0 0 0\n") (codes "MemTotal: 100 kB\nMemAvailable: 60 kB\n"),
      pos 1000,
    )
    ∷ (
      sources (codes "cpu 6 0 1 13 0 0 0 0 0 0\n") (codes "MemTotal: 100 kB\nMemAvailable: 0 kB\n"),
      pos 2000,
    )
    ∷ (
      sources (codes "cpu 11 0 1 18 0 0 0 0 0 0\n")
          (codes "MemTotal: 100 kB\nMemAvailable: 0 kB\n"),
      pos 3000,
    )
    ∷ []

abbrev cgroup_files : Files
cgroup_files = record { self_cgroup = none; join = λ a b. a ++ b; cannot_write = λ _. false }

abbrev outbox : Outbox
outbox = new_outbox (record { capacity = pos 4; drop_policy = drop_oldest })

abbrev agent : Agent Fixed
agent = new_agent host cgroup_files cfg outbox (pos 10) true

quota-ticks_example :
    let a = ticks host rows agent in
    (a.cgroup_ctl.mode ≡ mode_for a.supp.state)
    × (a.cgroup_ctl.cpu_max ≡ some (quota_of host.quiescent (mode_for a.supp.state)))
unfolding is_read_only new_controller
quota-ticks_example =
    quota-ticks host cgroup_files cfg outbox (pos 10) rows refl (refl, (refl, (refl, tt)))

intervals-Steady_example : Steady agent.cfg.rate_tau_min agent.tau_prev (intervals host rows agent)
intervals-Steady_example = intervals-Steady host rows agent

-- 40 seconds on, a heartbeat.
abbrev late : Time
late = pos 40000000000

tick-Delivered_example :
    Delivered host
      (tick_events host (sources [] []) late agent)
      agent
      (tick host (sources [] []) late agent).0
tick-Delivered_example = tick-Delivered host (sources [] []) late agent

-- The CPU works for 5 of 10 ticks, over a read that fails.
abbrev first_sample : CpuStats
first_sample = record zero_cpu { user = 1; system = 1; idle = 8; total = 10 }

abbrev last_sample : CpuStats
last_sample = record zero_cpu { user = 6; system = 1; idle = 13; total = 20 }

abbrev first_read : Sources Fixed
first_read = sources (codes "cpu 1 0 1 8 0 0 0 0 0 0\n") []

abbrev no_read : Sources Fixed
no_read = sources [] []

abbrev last_read : Sources Fixed
last_read = sources (codes "cpu 6 0 1 13 0 0 0 0 0 0\n") []

cpu_usage-samples_example :
    (cpu_usage last_read (samples (no_read ∷ []) (cpu_usage first_read agent).0)).1
    ≡ cpu_percent first_sample last_sample
unfolding collect_cpu parse_stat parse_cpu_line skip_token skip_word rest_or_none next_uint is_space
    read_fields stats_of fetch write_path finish separate slash_before copy_at overwrite put seal
    c_string read_kernel_file is_blank is_digit read_digits skip_while equal new_agent
    new_controller
cpu_usage-samples_example =
    cpu_usage-samples agent first_read last_read (no_read ∷ []) first_sample last_sample refl
      (refl, tt) refl (omega arith)

-- The fast means are far from the slow ones, which stay where they are.
abbrev far : ZScoreDetector Fixed
far = record {
  alpha = some (pos 1);
  alpha_slow = some (pos 0);
  min_samples = 3;
  threshold = some (pos 100);
  drift_threshold = some (pos 1);
  cpu_stats = record {
    alpha = some (pos 1);
    mean = some (pos 90);
    vr = some (pos 0);
    count = 5;
    init = true;
  };
  mem_stats = record {
    alpha = some (pos 1);
    mean = some (pos 90);
    vr = some (pos 0);
    count = 5;
    init = true;
  };
  cpu_slow = record { alpha = some (pos 0); value = some (pos 10); init = true };
  mem_slow = record { alpha = some (pos 0); value = some (pos 10); init = true };
  n = 5;
  last_cpu = some (pos 90);
  last_mem = some (pos 90);
  zscore = some (pos 0);
  drift_index = some (pos 8);
  drifting = false;
}

abbrev drifted : Agent Fixed
drifted = record agent {
  det = far;
  metrics = record (agent.metrics) { cpu = some (pos 90); mem = some (pos 90) };
}

-- An alert, a tick two seconds on, and one ten seconds on.
abbrev once : Agent Fixed
once = (tick host no_files (pos 0) drifted).0

abbrev twice : Agent Fixed
twice = (tick host no_files (pos 2000000000) once).0

due_then_drifting :
    (drift_is_due (seen host no_files (pos 0) drifted) (pos 0) ≡ true)
    × ((seen host no_files (pos 2000000000) once).det.drifting ≡ true)
    × ((seen host no_files (pos 10000000000) twice).det.drifting ≡ true)
unfolding collect_usage count_scrape detect suppress log_reading update_cgroup show_cgroup
    switch_quota is_state cpu_usage read_sample mem_usage take_spike show_throughput collect_cpu
    parse_stat collect_mem parse_file read_kernel_file Detector.update unusable judge drift_of
    new_agent Stats.update Ewma.update Stats.mean_of Ewma.value_of fetch write_path finish separate
    slash_before copy_at overwrite put seal c_string process new_suppressor Suppressor.on_anomaly
    Suppressor.on_normal Detector.score Detector.calculate_z_score Ewma.is_saturated Stats.std_dev
    add_int tick act report handle_drift flush_heartbeat emit_anomaly_alert emit_encoded emit_event
    drift_is_due should_flush flush observe new_aggregator time_sub
due_then_drifting = (refl, refl, refl)

early : leb_ℤ drifted.supp_cfg.holdoff_duration (time_sub (pos 2000000000) (pos 0)) ≡ false
unfolding time_sub new_agent
early = refl

drifts-holdoff_example :
    (drift_alerts_of host ((no_files, pos 2000000000) ∷ []) once ≡ [])
    × (drift_alerts (tick_events host no_files (pos 10000000000) twice) ≡ (
        if leb_ℤ drifted.supp_cfg.holdoff_duration (time_sub (pos 10000000000) (pos 0))
        then drift_events host (pos 10000000000) (seen host no_files (pos 10000000000) twice)
        else []))
drifts-holdoff_example =
    let (due, second, third) = due_then_drifting in
    drifts-holdoff host drifted no_files (pos 0) ((no_files, pos 2000000000) ∷ []) no_files
      (pos 10000000000) due (second, early, tt) third
