-- ===== src/Agent/State.antt =====
-- cmd/agent/main.go: the agent's state, its payloads, and the subscribers' channels.

use edge_telemetry_daemon.Shared.{
  ℕ, Bool, Option, List, [], ◌∷◌, ◌++◌, length, if◌then◌else◌, ltb, ◌==◌,
}
use edge_telemetry_daemon.Shared.Time.{Time, Duration}
use edge_telemetry_daemon.Shared.Text.{Bytes}
use edge_telemetry_daemon.Outbox.{Outbox, Event}
use edge_telemetry_daemon.Filter.RingBuffer.{RingBuffer, SnapshotEntry}
use edge_telemetry_daemon.Filter.Suppressor.{Suppressor, SuppressorState, SuppressorConfig}
use edge_telemetry_daemon.Filter.Heartbeat.{HeartbeatAggregator, HeartbeatSummary}
use edge_telemetry_daemon.Engine.Detector.{ZScoreDetector}
use edge_telemetry_daemon.Cgroup.{Controller}
use edge_telemetry_daemon.Collector.{CpuStats}
use edge_telemetry_daemon.Collector.Mem.{MemStats}
use edge_telemetry_daemon.Collector.Generator.{AiGen, Draws}
use edge_telemetry_daemon.KernelFile.{Os}
use edge_telemetry_daemon.Shared.Int.{ℤ}
use edge_telemetry_daemon.Config.{Config}

pub record AnomalyPayload {ℓ} (F : Type ℓ) : Type ℓ where
  pub timestamp : Time
  pub cpu : F
  pub memory : F
  pub baseline_cpu : F
  pub baseline_mem : F
  pub z_score : F
  pub threshold : F
  pub pre_context : List (SnapshotEntry F)

pub record DriftPayload {ℓ} (F : Type ℓ) : Type ℓ where
  pub timestamp : Time
  pub drift_index : F

-- `json.Marshal` of the payloads, `none` for an error; the event IDs that Sprintf makes of a prefix
-- and a time; and what `SetQuiescent` writes.
pub record Host {ℓ} (F : Type ℓ) : Type ℓ where
  pub marshal_anomaly : AnomalyPayload F → Option Bytes
  pub marshal_drift : DriftPayload F → Option Bytes
  pub marshal_heartbeat : HeartbeatSummary F → Option Bytes
  pub event_id : Bytes → Time → Bytes
  pub quiescent : Bytes

-- A subscriber's channel: its identity and the events in it.
abbrev pub Channel : Type 0
Channel = ℕ × List Event

-- The counters and gauges by the metric's name; a gauge is the float that it stores.
pub record Metrics {ℓ} (F : Type ℓ) : Type ℓ where
  pub scrapes : ℕ
  pub anomalies : ℕ
  pub alerts : ℕ
  pub throughput : F
  pub cpu : F
  pub mem : F
  pub cgroup_mode : F
  pub cgroup_throttled : F
  pub cgroup_read_only : F

-- `cpuStats`, which a tick only reads after `CollectCPU` has assigned it, is left out.
pub record Agent {ℓ} (F : Type ℓ) : Type ℓ where
  pub cfg : Config F
  pub supp_cfg : SuppressorConfig
  pub ob : Outbox
  pub det : ZScoreDetector F
  pub supp : Suppressor
  pub ring_buf : RingBuffer (SnapshotEntry F)
  pub hb : HeartbeatAggregator F
  pub ai_gen : Option (AiGen F)
  pub cgroup_ctl : Controller
  pub prev_suppressor_state : SuppressorState
  pub prev_drifting : Bool
  pub last_drift_alert : Time
  pub prev_tick : Time
  pub tau_prev : Duration
  pub inject_spikes : ℤ
  pub subs : List Channel
  pub next_channel : ℕ
  pub metrics : Metrics F
  pub prev_cpu : CpuStats
  pub has_prev_cpu : Bool
  pub mem_stats : MemStats

-- What a tick meets: the files, the workload generator's random numbers, and whether a write of
-- cpu.max succeeds.
pub record Sources {ℓ} (F : Type ℓ) : Type ℓ where
  pub os : Os
  pub draws : Draws F
  pub write_succeeds : Bool

-- The results of `collectUsage`.
pub record Reading {ℓ} (F : Type ℓ) : Type ℓ where
  pub cpu_pct : F
  pub mem_pct : F
  pub inferences_per_sec : F

-- `broadcast`: a channel that holds 64 events drops the event.
unfoldable pub send : Event → Channel → Channel
send evt (i, q) = if ltb (length q) 64 then (i, q ++ (evt ∷ [])) else (i, q)

unfoldable pub remove : ℕ → List Channel → List Channel
remove i [] = []
remove i ((j, q) ∷ cs) = if i == j then cs else ((j, q) ∷ remove i cs)
