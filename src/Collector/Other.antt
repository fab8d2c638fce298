-- ===== src/Collector/Other.antt =====
-- internal/collector/collector_other.go: the collectors of systems other than Linux, which fail.
use edge_telemetry_daemon.Shared.{Bool, false, Option, none}
use edge_telemetry_daemon.Shared.Text.{Bytes}
use edge_telemetry_daemon.Collector.{CpuStats}
use edge_telemetry_daemon.Collector.Mem.{MemStats}

-- An error is `none`.
pub collect_cpu : Bytes → Option CpuStats
collect_cpu dir = none

pub collect_mem : Bytes → MemStats → MemStats × Bool
collect_mem dir out = (out, false)
