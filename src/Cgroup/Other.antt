-- ===== src/Cgroup/Other.antt =====
-- internal/cgroup/cgroup_other.go: the controller of systems other than Linux, which does nothing.
use edge_telemetry_daemon.Shared.{Bool, true, Option, none}
use edge_telemetry_daemon.Shared.Text.{Bytes}
use edge_telemetry_daemon.Cgroup.Stat.{CpuStat}

pub data Mode : Type 0 where
  mode_quiescent mode_burst : Mode

pub record Controller : Type 0 where
  pub cgroup_root : Bytes

pub new_controller : Bytes → Controller
new_controller root = record { cgroup_root = root }

-- The flag says that the error is nil.
pub set_burst : Controller → Controller × Bool
set_burst c = (c, true)

pub set_quiescent : Controller → Controller × Bool
set_quiescent c = (c, true)

pub mode_of : Controller → Mode
mode_of c = mode_quiescent

-- An error is `none`.
pub read_cpu_stat : Controller → Option CpuStat
read_cpu_stat c = none

pub is_read_only : Controller → Bool
is_read_only c = true
