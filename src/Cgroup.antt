-- ===== src/Cgroup.antt =====
-- internal/cgroup/cgroup.go: the controller of the daemon's CPU quota. The file cpu.max is the
-- state beside the controller's; whether a write succeeds is an argument.
pub mod Quota
pub mod Discover
pub mod Other
pub mod Stat
mod Tests
use edge_telemetry_daemon.Shared.{
  Bool, true, false, ◌&&◌, ◌||◌, Option, none, some, ◌++◌, if◌then◌else◌, ◌*◌, ℕ,
}
use edge_telemetry_daemon.Cgroup.Discover.{Files, discover_cgroup_path}
use edge_telemetry_daemon.Shared.Int.{ℤ, pos}
use edge_telemetry_daemon.Shared.Text.{Bytes, codes}

pub data Mode : Type 0 where
  mode_quiescent mode_burst : Mode

pub is_mode : Mode → Mode → Bool
is_mode mode_quiescent mode_quiescent = true
is_mode mode_burst mode_burst = true
is_mode _ _ = false

-- `cpu_max` is what the last write of cpu.max that succeeded put there.
pub record Controller : Type 0 where
  pub cgroup_root : Bytes
  pub mode : Mode
  pub has_mode : Bool
  pub read_only : Bool
  pub cpu_max : Option Bytes

-- `NewController`
unfoldable pub new_controller : Files → Bytes → Controller
new_controller fs provided = record {
  cgroup_root = discover_cgroup_path fs provided;
  mode = mode_quiescent;
  has_mode = false;
  read_only = fs.cannot_write (fs.join (discover_cgroup_path fs provided) (codes "cpu.max"));
  cpu_max = none;
}

abbrev pub burst_quota : Bytes
burst_quota = codes "max 100000\n"

-- `strconv.Itoa(runtime.NumCPU()*5000) + " 100000\n"`, from the number of CPUs and Itoa.
pub quiescent_quota : ℕ → (ℤ → Bytes) → Bytes
quiescent_quota num_cpu itoa = itoa (pos (num_cpu * 5000)) ++ codes " 100000\n"

-- The body of both setters. The flag says that the error is nil.
pub set_mode : Mode → Bytes → Bool → Controller → Controller × Bool
set_mode m quota write_succeeds c =
    if c.read_only || (c.has_mode && is_mode c.mode m)
    then (c, true)
    else if write_succeeds
    then (record c { mode = m; has_mode = true; cpu_max = some quota }, true)
    else (c, false)

pub set_burst : Bool → Controller → Controller × Bool
set_burst = set_mode mode_burst burst_quota

pub set_quiescent : Bytes → Bool → Controller → Controller × Bool
set_quiescent quota = set_mode mode_quiescent quota

pub mode_of : Controller → Mode
mode_of c = c.mode

-- `String` of a mode
pub mode_name : Mode → Bytes
mode_name mode_quiescent = codes "quiescent"
mode_name mode_burst = codes "burst"

unfoldable pub is_read_only : Controller → Bool
is_read_only c = c.read_only
