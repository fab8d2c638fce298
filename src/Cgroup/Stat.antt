-- ===== src/Cgroup/Stat.antt =====
-- internal/cgroup/cgroup.go: the parser of cpu.stat.
pub mod RoundTrip
mod Tests
use mathlib.Core.Option
use edge_telemetry_daemon.Shared.{ℕ, Option, none, some, if◌then◌else◌, length}
use edge_telemetry_daemon.Shared.Text.{Bytes, codes, equal}
use edge_telemetry_daemon.KernelFile.{Os, FileResult, contents, read_kernel_file}
use edge_telemetry_daemon.Shared.Scan.{scan_lines, read_entry}

pub record CpuStat : Type 0 where
  pub usage_usec : ℕ
  pub nr_periods : ℕ
  pub nr_throttled : ℕ
  pub throttled_usec : ℕ

-- The cases of the switch, by the field that each assigns.
pub data StatField : Type 0 where
  of_usage_usec of_nr_periods of_nr_throttled of_throttled_usec : StatField

-- The switch on the key: `none` is `default`.
pub field_of : Bytes → Option StatField
field_of key =
    if equal key (codes "usage_usec")
    then some of_usage_usec
    else if equal key (codes "nr_periods")
    then some of_nr_periods
    else if equal key (codes "nr_throttled")
    then some of_nr_throttled
    else if equal key (codes "throttled_usec")
    then some of_throttled_usec
    else none

pub assign : StatField → ℕ → CpuStat → CpuStat
assign of_usage_usec v out = record out { usage_usec = v }
assign of_nr_periods v out = record out { nr_periods = v }
assign of_nr_throttled v out = record out { nr_throttled = v }
assign of_throttled_usec v out = record out { throttled_usec = v }

-- The switch.
pub store : Option StatField → ℕ → CpuStat → CpuStat
store none value stat = stat
store (some f) value stat = assign f value stat

-- A round of the loop over the lines.
pub stat_line : Bytes → CpuStat → CpuStat
stat_line raw stat = elim (read_entry 32 raw) [
  | none ↦ stat
  | some (key, value) ↦ store (field_of key) value stat
]

abbrev pub zero_stat : CpuStat
zero_stat = record { usage_usec = 0; nr_periods = 0; nr_throttled = 0; throttled_usec = 0 }

-- The error is always nil.
pub parse_cpu_stat : Bytes → CpuStat
parse_cpu_stat bytes = scan_lines stat_line (length bytes) bytes zero_stat

-- What `ReadCPUStat` makes of the file; an error is `none`.
pub parse_file : FileResult → Option CpuStat
parse_file (contents bytes) = some (parse_cpu_stat bytes)
parse_file _ = none

-- `ReadCPUStat`: a path of 4095 bytes at most, 4096 bytes of the file.
pub read_cpu_stat : Os → Bytes → Option CpuStat
read_cpu_stat os root = parse_file (read_kernel_file os 4096 4096 root (codes "cpu.stat"))
