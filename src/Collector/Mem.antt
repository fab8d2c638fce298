-- ===== src/Collector/Mem.antt =====
-- internal/collector/mem_linux.go: the parser of /proc/meminfo.
pub mod RoundTrip
mod Tests
use mathlib.Core.Option
use edge_telemetry_daemon.Shared.{
  ℕ, ◌+◌, Bool, true, false, not, Option, none, some, if◌then◌else◌, ◌==◌, length,
}
use edge_telemetry_daemon.Shared.Text.{Bytes, codes, equal}
use edge_telemetry_daemon.KernelFile.{Os, FileResult, contents, read_kernel_file}
use edge_telemetry_daemon.Shared.Scan.{scan_lines, read_entry}

pub record MemStats : Type 0 where
  pub mem_total : ℕ
  pub mem_free : ℕ
  pub mem_available : ℕ
  pub buffers : ℕ
  pub cached : ℕ
  pub swap_total : ℕ
  pub swap_free : ℕ

-- The cases of the switch, by the field that each assigns.
pub data MemField : Type 0 where
  of_mem_total of_mem_free of_mem_available of_buffers of_cached of_swap_total of_swap_free :
      MemField

-- The switch on the key: `none` is `default`.
pub field_of : Bytes → Option MemField
field_of key =
    if equal key (codes "MemTotal")
    then some of_mem_total
    else if equal key (codes "MemFree")
    then some of_mem_free
    else if equal key (codes "MemAvailable")
    then some of_mem_available
    else if equal key (codes "Buffers")
    then some of_buffers
    else if equal key (codes "Cached")
    then some of_cached
    else if equal key (codes "SwapTotal")
    then some of_swap_total
    else if equal key (codes "SwapFree")
    then some of_swap_free
    else none

pub assign : MemField → ℕ → MemStats → MemStats
assign of_mem_total v out = record out { mem_total = v }
assign of_mem_free v out = record out { mem_free = v }
assign of_mem_available v out = record out { mem_available = v }
assign of_buffers v out = record out { buffers = v }
assign of_cached v out = record out { cached = v }
assign of_swap_total v out = record out { swap_total = v }
assign of_swap_free v out = record out { swap_free = v }

-- The switch and what follows it, with the number of fields seen.
pub store : Option MemField → ℕ → MemStats × ℕ → MemStats × ℕ
store none value s = s
store (some f) value (out, seen) = (assign f value out, seen + 1)

-- A round of the loop over the lines.
pub mem_line : Bytes → MemStats × ℕ → MemStats × ℕ
mem_line raw s = elim (read_entry 58 raw) [
  | none ↦ s
  | some (key, value) ↦ store (field_of key) value s
]

-- What `out` holds afterwards, and whether the error is nil. A field that no line names stays.
pub parse_mem_info : Bytes → MemStats → MemStats × Bool
parse_mem_info bytes out =
    let (out', seen) = scan_lines mem_line (length bytes) bytes (out, 0) in (out', not (seen == 0))

-- What `CollectMem` makes of the file: it must not fill the buffer.
unfoldable pub parse_file : FileResult → MemStats → MemStats × Bool
parse_file (contents bytes) out =
    if length bytes == 4096 then (out, false) else parse_mem_info bytes out
parse_file _ out = (out, false)

-- `CollectMem`: a path of 255 bytes at most, 4096 bytes of the file.
unfoldable pub collect_mem : Os → Bytes → MemStats → MemStats × Bool
collect_mem os dir out = parse_file (read_kernel_file os 256 4096 dir (codes "meminfo")) out
