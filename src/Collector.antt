-- ===== src/Collector.antt =====
-- internal/collector/cpu_linux.go: the first line of /proc/stat. An error is `none`, since the
-- callers only ask whether there is one.
pub mod Fields
pub mod Generator
pub mod Mem
pub mod Other
mod Tests
use mathlib.Core.Option
use edge_telemetry_daemon.Shared.{
  ℕ, zero, suc, ◌+◌, ◌-◌, ◌*◌, ◌%◌, Bool, true, false, ◌&&◌, ◌||◌, Option, none, some, List, [],
  ◌∷◌, if◌then◌else◌, leb, ◌==◌, add64, u64_mod,
}
use edge_telemetry_daemon.Shared.Text.{Bytes, codes}
use edge_telemetry_daemon.KernelFile.{Os, FileResult, contents, read_kernel_file}
use edge_telemetry_daemon.Shared.Scan.{is_blank, read_digits, skip_while}

pub record CpuStats : Type 0 where
  pub user : ℕ
  pub nice : ℕ
  pub system : ℕ
  pub idle : ℕ
  pub iowait : ℕ
  pub irq : ℕ
  pub softirq : ℕ
  pub steal : ℕ
  pub guest : ℕ
  pub guest_n : ℕ
  pub total : ℕ

unfoldable pub is_space : ℕ → Bool
unfolding is_blank
is_space c = is_blank c || (c == 10 || c == 13)

unfoldable pub next_uint : Bytes → Option (Bytes × ℕ)
next_uint b =
    let (any, (val, rest)) = read_digits false 0 b in
    if any then some (skip_while is_space rest, val) else none

unfoldable pub skip_word : Bytes → Bytes
skip_word [] = []
skip_word (c ∷ b) = elim (is_blank c) [ true ↦ c ∷ b | false ↦ skip_word b ]

unfoldable pub rest_or_none : Bytes → Option Bytes
rest_or_none [] = none
rest_or_none (c ∷ b) = some (c ∷ b)

unfoldable pub skip_token : Bytes → Option Bytes
skip_token line = rest_or_none (skip_while is_blank (skip_word line))

-- The loop over the targets, for as many as are left, with the total so far.
unfoldable pub read_fields : ℕ → ℕ → Bytes → Option (List ℕ × ℕ)
read_fields zero total b = some ([], total)
read_fields (suc n) total b = elim (next_uint b) [
  | none ↦ none
  | some r ↦ elim (read_fields n (add64 total r.1) r.0) [
    | none ↦ none
    | some s ↦ some (r.1 ∷ s.0, s.1)
  ]
]

-- The targets, in their order.
unfoldable pub stats_of : List ℕ → ℕ → Option CpuStats
stats_of (a ∷ b ∷ c ∷ d ∷ e ∷ f ∷ g ∷ h ∷ i ∷ j ∷ []) total = some (record {
  user = a;
  nice = b;
  system = c;
  idle = d;
  iowait = e;
  irq = f;
  softirq = g;
  steal = h;
  guest = i;
  guest_n = j;
  total = total;
})
stats_of _ total = none

unfoldable pub parse_cpu_line : Bytes → Option CpuStats
parse_cpu_line line = elim (skip_token line) [
  | none ↦ none
  | some rest ↦ elim (read_fields 10 0 rest) [ none ↦ none | some s ↦ stats_of s.0 s.1 ]
]

-- What `scrapeProcPath` makes of the file.
unfoldable pub parse_stat : FileResult → Option CpuStats
parse_stat (contents line) = parse_cpu_line line
parse_stat _ = none

-- `CollectCPU` with `scrapeProcPath`: a path of 255 bytes at most, 512 bytes of the file.
unfoldable pub collect_cpu : Os → Bytes → Option CpuStats
collect_cpu os dir = parse_stat (read_kernel_file os 256 512 dir (codes "stat"))
