-- ===== src/Shared/Time.antt =====
-- `time.Time` and `time.Duration` as far as the program uses them. An instant is its distance in
-- nanoseconds from the zero `time.Time`; all instants are of one clock.
use Prim.Native.Nat.{ℕ, ◌*◌}
use mathlib.Core.Bool.{Bool, ◌&&◌}
use edge_telemetry_daemon.Shared.Tests.{if◌then◌else◌}
use edge_telemetry_daemon.Shared.Int.{ℤ, pos, ◌-ℤ◌, leb_ℤ, ltb_ℤ, min_int, max_int}

abbrev pub Time : Type 0
Time = ℤ

abbrev pub Duration : Type 0
Duration = ℤ

abbrev pub zero_time : Time
zero_time = pos 0

-- `t.IsZero()`
abbrev pub is_zero : Time → Bool
is_zero t = leb_ℤ t zero_time && leb_ℤ zero_time t

-- `t.Sub(u)`, which stops at the least and the greatest duration
unfoldable pub time_sub : Time → Time → Duration
unfolding ◌-ℤ◌
time_sub t u =
    let d = t -ℤ u in if ltb_ℤ max_int d then max_int else if ltb_ℤ d min_int then min_int else d

abbrev pub millisecond : ℕ
millisecond = 1_000_000

abbrev pub second : ℕ
second = 1000 * millisecond
