-- ===== src/Metrics/Tests.antt =====
-- Two threads that add to a gauge, and the theorems there.
use edge_telemetry_daemon.Shared.{ℕ, ◌+◌, ◌≡◌, refl, List}
use edge_telemetry_daemon.Shared.Int.{pos}
use edge_telemetry_daemon.Shared.Fixed.{Fixed, fixed}
use edge_telemetry_daemon.Shared.Int.{pos_part}
use mathlib.Core.Option.{some, none}
use native.Mathlib.Decide.{ℕ_discrete}
use edge_telemetry_daemon.Metrics.{FloatBits, Metric, gauge, add_value, float64_value, new_bits}
use edge_telemetry_daemon.Metrics.Adders.{
  Gauge, Reach, here, next, load, swap, after_swap, loaded, update, begin, added, Logged, count,
  times, Contended,
}
use edge_telemetry_daemon.Metrics.Adders.Order.{Reach-added}
use edge_telemetry_daemon.Metrics.Adders.Progress.{alone, adder_finishes}

abbrev whole_bits : FloatBits Fixed
whole_bits = record {
  bits = λ x. elim x as (λ _. ℕ) [ none ↦ 0 | some a ↦ pos_part a ];
  from_bits = λ n. some (pos n);
}

abbrev level : Metric
level = record { name = List.[]; help = List.[]; type = gauge; val_bits = 5 }

added_once : float64_value whole_bits (add_value whole_bits level 3) ≡ some (pos 8)
unfolding float64_value add_value new_bits
added_once = refl

abbrev start : Gauge
start = begin 5 (λ i. i + 2)

abbrev first : Gauge
first = record start { adders = update start.adders 0 (loaded 2 5 0) }

abbrev both : Gauge
both = record first { adders = update first.adders 1 (loaded 3 5 0) }

-- Both threads load the word 5, then the first one swaps.
run : Reach whole_bits start (after_swap whole_bits both 0 2 5)
unfolding ℕ_discrete
run = next (next (next here (load start 0 2 refl)) (load first 1 3 refl)) (swap both 0 2 5 0 refl)

Reach-added_example :
    let g = after_swap whole_bits both 0 2 5 in
    (g.word ≡ added whole_bits 5 g.log)
    × Logged (λ i. i + 2) g.log
    × ((i : ℕ) → count i g.log ≡ times (g.adders i))
Reach-added_example = Reach-added whole_bits 5 (λ i. i + 2) run

adder_finishes_example :
    let g = after_swap whole_bits both 0 2 5 in
    Reach whole_bits g (alone whole_bits 3 1 g)
    × (times ((alone whole_bits 3 1 g).adders 1) ≡ 1)
    × Contended g (g.adders 1)
adder_finishes_example = adder_finishes whole_bits 5 (λ i. i + 2) 1 run
