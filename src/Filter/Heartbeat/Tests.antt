-- ===== src/Filter/Heartbeat/Tests.antt =====
-- Runs of the aggregator over whole numbers, and its theorems at concrete inputs.
use edge_telemetry_daemon.Shared.{
  ℕ, ◌%◌, ◌≡◌, refl, Bool, true, false, some, List, [], ◌∷◌, length, u64_mod,
}
use edge_telemetry_daemon.Shared.Int.{pos}
use edge_telemetry_daemon.Shared.Float.{nought}
use edge_telemetry_daemon.Shared.Fixed.{Fixed, fixed, fixed-IsOrdered}
use edge_telemetry_daemon.Filter.Heartbeat.{HeartbeatAggregator, new_aggregator, observe, flush}
use edge_telemetry_daemon.Filter.Heartbeat.Window.{
  Sample, count_of, vals, observe_all, sum_onto, IsFresh, flush-observe_all,
}
use edge_telemetry_daemon.Filter.Heartbeat.Extremes.{All, Has, flush-extremes}

abbrev h : HeartbeatAggregator Fixed
h = new_aggregator (pos 5) (pos 100)

abbrev sample : ℕ → Bool → Sample Fixed
sample n b = record { val = some (pos n); anomalous = b; suppressed = false }

abbrev samples : List (Sample Fixed)
samples = sample 4 true ∷ sample 2 false ∷ sample 9 true ∷ []

summary :
    ((flush (observe_all h samples) (pos 105)).0.min_val ≡ some (pos 2))
    × ((flush (observe_all h samples) (pos 105)).0.max_val ≡ some (pos 9))
unfolding flush observe new_aggregator
summary = (refl, refl)

h-IsFresh : IsFresh h
unfolding new_aggregator
h-IsFresh = record {
  no_samples = refl;
  no_anomalies = refl;
  no_suppressed = refl;
  no_sum = refl;
  no_val = refl;
}

flush-observe_all_example :
    let (s, next) = flush (observe_all h samples) (pos 105) in
    (s.total_samples ≡ length samples % u64_mod)
    × (s.anomalous_count ≡ count_of (λ x. x.anomalous) samples % u64_mod)
    × (s.suppressed_count ≡ count_of (λ x. x.suppressed) samples % u64_mod)
    × (s.sum_val ≡ sum_onto nought (vals samples))
    × (s.start_time ≡ h.window_start)
    × (s.end_time ≡ pos 105)
    × IsFresh next
    × (next.window_start ≡ pos 105)
flush-observe_all_example = flush-observe_all h samples (pos 105) h-IsFresh

flush-extremes_example :
    let s = (flush (observe_all h samples) (pos 105)).0 in
    Has s.min_val (vals samples)
    × All (λ y. fixed.le s.min_val y ≡ true) (vals samples)
    × Has s.max_val (vals samples)
    × All (λ y. fixed.le y s.max_val ≡ true) (vals samples)
flush-extremes_example =
    flush-extremes fixed-IsOrdered h (sample 4 true) (sample 2 false ∷ sample 9 true ∷ []) (pos 105)
      h-IsFresh (refl, (refl, (refl, tt)))
