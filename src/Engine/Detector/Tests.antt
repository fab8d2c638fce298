-- ===== src/Engine/Detector/Tests.antt =====
-- Runs of the detector over whole numbers, and the theorems about it at concrete inputs.
use edge_telemetry_daemon.Shared.{
  ◌+◌, ◌%◌, ◌≡◌, refl, arith, true, false, some, none, List, [], ◌∷◌, length, u64_mod,
}
use edge_telemetry_daemon.Shared.Int.{pos}
use edge_telemetry_daemon.Shared.Fixed.{Fixed, fixed, fixed-IsOrdered}
use edge_telemetry_daemon.Engine.Ewma
use edge_telemetry_daemon.Engine.Stats
use edge_telemetry_daemon.Engine.Alpha.{InUnit, clamp_alpha-InUnit}
use edge_telemetry_daemon.Engine.Detector.{
  ZScoreDetector, new_detector, update, judge, score, drift_of, reset,
}
use edge_telemetry_daemon.Engine.Detector.Trackers.{
  update_all, usable, feed_stats, feed_ewma, cpus, mems, update_all-trackers,
}
use edge_telemetry_daemon.Engine.Detector.WarmUp.{update-warm_up}
use edge_telemetry_daemon.Engine.Detector.Reset.{reset-update_all}

-- Smoothing 1, and three samples of warm-up.
abbrev det : ZScoreDetector Fixed
det = new_detector (some (pos 1)) (some (pos 1)) 3 (some (pos 4)) (some (pos 1))

abbrev calm : Fixed × Fixed
calm = (some (pos 10), some (pos 20))

-- Two usable readings and one with NaN.
abbrev readings : List (Fixed × Fixed)
readings = calm ∷ (none, some (pos 20)) ∷ calm ∷ []

abbrev warm : ZScoreDetector Fixed
warm = update_all det (calm ∷ calm ∷ calm ∷ [])

-- After the warm-up a jump is an anomaly, and the same reading again is none.
jump_is_anomalous :
    ((update warm (some (pos 90)) (some (pos 20))).1 ≡ true)
    × ((update warm (some (pos 10)) (some (pos 20))).1 ≡ false)
unfolding new_detector update judge score drift_of Stats.update Ewma.update Stats.mean_of
    Stats.std_dev Ewma.value_of Stats.new_streaming_stats Ewma.new_ewma
jump_is_anomalous = (refl, refl)

det-n : det.n ≡ 0
unfolding new_detector
det-n = refl

update_all-trackers_example :
    let d' = update_all det readings in
    let taken = usable readings in
    (d' ≡ update_all det taken)
    × (d'.cpu_stats ≡ feed_stats det.cpu_stats (cpus taken))
    × (d'.mem_stats ≡ feed_stats det.mem_stats (mems taken))
    × (d'.cpu_slow ≡ feed_ewma det.cpu_slow (cpus taken))
    × (d'.mem_slow ≡ feed_ewma det.mem_slow (mems taken))
    × (d'.n ≡ (det.n + length taken) % u64_mod)
update_all-trackers_example = update_all-trackers det readings (omega (arith, det-n))

det-min_samples : det.min_samples ≡ 3
unfolding new_detector
det-min_samples = refl

usable-length : length (usable readings) ≡ 2
usable-length = refl

update-warm_up_example :
    (update (update_all det readings) (some (pos 90)) (some (pos 90))).1 ≡ false
update-warm_up_example =
    update-warm_up fixed-IsOrdered (some (pos 1)) (some (pos 1)) 3 (some (pos 4)) (some (pos 1))
      readings (some (pos 90)) (some (pos 90)) (omega (arith, det-min_samples))
      (omega (arith, det-min_samples, usable-length))

reset-update_all_example : reset (update_all det readings) ≡ det
reset-update_all_example =
    reset-update_all (some (pos 1)) (some (pos 1)) 3 (some (pos 4)) (some (pos 1)) readings

clamp_alpha-InUnit_example :
    InUnit fixed-IsOrdered (Ewma.clamp_alpha (some (pos 7)))
    × (Stats.clamp_alpha (some (pos 7)) ≡ Ewma.clamp_alpha (some (pos 7)))
clamp_alpha-InUnit_example = clamp_alpha-InUnit fixed-IsOrdered (some (pos 7)) refl
