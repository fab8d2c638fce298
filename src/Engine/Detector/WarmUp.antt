-- ===== src/Engine/Detector/WarmUp.antt =====
-- While the detector warms up it reports nothing.
use edge_telemetry_daemon.Shared.{
  ℕ, ◌+◌, ◌≤◌, ◌<◌, ◌≡◌, refl, Bool, false, arith, List, length, if_ind, ltb, ltb→lt, inc64,
  u64_mod,
}
use edge_telemetry_daemon.Shared.Float.{Float, IsOrdered, nought}
use edge_telemetry_daemon.Engine.Detector.{
  ZScoreDetector, unusable, score, judge, update, new_detector,
}
use edge_telemetry_daemon.Engine.Detector.Trackers.{
  update_all, usable, update_all-trackers, update_all-config,
}

module _ {ℓ} {F : Type ℓ} ⦃f : Float F⦄ (laws : IsOrdered f) where
  -- The constructor leaves no threshold that zero reaches.
  threshold_pos :
      (a s : F) (k : ℕ) (t dt : F) → f.le (new_detector a s k t dt).threshold nought ≡ false
  unfolding new_detector
  threshold_pos a s k t dt =
      if_ind (λ t'. f.le t' nought ≡ false) (f.le t nought) (λ _. laws.literal_pos 6 1) (λ e. e)

  new-n : (a s : F) (k : ℕ) (t dt : F) → (new_detector a s k t dt).n ≡ 0
  unfolding new_detector
  new-n a s k t dt = refl

  score_early : (d : ZScoreDetector F) (c m : F) → d.n ≤ d.min_samples → score d c m ≡ nought
  unfolding score
  score_early d c m h =
      if_ind (λ x. x ≡ nought) (ltb d.min_samples d.n)
        (λ late. absurd (omega (arith, ltb→lt d.min_samples d.n late))) (λ _. refl)

  judge_early :
      (d : ZScoreDetector F)
      → f.le d.threshold nought ≡ false
      → d.zscore ≡ nought
      → (judge d).1 ≡ false
  unfolding judge
  judge_early d t z =
      if_ind (λ (r : ZScoreDetector F × Bool). r.1 ≡ false) (ltb d.n d.min_samples) (λ _. refl)
        (λ _. rw z t)

  update_early :
      (d : ZScoreDetector F) (c m : F)
      → f.le d.threshold nought ≡ false
      → d.n + 1 ≤ d.min_samples
      → d.min_samples < u64_mod
      → (update d c m).1 ≡ false
  unfolding update
  update_early d c m t h k =
      if_ind (λ (r : ZScoreDetector F × Bool). r.1 ≡ false) (unusable c m) (λ _. refl)
        (λ _. judge_early _ t (score_early (record d { n = inc64 d.n }) c m (omega arith)))

  -- A detector that was built by the constructor reports no anomaly for its first `min_samples`
  -- usable readings, whatever its parameters and the readings are.
  pub update-warm_up :
      (a s : F) (k : ℕ) (t dt : F) (xs : List (F × F)) (c m : F)
      → (new_detector a s k t dt).min_samples < u64_mod
      → length (usable xs) + 1 ≤ (new_detector a s k t dt).min_samples
      → (update (update_all (new_detector a s k t dt) xs) c m).1 ≡ false
  update-warm_up a s k t dt xs c m small h =
      let d = new_detector a s k t dt in
      let tracked = update_all-trackers d xs (omega (arith, new-n a s k t dt)) in
      let kept = update_all-config d xs in
      update_early (update_all d xs) c m (rw kept.1 (threshold_pos a s k t dt))
        (omega (arith, new-n a s k t dt, tracked.4, kept.0)) (omega (arith, kept.0))
