-- ===== src/Engine/Detector/Reset.antt =====
-- `Reset` of the detector and of its trackers.
use edge_telemetry_daemon.Shared.{◌≡◌, ℕ, refl, ◌∙◌, Bool, List, [], ◌∷◌, if_ind, ltb, inc64}
use edge_telemetry_daemon.Shared.Float.{Float}
use edge_telemetry_daemon.Engine.Ewma
use edge_telemetry_daemon.Engine.Ewma.{Ewma}
use edge_telemetry_daemon.Engine.Stats
use edge_telemetry_daemon.Engine.Stats.{StreamingStats}
use edge_telemetry_daemon.Engine.Detector.{
  ZScoreDetector, unusable, judge, update, reset, new_detector, track, drift,
}
use edge_telemetry_daemon.Engine.Detector.Trackers.{update_all}

module _ {ℓ} {F : Type ℓ} ⦃f : Float F⦄ where
  reset-Ewma : (e : Ewma F) (x : F) → Ewma.reset (Ewma.update e x) ≡ Ewma.reset e
  unfolding Ewma.reset Ewma.update
  reset-Ewma e x =
      if_ind (λ (r : Ewma F). Ewma.reset r ≡ Ewma.reset e) e.init (λ _. refl) (λ _. refl)

  reset-Stats : (s : StreamingStats F) (x : F) → Stats.reset (Stats.update s x) ≡ Stats.reset s
  unfolding Stats.reset Stats.update
  reset-Stats s x =
      if_ind (λ (r : StreamingStats F). Stats.reset r ≡ Stats.reset s) s.init (λ _. refl)
        (λ _. refl)

  reset-judge : (d : ZScoreDetector F) → reset (judge d).0 ≡ reset d
  unfolding judge reset
  reset-judge d =
      if_ind (λ (r : ZScoreDetector F × Bool). reset r.0 ≡ reset d) (ltb d.n d.min_samples)
        (λ _. refl) (λ _. refl)

  reset-track : (d : ZScoreDetector F) (c m : F) → reset (track d c m) ≡ reset d
  unfolding reset
  reset-track d c m = λ i. record (reset d) {
    cpu_stats = reset-Stats d.cpu_stats c i;
    mem_stats = reset-Stats d.mem_stats m i;
    cpu_slow = reset-Ewma d.cpu_slow c i;
    mem_slow = reset-Ewma d.mem_slow m i;
  }

  reset-drift : (d : ZScoreDetector F) → reset (drift d) ≡ reset d
  unfolding reset
  reset-drift d = refl

  reset-n : (d : ZScoreDetector F) (k : ℕ) → reset (record d { n = k }) ≡ reset d
  unfolding reset
  reset-n d k = refl

  reset-update : (d : ZScoreDetector F) (c m : F) → reset (update d c m).0 ≡ reset d
  unfolding update
  reset-update d c m =
      if_ind (λ (r : ZScoreDetector F × Bool). reset r.0 ≡ reset d) (unusable c m) (λ _. refl)
        (λ _.
          reset-judge _
          ∙ reset-drift _
          ∙ reset-track (record d { n = inc64 d.n }) c m
          ∙ reset-n d (inc64 d.n))

  -- However a detector was used, `Reset` brings back the one that its constructor built.
  pub reset-update_all :
      (a s : F) (k : ℕ) (t dt : F) (xs : List (F × F))
      → reset (update_all (new_detector a s k t dt) xs) ≡ new_detector a s k t dt
  reset-update_all a s k t dt xs = all (new_detector a s k t dt) xs ∙ fresh
    where
      all : (d : ZScoreDetector F) (xs : List (F × F)) → reset (update_all d xs) ≡ reset d
      all d [] = refl
      all d ((c, m) ∷ xs) = all (update d c m).0 xs ∙ reset-update d c m

      fresh : reset (new_detector a s k t dt) ≡ new_detector a s k t dt
      fresh =
          unfold reset new_detector Stats.reset Ewma.reset Stats.new_streaming_stats
            Ewma.new_ewma in
          refl
