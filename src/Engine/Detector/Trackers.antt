-- ===== src/Engine/Detector/Trackers.antt =====
-- The detector as four independent trackers over the readings that it takes.
use edge_telemetry_daemon.Shared.{
  ℕ, ◌+◌, ◌%◌, ◌<◌, ◌≡◌, refl, ap, ◌∙◌, Bool, arith, List, [], ◌∷◌, length, map, if◌then◌else◌,
  if_ind, ltb, inc64, u64_mod, false, not, ◌&&◌,
}
use edge_telemetry_daemon.Shared.Float.{Float}
use edge_telemetry_daemon.Engine.Ewma
use edge_telemetry_daemon.Engine.Ewma.{Ewma}
use edge_telemetry_daemon.Engine.Stats
use edge_telemetry_daemon.Engine.Stats.{StreamingStats}
use edge_telemetry_daemon.Engine.Detector.{ZScoreDetector, unusable, judge, update}

-- The part of the detector that readings are folded into, and what it is configured with.
pub record View {ℓ} (F : Type ℓ) : Type ℓ where
  pub cpu_stats : StreamingStats F
  pub mem_stats : StreamingStats F
  pub cpu_slow : Ewma F
  pub mem_slow : Ewma F
  pub n : ℕ
  pub min_samples : ℕ
  pub threshold : F
  pub drift_threshold : F

abbrev pub view {ℓ} : {F : Type ℓ} → ZScoreDetector F → View F
view d = record {
  cpu_stats = d.cpu_stats;
  mem_stats = d.mem_stats;
  cpu_slow = d.cpu_slow;
  mem_slow = d.mem_slow;
  n = d.n;
  min_samples = d.min_samples;
  threshold = d.threshold;
  drift_threshold = d.drift_threshold;
}

module _ {ℓ} {F : Type ℓ} ⦃f : Float F⦄ where
  open f use {is_nan, is_inf}

  -- The readings in order, CPU and memory.
  abbrev pub update_all : ZScoreDetector F → List (F × F) → ZScoreDetector F
  update_all d [] = d
  update_all d ((c, m) ∷ xs) = update_all (update d c m).0 xs

  abbrev is_finite : F → Bool
  is_finite x = not (is_nan x) && not (is_inf x)

  -- The readings of which both numbers are finite.
  abbrev pub usable : List (F × F) → List (F × F)
  usable [] = []
  usable ((c, m) ∷ xs) = if is_finite c && is_finite m then (c, m) ∷ usable xs else usable xs

  unusable-not : (c m : F) → unusable c m ≡ not (is_finite c && is_finite m)
  unfolding unusable
  unusable-not c m = ground arith

  update-not_finite :
      (d : ZScoreDetector F) (c m : F)
      → (is_finite c && is_finite m) ≡ false
      → update d c m ≡ (d, false)
  unfolding update
  update-not_finite d c m bad = rw (unusable-not c m) (rw bad refl)

  -- A reading with a number that is not finite is no reading for the detector.
  update_all-usable :
      (d : ZScoreDetector F) (xs : List (F × F)) → update_all d xs ≡ update_all d (usable xs)
  update_all-usable d [] = refl
  update_all-usable d ((c, m) ∷ xs) =
      if_ind (λ (ys : List (F × F)). update_all (update d c m).0 xs ≡ update_all d ys)
        (is_finite c && is_finite m) (λ good. update_all-usable (update d c m).0 xs)
        (λ bad.
          ap (λ (r : ZScoreDetector F × Bool). update_all r.0 xs) (update-not_finite d c m bad)
          ∙ update_all-usable d xs)

  abbrev pub feed_stats : StreamingStats F → List F → StreamingStats F
  feed_stats s [] = s
  feed_stats s (x ∷ xs) = feed_stats (Stats.update s x) xs

  abbrev pub feed_ewma : Ewma F → List F → Ewma F
  feed_ewma e [] = e
  feed_ewma e (x ∷ xs) = feed_ewma (Ewma.update e x) xs

  abbrev pub cpus : List (F × F) → List F
  cpus = map (λ x. x.0)

  abbrev pub mems : List (F × F) → List F
  mems = map (λ x. x.1)

  -- One reading, tracker by tracker.
  abbrev step : View F → F → F → View F
  step v c m = record v {
    cpu_stats = Stats.update v.cpu_stats c;
    mem_stats = Stats.update v.mem_stats m;
    cpu_slow = Ewma.update v.cpu_slow c;
    mem_slow = Ewma.update v.mem_slow m;
    n = inc64 v.n;
  }

  abbrev fold : View F → List (F × F) → View F
  fold v [] = v
  fold v ((c, m) ∷ xs) = fold (step v c m) xs

  view-judge : (d : ZScoreDetector F) → view (judge d).0 ≡ view d
  unfolding judge
  view-judge d =
      if_ind (λ (r : ZScoreDetector F × Bool). view r.0 ≡ view d) (ltb d.n d.min_samples)
        (λ _. refl) (λ _. refl)

  view-update :
      (d : ZScoreDetector F) (c m : F)
      → view (update d c m).0 ≡ (if is_finite c && is_finite m then step (view d) c m else view d)
  unfolding update
  view-update d c m =
      if_ind (λ (v : View F). view (update d c m).0 ≡ v) (is_finite c && is_finite m)
        (λ good. rw (unusable-not c m) (rw good (view-judge _)))
        (λ bad. ap (λ (r : ZScoreDetector F × Bool). view r.0) (update-not_finite d c m bad))

  view-update_all :
      (d : ZScoreDetector F) (xs : List (F × F))
      → view (update_all d xs) ≡ fold (view d) (usable xs)
  view-update_all d [] = refl
  view-update_all d ((c, m) ∷ xs) =
      view-update_all (update d c m).0 xs
      ∙ ap (λ v. fold v (usable xs)) (view-update d c m)
      ∙ if_ind
          (λ xs'.
            fold (if is_finite c && is_finite m then step (view d) c m else view d) (usable xs)
            ≡ fold (view d) xs')
          (is_finite c && is_finite m) (λ good. rw good) (λ bad. rw bad)

  fold-cpu_stats :
      (v : View F) (xs : List (F × F)) → (fold v xs).cpu_stats ≡ feed_stats v.cpu_stats (cpus xs)
  fold-cpu_stats v [] = refl
  fold-cpu_stats v ((c, m) ∷ xs) = fold-cpu_stats (step v c m) xs

  fold-mem_stats :
      (v : View F) (xs : List (F × F)) → (fold v xs).mem_stats ≡ feed_stats v.mem_stats (mems xs)
  fold-mem_stats v [] = refl
  fold-mem_stats v ((c, m) ∷ xs) = fold-mem_stats (step v c m) xs

  fold-cpu_slow :
      (v : View F) (xs : List (F × F)) → (fold v xs).cpu_slow ≡ feed_ewma v.cpu_slow (cpus xs)
  fold-cpu_slow v [] = refl
  fold-cpu_slow v ((c, m) ∷ xs) = fold-cpu_slow (step v c m) xs

  fold-mem_slow :
      (v : View F) (xs : List (F × F)) → (fold v xs).mem_slow ≡ feed_ewma v.mem_slow (mems xs)
  fold-mem_slow v [] = refl
  fold-mem_slow v ((c, m) ∷ xs) = fold-mem_slow (step v c m) xs

  fold-n :
      (v : View F) (xs : List (F × F)) → v.n < u64_mod → (fold v xs).n ≡ (v.n + length xs) % u64_mod
  fold-n v [] h = omega arith
  fold-n v ((c, m) ∷ xs) h = omega (arith, fold-n (step v c m) xs (omega arith))

  fold-config :
      (v : View F) (xs : List (F × F))
      → ((fold v xs).min_samples ≡ v.min_samples)
        × ((fold v xs).threshold ≡ v.threshold)
        × ((fold v xs).drift_threshold ≡ v.drift_threshold)
  fold-config v [] = (refl, refl, refl)
  fold-config v ((c, m) ∷ xs) = fold-config (step v c m) xs

  -- The readings in which a number is NaN or infinite leave no trace: the whole detector is as without
  -- them. Over the others, each of the four trackers is fed its own metric, in order, and no other; the
  -- counter counts them, modulo 2 ^ 64.
  pub update_all-trackers :
      (d : ZScoreDetector F) (xs : List (F × F))
      → d.n < u64_mod
      → let d' = update_all d xs in
        let taken = usable xs in
        (d' ≡ update_all d taken)
        × (d'.cpu_stats ≡ feed_stats d.cpu_stats (cpus taken))
        × (d'.mem_stats ≡ feed_stats d.mem_stats (mems taken))
        × (d'.cpu_slow ≡ feed_ewma d.cpu_slow (cpus taken))
        × (d'.mem_slow ≡ feed_ewma d.mem_slow (mems taken))
        × (d'.n ≡ (d.n + length taken) % u64_mod)
  update_all-trackers d xs h =
      let seen = view-update_all d xs in
      let taken = usable xs in
      (
        update_all-usable d xs,
        ap (λ (v : View F). v.cpu_stats) seen ∙ fold-cpu_stats (view d) taken,
        ap (λ (v : View F). v.mem_stats) seen ∙ fold-mem_stats (view d) taken,
        ap (λ (v : View F). v.cpu_slow) seen ∙ fold-cpu_slow (view d) taken,
        ap (λ (v : View F). v.mem_slow) seen ∙ fold-mem_slow (view d) taken,
        ap (λ (v : View F). v.n) seen ∙ fold-n (view d) taken h,
      )

  -- No reading changes what the detector is configured with.
  pub update_all-config :
      (d : ZScoreDetector F) (xs : List (F × F))
      → let d' = update_all d xs in
        (d'.min_samples ≡ d.min_samples)
        × (d'.threshold ≡ d.threshold)
        × (d'.drift_threshold ≡ d.drift_threshold)
  update_all-config d xs =
      let seen = view-update_all d xs in
      let kept = fold-config (view d) (usable xs) in
      (
        ap (λ (v : View F). v.min_samples) seen ∙ kept.0,
        ap (λ (v : View F). v.threshold) seen ∙ kept.1,
        ap (λ (v : View F). v.drift_threshold) seen ∙ kept.2,
      )
