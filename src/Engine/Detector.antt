-- ===== src/Engine/Detector.antt =====
-- internal/engine/detector.go: composite Z-scores of the paired CPU and memory readings.
pub mod Reset
pub mod Trackers
pub mod WarmUp
mod Tests
use edge_telemetry_daemon.Shared.{
  ℕ, ◌^◌, Bool, true, false, not, ◌&&◌, ◌||◌, if◌then◌else◌, ltb, ◌==◌, inc64,
}
use edge_telemetry_daemon.Shared.Float.{Float, nought, one}
use edge_telemetry_daemon.Engine.Ewma
use edge_telemetry_daemon.Engine.Ewma.{Ewma, new_ewma, value_of}
use edge_telemetry_daemon.Engine.Stats
use edge_telemetry_daemon.Engine.Stats.{StreamingStats, new_streaming_stats, mean_of, std_dev}

pub record ZScoreDetector {ℓ} (F : Type ℓ) : Type ℓ where
  pub alpha : F
  pub alpha_slow : F
  pub min_samples : ℕ
  pub threshold : F
  pub drift_threshold : F
  pub cpu_stats : StreamingStats F
  pub mem_stats : StreamingStats F
  pub cpu_slow : Ewma F
  pub mem_slow : Ewma F
  pub n : ℕ
  pub last_cpu : F
  pub last_mem : F
  pub zscore : F
  pub drift_index : F
  pub drifting : Bool

module _ {ℓ} {F : Type ℓ} ⦃f : Float F⦄ where
  open f use {sub, mul, div, lt, le, abs, max, hypot, nan, is_nan, is_inf, of_ratio}

  -- The clamps at the head of `NewZScoreDetector`.
  abbrev clamp_fast : F → F
  clamp_fast a = if le a nought then of_ratio 1 2 else if lt one a then one else a

  -- `alphaSlow >= alphaFast` is tested on the clamped values.
  abbrev clamp_slow : F → F → F
  clamp_slow fast a =
      let s = if le a nought then of_ratio 1 2 else if lt one a then one else a in
      if le fast s then mul fast (of_ratio 1 10) else s

  unfoldable pub new_detector : F → F → ℕ → F → F → ZScoreDetector F
  new_detector alpha_fast alpha_slow min_samples threshold drift_threshold =
      let fast = clamp_fast alpha_fast in
      let slow = clamp_slow fast alpha_slow in
      record {
        alpha = fast;
        alpha_slow = slow;
        min_samples = if min_samples == 0 then 30 else min_samples;
        threshold = if le threshold nought then of_ratio 7 2 else threshold;
        drift_threshold = if le drift_threshold nought then of_ratio 15 100 else drift_threshold;
        cpu_stats = new_streaming_stats fast;
        mem_stats = new_streaming_stats fast;
        cpu_slow = new_ewma slow;
        mem_slow = new_ewma slow;
        n = 0;
        last_cpu = nought;
        last_mem = nought;
        zscore = nan;
        drift_index = nought;
        drifting = false;
      }

  unfoldable pub calculate_z_score : F → F → F → F
  calculate_z_score val mean sd =
      if lt (of_ratio 1 (10 ^ 12)) sd && not (is_nan sd)
      then div (sub val mean) sd
      else div (sub val mean) (max one (abs mean))

  -- The readings that `Update` does not take.
  unfoldable pub unusable : F → F → Bool
  unusable cpu mem = is_nan cpu || is_inf cpu || is_nan mem || is_inf mem

  -- Step 1: the Z-score, from the statistics before this reading. `d.n` has been counted up.
  unfoldable pub score : ZScoreDetector F → F → F → F
  unfolding calculate_z_score
  score d cpu mem =
      if ltb d.min_samples d.n
      then hypot (calculate_z_score cpu (mean_of d.cpu_stats) (std_dev d.cpu_stats))
          (calculate_z_score mem (mean_of d.mem_stats) (std_dev d.mem_stats))
      else nought

  -- Step 2: the trackers take the reading.
  abbrev pub track : ZScoreDetector F → F → F → ZScoreDetector F
  track d cpu mem = record d {
    zscore = score d cpu mem;
    cpu_stats = Stats.update d.cpu_stats cpu;
    mem_stats = Stats.update d.mem_stats mem;
    cpu_slow = Ewma.update d.cpu_slow cpu;
    mem_slow = Ewma.update d.mem_slow mem;
    last_cpu = cpu;
    last_mem = mem;
  }

  -- Step 3, for one metric: the distance of the fast mean from the slow one.
  unfoldable pub drift_of : StreamingStats F → Ewma F → F
  drift_of s e = div (abs (sub (mean_of s) (value_of e))) (max one (abs (value_of e)))

  abbrev pub drift : ZScoreDetector F → ZScoreDetector F
  drift d = record d {
    drift_index = max (drift_of d.cpu_stats d.cpu_slow) (drift_of d.mem_stats d.mem_slow);
  }

  -- The flags, once the statistics are in.
  unfoldable pub judge : ZScoreDetector F → ZScoreDetector F × Bool
  judge d =
      if ltb d.n d.min_samples
      then (record d { drifting = false }, false)
      else (record d { drifting = lt d.drift_threshold d.drift_index }, le d.threshold d.zscore)

  unfoldable pub update : ZScoreDetector F → F → F → ZScoreDetector F × Bool
  unfolding unusable
  update d cpu mem =
      if unusable cpu mem
      then (d, false)
      else judge (drift (track (record d { n = inc64 d.n }) cpu mem))

  pub reset : ZScoreDetector F → ZScoreDetector F
  reset d = record d {
    cpu_stats = Stats.reset d.cpu_stats;
    mem_stats = Stats.reset d.mem_stats;
    cpu_slow = Ewma.reset d.cpu_slow;
    mem_slow = Ewma.reset d.mem_slow;
    n = 0;
    last_cpu = nought;
    last_mem = nought;
    zscore = nan;
    drift_index = nought;
    drifting = false;
  }
