-- ===== src/Engine/Stats.antt =====
-- internal/engine/stats.go: the exponentially weighted mean and variance.
use edge_telemetry_daemon.Shared.{ℕ, Bool, true, false, if◌then◌else◌, ltb, inc64}
use edge_telemetry_daemon.Shared.Float.{Float, nought, one}

pub record StreamingStats {ℓ} (F : Type ℓ) : Type ℓ where
  pub alpha : F
  pub mean : F
  pub vr : F
  pub count : ℕ
  pub init : Bool

module _ {ℓ} {F : Type ℓ} ⦃f : Float F⦄ where
  open f use {add, sub, mul, lt, le, max, sqrt, nan, of_ratio}

  -- The tests of `NewStreamingStats`: what is not positive first, then above 1.
  unfoldable pub clamp_alpha : F → F
  clamp_alpha alpha = if le alpha nought then of_ratio 1 2 else if lt one alpha then one else alpha

  unfoldable pub new_streaming_stats : F → StreamingStats F
  unfolding clamp_alpha
  new_streaming_stats alpha = record {
    alpha = clamp_alpha alpha;
    mean = nought;
    vr = nought;
    count = 0;
    init = false;
  }

  unfoldable pub update : StreamingStats F → F → StreamingStats F
  update s x =
      let diff = sub x s.mean in
      if s.init
      then record s {
        mean = add s.mean (mul s.alpha diff);
        vr = add (mul (sub one s.alpha) s.vr) (mul s.alpha (mul diff diff));
        count = inc64 s.count;
      }
      else record s { mean = x; vr = nought; count = inc64 s.count; init = true }

  unfoldable pub mean_of : StreamingStats F → F
  mean_of s = if s.init then s.mean else nan

  unfoldable pub variance : StreamingStats F → F
  variance s = if ltb s.count 2 then nan else s.vr

  unfoldable pub std_dev : StreamingStats F → F
  std_dev s = if ltb s.count 2 then nan else sqrt (max nought s.vr)

  unfoldable pub reset : StreamingStats F → StreamingStats F
  reset s = record s { mean = nought; vr = nought; count = 0; init = false }
