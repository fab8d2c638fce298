-- ===== src/Collector/Generator.antt =====
-- internal/collector/mock_ai.go: the synthetic workload. What the random number generator and the
-- clock return to a call is an argument; the lock is left out.
use edge_telemetry_daemon.Shared.{ℕ, ◌+◌, ◌%◌, ◌^◌, ◌||◌, if◌then◌else◌}
use edge_telemetry_daemon.Shared.Time.{Time}
use edge_telemetry_daemon.Shared.Float.{Float, nought, one}

pub record AiGenConfig {ℓ} (F : Type ℓ) : Type ℓ where
  pub base_inferences_per_sec : F
  pub jitter : F

pub record AiSample {ℓ} (F : Type ℓ) : Type ℓ where
  pub timestamp : Time
  pub inferences_per_sec : F
  pub tokens_per_sec : F
  pub batch_size : ℕ

pub record AiGen {ℓ} (F : Type ℓ) : Type ℓ where
  pub cfg : AiGenConfig F

-- `Float64()` twice, `Uint32N(16)` and `time.Now()`.
pub record Draws {ℓ} (F : Type ℓ) : Type ℓ where
  pub first : F
  pub second : F
  pub batch : ℕ
  pub now : Time

module _ {ℓ} {F : Type ℓ} ⦃f : Float F⦄ where
  open f use {add, sub, mul, lt, le, of_ratio}

  pub default_ai_gen_config : AiGenConfig F
  default_ai_gen_config = record { base_inferences_per_sec = of_ratio 12 1; jitter = of_ratio 1 4 }

  pub new_ai_gen : AiGenConfig F → AiGen F
  new_ai_gen cfg = record {
    cfg = record {
      base_inferences_per_sec =
          if le cfg.base_inferences_per_sec nought
          then default_ai_gen_config.base_inferences_per_sec
          else cfg.base_inferences_per_sec;
      jitter =
          if lt cfg.jitter nought || le one cfg.jitter
          then default_ai_gen_config.jitter
          else cfg.jitter;
    };
  }

  pub next_sample : AiGen F → Draws F → AiSample F
  next_sample g d =
      let j = add one (mul (sub (mul d.first (of_ratio 2 1)) one) g.cfg.jitter) in
      let rate = mul g.cfg.base_inferences_per_sec j in
      record {
        timestamp = d.now;
        inferences_per_sec = rate;
        tokens_per_sec = mul rate (add (of_ratio 8 10) (mul d.second (of_ratio 4 10)));
        batch_size = (1 + d.batch) % 2 ^ 32;
      }
