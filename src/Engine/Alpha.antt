-- ===== src/Engine/Alpha.antt =====
-- The smoothing factor that the constructors keep.
use edge_telemetry_daemon.Shared.{◌≡◌, true, false, arith}
use edge_telemetry_daemon.Shared.Float.{Float, IsOrdered, nought, one}
use edge_telemetry_daemon.Engine.Ewma
use edge_telemetry_daemon.Engine.Stats

module _ {ℓ} {F : Type ℓ} ⦃f : Float F⦄ (laws : IsOrdered f) where
  -- In (0, 1].
  abbrev pub InUnit : F → Type 0
  InUnit a = (f.le a nought ≡ false) × (f.le a one ≡ true)

  -- From a factor that is not NaN, `NewEWMA` and `NewStreamingStats` keep the same factor, and it is
  -- in (0, 1].
  pub clamp_alpha-InUnit :
      (a : F)
      → f.is_nan a ≡ false
      → InUnit (Ewma.clamp_alpha a) × (Stats.clamp_alpha a ≡ Ewma.clamp_alpha a)
  unfolding Ewma.clamp_alpha Stats.clamp_alpha
  clamp_alpha-InUnit a n = ground (
    arith,
    laws.lt-eq-not-le one a (laws.literal_number 1 1) n,
    laws.le_trans a nought one,
    laws.literal-le-one 0 0 (omega arith),
    laws.literal-le-one 1 0 (omega arith),
    laws.literal-le-one 1 1 (omega arith),
    laws.literal_pos 0 0,
    laws.literal_pos 0 1,
  )
