-- ===== src/Engine/Ewma.antt =====
-- internal/engine/ewma.go, and `IsSaturated` of internal/engine/saturation.go.
use edge_telemetry_daemon.Shared.{ℕ, Bool, true, false, if◌then◌else◌, ◌==◌}
use edge_telemetry_daemon.Shared.Float.{Float, nought, one}

pub record Ewma {ℓ} (F : Type ℓ) : Type ℓ where
  pub alpha : F
  pub value : F
  pub init : Bool

module _ {ℓ} {F : Type ℓ} ⦃f : Float F⦄ where
  open f use {add, sub, mul, div, lt, le, nan, of_ratio, of_uint}

  pub alpha_of : Ewma F → F
  alpha_of e = e.alpha

  -- The switch of `NewEWMA`: above 1 first, then what is not positive.
  unfoldable pub clamp_alpha : F → F
  clamp_alpha alpha = if lt one alpha then one else if le alpha nought then of_ratio 1 2 else alpha

  unfoldable pub new_ewma : F → Ewma F
  unfolding clamp_alpha
  new_ewma alpha = record { alpha = clamp_alpha alpha; value = nought; init = false }

  unfoldable pub update : Ewma F → F → Ewma F
  update e x =
      if e.init
      then record e { value = add (mul e.alpha x) (mul (sub one e.alpha) e.value) }
      else record e { value = x; init = true }

  unfoldable pub value_of : Ewma F → F
  value_of e = if e.init then e.value else nan

  unfoldable pub reset : Ewma F → Ewma F
  reset e = record e { init = false; value = nought }

  -- `IsSaturated`
  unfoldable pub is_saturated : ℕ → ℕ → F → Bool
  is_saturated mem_total mem_available floor_pct =
      if mem_total == 0
      then false
      else lt (div (of_uint mem_available) (of_uint mem_total)) (div floor_pct (of_ratio 100 1))
