-- ===== src/Agent/Pace.antt =====
-- cmd/agent/main.go: `computeInterval`, how long to wait for the next tick.
use edge_telemetry_daemon.Shared.{if◌then◌else◌, ◌*◌}
use edge_telemetry_daemon.Shared.Int.{ℤ, pos, leb_ℤ, add_int}
use edge_telemetry_daemon.Shared.Time.{Duration, millisecond}
use edge_telemetry_daemon.Shared.Float.{Float, nought, one}

abbrev pub min_ℤ : ℤ → ℤ → ℤ
min_ℤ a b = if leb_ℤ a b then a else b

abbrev pub max_ℤ : ℤ → ℤ → ℤ
max_ℤ a b = if leb_ℤ a b then b else a

abbrev pub tau_recovery_step : Duration
tau_recovery_step = pos (500 * millisecond)

module _ {ℓ} {F : Type ℓ} ⦃f : Float F⦄ where
  open f use {sub, mul, div, lt, abs, max, is_nan, of_int, to_int}

  -- The interval that the scores call for, before it is limited.
  unfoldable pub tau_target : F → F → F → F → Duration → Duration → Duration
  tau_target z_composite drift_index drift_thresh theta tau_min tau_max =
      let z = if is_nan z_composite then nought else z_composite in
      let d = if is_nan drift_index then nought else drift_index in
      let z_eff = max z (mul (div d drift_thresh) theta) in
      let r = div (abs z_eff) theta in
      let ratio = if lt one r then one else r in
      let t_min = of_int tau_min in
      let t_max = of_int tau_max in to_int (sub t_max (mul (sub t_max t_min) ratio))

  unfoldable pub compute_interval :
      F → F → F → F → Duration → Duration → Duration → Duration → Duration
  compute_interval z drift_index drift_thresh theta tau_min tau_max tau_prev delta_tau =
      max_ℤ tau_min (
        min_ℤ (tau_target z drift_index drift_thresh theta tau_min tau_max)
          (add_int tau_prev delta_tau))
