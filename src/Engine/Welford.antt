-- ===== src/Engine/Welford.antt =====
-- internal/engine/welford.go: the older running variance.
mod Merge
use edge_telemetry_daemon.Shared.{ℕ, ◌-◌, if◌then◌else◌, ◌==◌, ltb, inc64, add64}
use edge_telemetry_daemon.Shared.Float.{Float, nought}

pub record Welford {ℓ} (F : Type ℓ) : Type ℓ where
  pub count : ℕ
  pub mean : F
  pub m2 : F

module _ {ℓ} {F : Type ℓ} ⦃f : Float F⦄ where
  open f use {add, sub, mul, div, sqrt, nan, of_uint}

  -- The zero value.
  abbrev pub empty : Welford F
  empty = record { count = 0; mean = nought; m2 = nought }

  pub update : Welford F → F → Welford F
  update w x =
      let count = inc64 w.count in
      let delta = sub x w.mean in
      let mean = add w.mean (div delta (of_uint count)) in
      record { count = count; mean = mean; m2 = add w.m2 (mul delta (sub x mean)) }

  pub merge : Welford F → Welford F → Welford F
  merge w o =
      if o.count == 0
      then w
      else if w.count == 0
      then o
      else let count = add64 w.count o.count in
        let delta = sub o.mean w.mean in
        record {
          count = count;
          mean = add w.mean (div (mul delta (of_uint o.count)) (of_uint count));
          m2 = add w.m2 (
              add o.m2 (
                div (mul (mul (mul delta delta) (of_uint w.count)) (of_uint o.count))
                  (of_uint count)));
        }

  pub mean_of : Welford F → F
  mean_of w = if w.count == 0 then nan else w.mean

  pub variance : Welford F → F
  variance w = if ltb w.count 2 then nan else div w.m2 (of_uint (w.count - 1))

  pub population_variance : Welford F → F
  population_variance w = if w.count == 0 then nan else div w.m2 (of_uint w.count)

  pub std_dev : Welford F → F
  std_dev w = sqrt (variance w)

  pub reset : Welford F → Welford F
  reset w = empty
