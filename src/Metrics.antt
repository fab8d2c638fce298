-- ===== src/Metrics.antt =====
-- internal/metrics/prometheus.go: counters and gauges in one 64-bit word each, and the registry that
-- writes them out. The bits of a float, and fmt's way to show numbers, are arguments.
pub mod Adders
pub mod Registry
mod Tests
use mathlib.Core.Option
use edge_telemetry_daemon.Shared.{
  ℕ, ◌+◌, ◌≡◌, Bool, true, false, Option, none, some, List, [], ◌∷◌, ◌++◌, if◌then◌else◌, ◌==◌,
  add64,
}
use edge_telemetry_daemon.Shared.Float.{Float}
use edge_telemetry_daemon.Shared.Text.{Bytes, codes}

pub data MetricType : Type 0 where
  counter gauge : MetricType

-- `val_bits` is a count, or the bits of a float.
pub record Metric : Type 0 where
  pub name : Bytes
  pub help : Bytes
  pub type : MetricType
  pub val_bits : ℕ

-- `math.Float64bits` and `math.Float64frombits`.
pub record FloatBits {ℓ} (F : Type ℓ) : Type ℓ where
  pub bits : F → ℕ
  pub from_bits : ℕ → F

-- `CompareAndSwap(old, new)`: the word afterwards, and whether it was swapped.
pub compare_and_swap : ℕ → ℕ → ℕ → ℕ × Bool
compare_and_swap old new word = if word == old then (new, true) else (word, false)

module _ {ℓ} {F : Type ℓ} ⦃f : Float F⦄ (w : FloatBits F) where
  open f use {add, of_uint, to_uint}
  open w use {bits, from_bits}

  -- The word that a round of Add's loop computes from the one that it loaded.
  pub new_bits : ℕ → ℕ → ℕ
  new_bits v old = bits (add (from_bits old) (of_uint v))

  -- Methods that no other thread disturbs.
  pub add_value : Metric → ℕ → Metric
  add_value m v = elim m.type [
    | gauge ↦ record m { val_bits = new_bits v m.val_bits }
    | counter ↦ record m { val_bits = add64 m.val_bits v }
  ]

  pub inc : Metric → Metric
  inc m = elim m.type [
    | gauge ↦ add_value m 1
    | counter ↦ record m { val_bits = add64 m.val_bits 1 }
  ]

  pub set_value : Metric → ℕ → Metric
  set_value m v = elim m.type [
    | gauge ↦ record m { val_bits = bits (of_uint v) }
    | counter ↦ record m { val_bits = v }
  ]

  pub set_float64 : Metric → F → Metric
  set_float64 m v = record m { val_bits = bits v }

  pub float64_value : Metric → F
  float64_value m = elim m.type [ gauge ↦ from_bits m.val_bits | counter ↦ of_uint m.val_bits ]

  pub value : Metric → ℕ
  value m = elim m.type [ gauge ↦ to_uint (float64_value m) | counter ↦ m.val_bits ]
