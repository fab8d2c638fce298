-- ===== src/Shared/Float.antt =====
-- Go's `float64` and the functions of package math that the program calls, as a parameter: antt has
-- no floats. A comparison with NaN is false. The laws that theorems need are in `IsOrdered`.
use Prim.Native.Nat.{ℕ, suc, ◌≤◌}
use mathlib.Core.Path.{◌≡◌}
use mathlib.Core.Logic.{◌⊎◌}
use mathlib.Core.Bool.{Bool, true, false, not}
use edge_telemetry_daemon.Shared.Int.{ℤ}

-- `of_ratio n d` is the literal for n/d; `of_uint` and `of_int` are `float64(x)`; `to_int` and
-- `to_uint` convert back.
pub record Float {ℓ} (F : Type ℓ) : Type ℓ where
  pub add : F → F → F
  pub sub : F → F → F
  pub mul : F → F → F
  pub div : F → F → F
  pub lt : F → F → Bool
  pub le : F → F → Bool
  pub abs : F → F
  pub max : F → F → F
  pub sqrt : F → F
  pub hypot : F → F → F
  pub nan : F
  pub is_nan : F → Bool
  pub is_inf : F → Bool
  pub of_ratio : ℕ → ℕ → F
  pub of_uint : ℕ → F
  pub of_int : ℤ → F
  pub to_int : F → ℤ
  pub to_uint : F → ℕ

-- The integer literals 0 and 1.
abbrev pub nought {ℓ} : {F : Type ℓ} ⦃f : Float F⦄ → F
nought ⦃f⦄ = f.of_ratio 0 1

abbrev pub one {ℓ} : {F : Type ℓ} ⦃f : Float F⦄ → F
one ⦃f⦄ = f.of_ratio 1 1

-- IEEE 754 comparisons: away from NaN the order is total, and every comparison with NaN is false.
-- Literals are numbers, and compare as their fractions do.
pub record IsOrdered {ℓ} {F : Type ℓ} (f : Float F) : Type ℓ where
  pub le_refl : (x : F) → f.is_nan x ≡ false → f.le x x ≡ true
  pub le_trans : (x y z : F) → f.le x y ≡ true → f.le y z ≡ true → f.le x z ≡ true
  pub lt-eq-not-le : (x y : F) → f.is_nan x ≡ false → f.is_nan y ≡ false → f.lt x y ≡ not (f.le y x)
  pub le_total :
      (x y : F) → f.is_nan x ≡ false → f.is_nan y ≡ false → (f.le x y ≡ true) ⊎ (f.le y x ≡ true)
  pub literal_number : (n d : ℕ) → f.is_nan (f.of_ratio n d) ≡ false
  pub literal_pos : (n d : ℕ) → f.le (f.of_ratio (suc n) (suc d)) (f.of_ratio 0 1) ≡ false
  pub literal-le-one : (n d : ℕ) → n ≤ suc d → f.le (f.of_ratio n (suc d)) (f.of_ratio 1 1) ≡ true
