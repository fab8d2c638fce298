-- ===== src/Shared/Fixed.antt =====
-- A concrete `Float` for tests and witnesses: whole numbers, with `none` for NaN. It meets
-- `IsOrdered`. A literal is rounded up; `sqrt` and `hypot` are rough, and no law speaks of them.
use Prim.Native.Nat.{ℕ, suc, ◌+◌, ◌*◌, ◌-◌, ◌/◌, ◌≤◌, ◌<◌}
use mathlib.Core.Path.{◌≡◌, refl}
use mathlib.Core.Bool.{Bool, true, false}
use mathlib.Core.Option.{Option, none, some}
use native.Mathlib.Omega.{arith}
use edge_telemetry_daemon.Shared.Tests.{◌==◌, if◌then◌else◌}
use edge_telemetry_daemon.Shared.Int.{ℤ, pos, pos_part, neg_part, sub_ℕ, leb_ℤ, ltb_ℤ}
use edge_telemetry_daemon.Shared.Float.{Float, IsOrdered}

abbrev pub Fixed : Type 0
Fixed = Option ℤ

abbrev lift : (ℤ → ℤ → Fixed) → Fixed → Fixed → Fixed
lift g (some a) (some b) = g a b
lift g _ _ = none

abbrev test : (ℤ → ℤ → Bool) → Fixed → Fixed → Bool
test g (some a) (some b) = g a b
test g _ _ = false

abbrev size : ℤ → ℕ
size a = pos_part a + neg_part a

abbrev mul_ℤ : ℤ → ℤ → ℤ
mul_ℤ a b =
    sub_ℕ (pos_part a * pos_part b + neg_part a * neg_part b)
      (pos_part a * neg_part b + neg_part a * pos_part b)

-- Rounded towards zero; a division by zero is no number.
abbrev div_ℤ : ℤ → ℤ → Fixed
div_ℤ a b =
    if size b == 0
    then none
    else if ltb_ℤ (mul_ℤ a b) (pos 0)
    then some (sub_ℕ 0 (size a / size b))
    else some (pos (size a / size b))

abbrev abs_of : Fixed → Fixed
abs_of (some a) = some (pos (size a))
abs_of none = none

abbrev no_number : Fixed → Bool
no_number (some _) = false
no_number none = true

abbrev whole : Fixed → ℤ
whole (some a) = a
whole none = pos 0

instance abbrev pub fixed : Float Fixed
fixed = record {
  add = lift (λ a b. some (sub_ℕ (pos_part a + pos_part b) (neg_part a + neg_part b)));
  sub = lift (λ a b. some (sub_ℕ (pos_part a + neg_part b) (neg_part a + pos_part b)));
  mul = lift (λ a b. some (mul_ℤ a b));
  div = lift div_ℤ;
  lt = test ltb_ℤ;
  le = test leb_ℤ;
  abs = abs_of;
  max = lift (λ a b. some (if leb_ℤ a b then b else a));
  sqrt = λ x. x;
  hypot = lift (λ a b. some (pos (size a + size b)));
  nan = none;
  is_nan = no_number;
  is_inf = λ _. false;
  of_ratio = λ n d. some (pos ((n + d - 1) / d));
  of_uint = λ n. some (pos n);
  of_int = λ a. some a;
  to_int = whole;
  to_uint = λ x. pos_part (whole x);
}

le_trans_lem :
    (x y z : Fixed) → test leb_ℤ x y ≡ true → test leb_ℤ y z ≡ true → test leb_ℤ x z ≡ true
le_trans_lem (some a) (some b) (some c) h k = ground arith
le_trans_lem _ _ _ h k = ground arith

ceil_pos : (n d : ℕ) → 0 < (suc n + suc d - 1) / suc d
ceil_pos n d = grind arith

ceil-le-one : (n d : ℕ) → n ≤ suc d → (n + suc d - 1) / suc d ≤ 1
ceil-le-one n d h = grind arith

pub fixed-IsOrdered : IsOrdered fixed
fixed-IsOrdered = record {
  le_refl = λ x n. ground arith;
  le_trans = le_trans_lem;
  lt-eq-not-le = λ x y n m. ground arith;
  le_total = λ x y n m. ground arith;
  literal_number = λ n d. refl;
  literal_pos = λ n d. ground (arith, ceil_pos n d);
  literal-le-one = λ n d h. ground (arith, ceil-le-one n d h);
}
