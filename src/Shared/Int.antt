-- ===== src/Shared/Int.antt =====
-- Signed integers over the native numbers, for Go's `int` and `time.Duration` (64 bits, signed).
use Prim.Native.Nat.{ℕ, suc, ◌+◌, ◌-◌, ◌^◌, ◌≤◌, ◌<◌}
use mathlib.Core.Path.{◌≡◌}
use mathlib.Core.Bool.{Bool}
use native.Mathlib.Omega.{arith}
use edge_telemetry_daemon.Shared.Tests.{ltb, leb, if◌then◌else◌}

-- `negsuc n` is -(n + 1).
pub data ℤ : Type 0 where
  pos : ℕ → ℤ
  negsuc : ℕ → ℤ

abbrev pub pos_part : ℤ → ℕ
pos_part (pos n) = n
pos_part (negsuc n) = 0

abbrev pub neg_part : ℤ → ℕ
neg_part (pos n) = 0
neg_part (negsuc n) = suc n

-- a - b, as an integer.
abbrev pub sub_ℕ : ℕ → ℕ → ℤ
sub_ℕ a b = if leb b a then pos (a - b) else negsuc (b - a - 1)

infixl 65 ◌+ℤ◌ ◌-ℤ◌
infix 50 ◌≤ℤ◌ ◌<ℤ◌
unfoldable pub ◌+ℤ◌ : ℤ → ℤ → ℤ
a +ℤ b = sub_ℕ (pos_part a + pos_part b) (neg_part a + neg_part b)

unfoldable pub ◌-ℤ◌ : ℤ → ℤ → ℤ
a -ℤ b = sub_ℕ (pos_part a + neg_part b) (neg_part a + pos_part b)

abbrev pub ◌≤ℤ◌ : ℤ → ℤ → Type 0
a ≤ℤ b = pos_part a + neg_part b ≤ pos_part b + neg_part a

abbrev pub ◌<ℤ◌ : ℤ → ℤ → Type 0
a <ℤ b = pos_part a + neg_part b < pos_part b + neg_part a

abbrev pub ltb_ℤ : ℤ → ℤ → Bool
ltb_ℤ a b = ltb (pos_part a + neg_part b) (pos_part b + neg_part a)

abbrev pub leb_ℤ : ℤ → ℤ → Bool
leb_ℤ a b = leb (pos_part a + neg_part b) (pos_part b + neg_part a)

-- The least and the greatest `int64`.
abbrev pub min_int : ℤ
min_int = negsuc (2 ^ 63 - 1)

abbrev pub max_int : ℤ
max_int = pos (2 ^ 63 - 1)

-- A value of Go's `int`, `int64` or `time.Duration`.
abbrev pub IsInt : ℤ → Type 0
IsInt a = (min_int ≤ℤ a) × (a ≤ℤ max_int)

-- `a + b` on `int64`, for operands in range: a sum past an end comes in at the other.
unfoldable pub add_int : ℤ → ℤ → ℤ
unfolding ◌+ℤ◌ ◌-ℤ◌
add_int a b =
    let s = a +ℤ b in
    if ltb_ℤ max_int s then s -ℤ pos (2 ^ 64) else if ltb_ℤ s min_int then s +ℤ pos (2 ^ 64) else s

-- `x++` on an `int`
abbrev pub inc_int : ℤ → ℤ
inc_int a = add_int a (pos 1)

pub add_int-IsInt : (a b : ℤ) → IsInt a → IsInt b → IsInt (add_int a b)
unfolding add_int
add_int-IsInt a b ha hb = ground arith

pub add_int-eq-add : (a b : ℤ) → min_int ≤ℤ a +ℤ b → a +ℤ b ≤ℤ max_int → add_int a b ≡ a +ℤ b
unfolding add_int
add_int-eq-add a b lo hi = ground arith

pub inc_int_pos : (n : ℕ) → n + 1 < 2 ^ 63 → inc_int (pos n) ≡ pos (n + 1)
unfolding add_int
inc_int_pos n h = ground arith
