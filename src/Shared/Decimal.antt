-- ===== src/Shared/Decimal.antt =====
-- Decimal numbers in bytes, and what the digit loop reads off them.
use mathlib.Core.Path.{◌≡◌, refl, ap, ◌∙◌}
use Prim.Native.Nat.{ℕ, ◌+◌, ◌-◌, ◌*◌, ◌%◌, ◌^◌, ◌≤◌, ◌<◌}
use mathlib.Core.Bool.{Bool, true, false}
use mathlib.Core.List.{List, [], ◌∷◌, ◌++◌}
use native.Mathlib.Omega.{arith}
use edge_telemetry_daemon.Shared.Tests.{u64_mod}
use edge_telemetry_daemon.Shared.Text.{Bytes}
use edge_telemetry_daemon.Shared.Scan.{is_digit, is_blank, read_digits, skip_while}

-- The number that digits stand for after those read so far, without wrapping.
unfoldable pub decimal_from : ℕ → Bytes → ℕ
decimal_from v [] = v
decimal_from v (c ∷ ds) = decimal_from (v * 10 + (c - 48)) ds

abbrev pub Digits : Bytes → Type 0
Digits [] = Unit
Digits (c ∷ ds) = (is_digit c ≡ true) × Digits ds

decimal_from-ge : (v : ℕ) (ds : Bytes) → v ≤ decimal_from v ds
unfolding decimal_from
decimal_from-ge v [] = omega arith
decimal_from-ge v (c ∷ ds) = omega (arith, decimal_from-ge (v * 10 + (c - 48)) ds)

read_digits-digit :
    (any : Bool) (v c : ℕ) (b : Bytes)
    → is_digit c ≡ true
    → read_digits any v (c ∷ b) ≡ read_digits true ((v * 10 + (c - 48)) % u64_mod) b
unfolding read_digits
read_digits-digit any v c b d = simp (read_digits, d)

read_digits-end :
    (any : Bool) (v c : ℕ) (b : Bytes)
    → is_digit c ≡ false
    → read_digits any v (c ∷ b) ≡ (any, (v, c ∷ b))
unfolding read_digits
read_digits-end any v c b d = simp (read_digits, d)

-- What follows a number.
abbrev pub Stops : Bytes → Type 0
Stops [] = Unit
Stops (s ∷ rest) = is_digit s ≡ false

-- The digits after the first one, up to what follows.
read_digits-more :
    (v : ℕ) (ds tail : Bytes)
    → Digits ds
    → decimal_from v ds < 2 ^ 64
    → Stops tail
    → read_digits true v (ds ++ tail) ≡ (true, (decimal_from v ds, tail))
unfolding decimal_from read_digits
read_digits-more v [] [] digits small end = refl
read_digits-more v [] (s ∷ rest) digits small end = read_digits-end true v s rest end
read_digits-more v (c ∷ ds) tail (d, digits) small end =
    let wrap : (v * 10 + (c - 48)) % u64_mod ≡ v * 10 + (c - 48) =
      omega (arith, decimal_from-ge (v * 10 + (c - 48)) ds) in
    read_digits-digit true v c (ds ++ tail) d
    ∙ ap (λ x. read_digits true x (ds ++ tail)) wrap
    ∙ read_digits-more (v * 10 + (c - 48)) ds tail digits small end

-- A decimal number: its first digit and the others. It is below 2 ^ 64.
abbrev pub Number : Type 0
Number = ℕ × Bytes

abbrev pub value : Number → ℕ
value (c, ds) = decimal_from 0 (c ∷ ds)

abbrev pub IsNumber : Number → Type 0
IsNumber (c, ds) = Digits (c ∷ ds) × (value (c, ds) < 2 ^ 64)

abbrev pub Numbers : List Number → Type 0
Numbers [] = Unit
Numbers (x ∷ xs) = IsNumber x × Numbers xs

-- The loop reads a number below 2 ^ 64, up to what follows it.
pub read_digits-number :
    (c : ℕ) (ds tail : Bytes)
    → IsNumber (c, ds)
    → Stops tail
    → read_digits false 0 (c ∷ (ds ++ tail)) ≡ (true, (value (c, ds), tail))
unfolding decimal_from
read_digits-number c ds tail ((d, digits), small) end =
    let v = 0 * 10 + (c - 48) in
    let wrap : v % u64_mod ≡ v = omega (arith, decimal_from-ge v ds) in
    read_digits-digit false 0 c (ds ++ tail) d
    ∙ ap (λ x. read_digits true x (ds ++ tail)) wrap
    ∙ read_digits-more v ds tail digits small end

pub skip_while-go :
    (p : ℕ → Bool) (c : ℕ) (b : Bytes) → p c ≡ true → skip_while p (c ∷ b) ≡ skip_while p b
unfolding skip_while
skip_while-go p c b e = simp (skip_while, e)

pub skip_while-stop :
    (p : ℕ → Bool) (c : ℕ) (b : Bytes) → p c ≡ false → skip_while p (c ∷ b) ≡ c ∷ b
unfolding skip_while
skip_while-stop p c b e = simp (skip_while, e)

pub digit-ne-blank : (c : ℕ) → is_digit c ≡ true → is_blank c ≡ false
unfolding is_digit is_blank
digit-ne-blank c d = ground arith
