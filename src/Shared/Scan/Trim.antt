-- ===== src/Shared/Scan/Trim.antt =====
-- What trimming leaves of a text that has no white space at its ends.
use mathlib.Core.Path.{◌≡◌, refl, ap, ◌∙◌}
use Prim.Native.Nat.{ℕ}
use mathlib.Core.Bool.{Bool, true, false, ◌||◌}
use mathlib.Core.List.{[], ◌∷◌, ◌++◌}
use native.Mathlib.Omega.{arith}
use edge_telemetry_daemon.Shared.Tests.{◌==◌, leb}
use edge_telemetry_daemon.Shared.Text.{Bytes}
use edge_telemetry_daemon.Shared.Scan.{
  is_digit, is_white, is_wide2, is_wide3, trim_front, attach, trim_end, trim_space, trim_right,
  tidy,
}
use edge_telemetry_daemon.Shared.Decimal.{Digits}

-- The last byte, if there is one, fails the test.
abbrev pub LastNot : (ℕ → Bool) → Bytes → Type 0
LastNot p [] = Unit
LastNot p (x ∷ []) = p x ≡ false
LastNot p (x ∷ y ∷ b) = LastNot p (y ∷ b)

trim_right-LastNot : (p : ℕ → Bool) (b : Bytes) → LastNot p b → trim_right p b ≡ b
unfolding trim_right
trim_right-LastNot p [] h = refl
trim_right-LastNot p (x ∷ []) h = rw h refl
trim_right-LastNot p (x ∷ y ∷ b) h = rw (trim_right-LastNot p (y ∷ b) h) refl

pub LastNot-append :
    (p : ℕ → Bool) (a : Bytes) (y : ℕ) (b : Bytes) → LastNot p (y ∷ b) → LastNot p (a ++ (y ∷ b))
LastNot-append p [] y b h = h
LastNot-append p (x ∷ []) y b h = h
LastNot-append p (x ∷ z ∷ a) y b h = LastNot-append p (z ∷ a) y b h

-- White space, or a byte of a character that is not ASCII.
unfoldable pub is_loose : ℕ → Bool
is_loose c = is_white c || leb 128 c

digit-ne-loose : (c : ℕ) → is_digit c ≡ true → is_loose c ≡ false
unfolding is_digit is_white is_loose
digit-ne-loose c d = ground arith

pub LastNot-Digits : (c : ℕ) (ds : Bytes) → Digits (c ∷ ds) → LastNot is_loose (c ∷ ds)
LastNot-Digits c [] (d, ds) = digit-ne-loose c d
LastNot-Digits c (e ∷ ds) (d, digits) = LastNot-Digits e ds digits

LastNot-return : (b : Bytes) → LastNot is_loose b → LastNot (λ c. c == 13) b
unfolding is_white is_loose
LastNot-return [] h = tt
LastNot-return (x ∷ []) h = ground arith
LastNot-return (x ∷ y ∷ b) h = LastNot-return (y ∷ b) h

loose-white : (c : ℕ) → is_loose c ≡ false → is_white c ≡ false
unfolding is_loose
loose-white c h = ground arith

first-wide2 : (c d : ℕ) → is_loose c ≡ false → is_wide2 c d ≡ false
unfolding is_loose is_wide2
first-wide2 c d h = ground arith

first-wide3 : (c d e : ℕ) → is_loose c ≡ false → is_wide3 c d e ≡ false
unfolding is_loose is_wide3
first-wide3 c d e h = ground arith

last-wide2 : (c d : ℕ) → is_loose d ≡ false → is_wide2 c d ≡ false
unfolding is_loose is_wide2
last-wide2 c d h = ground arith

last-wide3 : (c d e : ℕ) → is_loose e ≡ false → is_wide3 c d e ≡ false
unfolding is_loose is_wide3
last-wide3 c d e h = ground arith

trim_front-tight : (c : ℕ) (b : Bytes) → is_loose c ≡ false → trim_front (c ∷ b) ≡ c ∷ b
unfolding trim_front
trim_front-tight c [] h = simp (trim_front, loose-white c h)
trim_front-tight c (d ∷ []) h = simp (trim_front, loose-white c h, first-wide2 c d h)
trim_front-tight c (d ∷ e ∷ b) h =
    simp (trim_front, loose-white c h, first-wide2 c d h, first-wide3 c d e h)

attach-tight : (c d : ℕ) (b : Bytes) → LastNot is_loose (d ∷ b) → attach c (d ∷ b) ≡ c ∷ d ∷ b
unfolding attach
attach-tight c d [] h = rw (last-wide2 c d h) refl
attach-tight c d (e ∷ []) h = rw (last-wide3 c d e h) refl
attach-tight c d (e ∷ x ∷ b) h = refl

trim_end-tight : (b : Bytes) → LastNot is_loose b → trim_end b ≡ b
unfolding trim_end attach
trim_end-tight [] h = refl
trim_end-tight (c ∷ []) h = rw (loose-white c h) refl
trim_end-tight (c ∷ d ∷ b) h = ap (attach c) (trim_end-tight (d ∷ b) h) ∙ attach-tight c d b h

-- A text with white space at neither end, and an ASCII byte at both, stays as it is.
pub tidy-tight :
    (c : ℕ) (b : Bytes) → is_loose c ≡ false → LastNot is_loose (c ∷ b) → tidy (c ∷ b) ≡ c ∷ b
unfolding tidy trim_space
tidy-tight c b h last =
    ap (λ x. trim_end (trim_front x))
      (trim_right-LastNot (λ x. x == 13) (c ∷ b) (LastNot-return (c ∷ b) last))
    ∙ ap trim_end (trim_front-tight c b h)
    ∙ trim_end-tight (c ∷ b) last
