-- ===== src/Shared/Text.antt =====
-- Byte strings: a Go `string` or `[]byte` is the list of its bytes.
use Prim.Native.Nat.{ℕ}
use mathlib.Core.Path.{◌≡◌, refl, ap₂}
use native.Mathlib.Omega.{arith}
use Prim.Native.Char.{code}
use Prim.Native.String.{String}
use mathlib.Core.Bool.{Bool, true, false, ◌&&◌}
use mathlib.Core.List.{List, [], ◌∷◌}
use edge_telemetry_daemon.Shared.Tests.{◌==◌}

abbrev pub Bytes : Type 0
Bytes = List ℕ

-- The bytes of an ASCII literal.
abbrev pub codes : String → Bytes
codes String.[] = []
codes (String.◌∷◌ c s) = code c ∷ codes s

-- `s == ""`
abbrev pub is_empty : Bytes → Bool
is_empty [] = true
is_empty (c ∷ cs) = false

-- `bytes.Equal`, and `==` on strings
unfoldable pub equal : Bytes → Bytes → Bool
equal [] [] = true
equal (x ∷ xs) (y ∷ ys) = x == y && equal xs ys
equal _ _ = false

pub equal→≡ : (a b : Bytes) → equal a b ≡ true → a ≡ b
unfolding equal
equal→≡ [] [] h = refl
equal→≡ [] (y ∷ b) h = absurd cc
equal→≡ (x ∷ a) [] h = absurd cc
equal→≡ (x ∷ a) (y ∷ b) h = ap₂ (λ c cs. c ∷ cs) (ground arith) (equal→≡ a b (ground arith))
