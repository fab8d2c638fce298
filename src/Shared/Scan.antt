-- ===== src/Shared/Scan.antt =====
-- Reading bytes from the left: the loops that the parsers of this program have in common, the
-- functions of package bytes that they call, and the loop over the lines of a file.
pub mod Entries
pub mod Lines
pub mod Trim
use mathlib.Core.Option
use Prim.Native.Nat.{ℕ, zero, suc, ◌+◌, ◌-◌, ◌*◌, ◌%◌}
use mathlib.Core.Bool.{Bool, true, false, ◌&&◌, ◌||◌}
use mathlib.Core.Option.{Option, none, some}
use mathlib.Core.List.{List, [], ◌∷◌}
use edge_telemetry_daemon.Shared.Tests.{if◌then◌else◌, leb, ◌==◌, u64_mod}
use edge_telemetry_daemon.Shared.Text.{Bytes, is_empty}

unfoldable pub is_digit : ℕ → Bool
is_digit c = leb 48 c && leb c 57

-- A space or a tab.
unfoldable pub is_blank : ℕ → Bool
is_blank c = c == 32 || c == 9

-- The first loop of `nextUint`: whether a digit came, the value, and the rest.
unfoldable pub read_digits : Bool → ℕ → Bytes → Bool × (ℕ × Bytes)
read_digits any val [] = (any, (val, []))
read_digits any val (c ∷ b) = elim (is_digit c) [
  | true ↦ read_digits true ((val * 10 + (c - 48)) % u64_mod) b
  | false ↦ (any, (val, c ∷ b))
]

unfoldable pub skip_while : (ℕ → Bool) → Bytes → Bytes
skip_while p [] = []
skip_while p (c ∷ b) = elim (p c) [ true ↦ skip_while p b | false ↦ c ∷ b ]

-- `bytes.IndexByte(data, '\n')`, with the slices before and after it; the whole where there is none.
unfoldable pub cut_line : Bytes → Bytes × Bytes
cut_line [] = ([], [])
cut_line (c ∷ b) = elim (c == 10) [
  | true ↦ ([], b)
  | false ↦ (let (line, rest) = cut_line b in (c ∷ line, rest))
]

-- `for len(data) > 0 { … }` over the lines, on fuel, with what a round does to the loop's state.
unfoldable pub scan_lines {ℓ} : {S : Type ℓ} → (Bytes → S → S) → ℕ → Bytes → S → S
scan_lines step zero b s = s
scan_lines step (suc k) [] s = s
scan_lines step (suc k) (c ∷ b) s =
    let (line, rest) = cut_line (c ∷ b) in scan_lines step k rest (step line s)

-- ASCII white space
unfoldable pub is_white : ℕ → Bool
is_white c = c == 32 || (leb 9 c && leb c 13)

-- The characters of `unicode.IsSpace` that UTF-8 encodes in two bytes, U+0085 and U+00A0, and in
-- three: U+1680, U+2000 to U+200A, U+2028, U+2029, U+202F, U+205F and U+3000.
unfoldable pub is_wide2 : ℕ → ℕ → Bool
is_wide2 c d = c == 194 && (d == 133 || d == 160)

unfoldable pub is_wide3 : ℕ → ℕ → ℕ → Bool
is_wide3 c d e =
    (c == 225 && (d == 154 && e == 128))
    || (c == 226
        && ((d == 128 && ((leb 128 e && leb e 138) || (e == 168 || (e == 169 || e == 175))))
            || (d == 129 && e == 159)))
    || (c == 227 && (d == 128 && e == 128))

unfoldable pub trim_right : (ℕ → Bool) → Bytes → Bytes
trim_right p [] = []
trim_right p (c ∷ b) = let rest = trim_right p b in if is_empty rest && p c then [] else c ∷ rest

-- The characters of white space at the front are gone.
unfoldable pub trim_front : Bytes → Bytes
trim_front [] = []
trim_front (c ∷ []) = elim (is_white c) [ true ↦ [] | false ↦ c ∷ [] ]
trim_front (c ∷ d ∷ []) = elim (is_white c) [
  | true ↦ trim_front (d ∷ [])
  | false ↦ elim (is_wide2 c d) [ true ↦ [] | false ↦ c ∷ d ∷ [] ]
]
trim_front (c ∷ d ∷ e ∷ b) = elim (is_white c) [
  | true ↦ trim_front (d ∷ e ∷ b)
  | false ↦ elim (is_wide2 c d) [
    | true ↦ trim_front (e ∷ b)
    | false ↦ elim (is_wide3 c d e) [ true ↦ trim_front b | false ↦ c ∷ d ∷ e ∷ b ]
  ]
]

-- A byte before a text without white space at its end: the two may be a character of white space.
unfoldable pub attach : ℕ → Bytes → Bytes
attach c [] = if is_white c then [] else c ∷ []
attach c (d ∷ []) = if is_wide2 c d then [] else c ∷ d ∷ []
attach c (d ∷ e ∷ []) = if is_wide3 c d e then [] else c ∷ d ∷ e ∷ []
attach c (d ∷ e ∷ x ∷ b) = c ∷ d ∷ e ∷ x ∷ b

-- The characters of white space at the end are gone.
unfoldable pub trim_end : Bytes → Bytes
trim_end [] = []
trim_end (c ∷ b) = attach c (trim_end b)

-- `bytes.TrimSpace`
unfoldable pub trim_space : Bytes → Bytes
trim_space b = trim_end (trim_front b)

-- `bytes.Cut` at one byte
unfoldable pub cut : ℕ → Bytes → Option (Bytes × Bytes)
cut sep [] = none
cut sep (c ∷ b) = elim (c == sep) [
  | true ↦ some ([], b)
  | false ↦ Option.map (λ (r : Bytes × Bytes). (c ∷ r.0, r.1)) (cut sep b)
]

-- `line = bytes.TrimSpace(bytes.TrimRight(line, "\r"))`
unfoldable pub tidy : Bytes → Bytes
tidy line = trim_space (trim_right (λ c. c == 13) line)

-- `parseValue`, of which two packages have a copy.
unfoldable pub parse_value : Bytes → Option ℕ
parse_value rest =
    let (any, (val, _)) = read_digits false 0 (skip_while is_blank rest) in
    if any then some val else none

-- A round of the loops over the lines of key and number up to the switch: `none` is `continue`.
unfoldable pub read_entry : ℕ → Bytes → Option (Bytes × ℕ)
read_entry sep raw =
    let line = tidy raw in
    if is_empty line then none else elim (cut sep line) [
      | none ↦ none
      | some (key, rest) ↦ Option.map (λ (v : ℕ). (key, v)) (parse_value rest)
    ]
