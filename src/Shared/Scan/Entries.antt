-- ===== src/Shared/Scan/Entries.antt =====
-- Lines that hold a key and a decimal number, and what a round of the loop reads off them.

use mathlib.Core.Path.{◌≡◌, refl, sym, ap, subst, ◌∙◌}
use Prim.Native.Nat.{ℕ, zero, suc}
use mathlib.Core.Bool.{Bool, true, false}
use mathlib.Core.Option.{none, some}
use mathlib.Core.List.{List, [], ◌∷◌, ◌++◌, map, append-nil}
use native.Mathlib.Omega.{arith}
use edge_telemetry_daemon.Shared.Tests.{◌==◌, if◌then◌else◌}
use edge_telemetry_daemon.Shared.Lists.{replicate}
use edge_telemetry_daemon.Shared.Text.{Bytes, codes}
use edge_telemetry_daemon.Shared.Decimal.{
  digit-ne-blank, Number, value, IsNumber, Digits, Stops, read_digits-number, skip_while-go,
  skip_while-stop,
}
use edge_telemetry_daemon.Shared.Scan.{
  is_digit, is_blank, is_white, read_digits, skip_while, cut, tidy, parse_value, read_entry,
}
use edge_telemetry_daemon.Shared.Scan.Lines.{Lacks, AllLack, Lacks-append, cut-append}
use edge_telemetry_daemon.Shared.Scan.Trim.{
  LastNot, LastNot-append, LastNot-Digits, is_loose, tidy-tight,
}

-- A key that is not empty, the number of spaces before the value, and whether ` kB` follows it.
pub record Entry : Type 0 where
  pub first : ℕ
  pub others : Bytes
  pub spaces : ℕ
  pub number : Number
  pub in_kb : Bool

abbrev pub key_of : Entry → Bytes
key_of e = e.first ∷ e.others

abbrev pub value_of : Entry → ℕ
value_of e = value e.number

-- What follows the value.
abbrev unit : Bool → Bytes
unit true = codes " kB"
unit false = []

-- The separator and what follows it.
abbrev value_text : ℕ → Number → Bool → Bytes
value_text n (c, ds) kb = replicate n 32 ++ (c ∷ (ds ++ unit kb))

abbrev pub line_of : ℕ → Entry → Bytes
line_of sep e = e.first ∷ (e.others ++ (sep ∷ value_text e.spaces e.number e.in_kb))

-- The key begins with an ASCII byte that is no white space, and holds neither the separator nor a newline.
pub record IsEntry (sep : ℕ) (e : Entry) : Type 0 where
  pub starts : is_loose e.first ≡ false
  pub whole : Lacks sep (key_of e)
  pub one_line : Lacks 10 (key_of e)
  pub number : IsNumber e.number

abbrev pub AllEntries : ℕ → List Entry → Type 0
AllEntries sep [] = Unit
AllEntries sep (e ∷ es) = IsEntry sep e × AllEntries sep es

Stops-unit : (kb : Bool) → Stops (unit kb)
unfolding is_digit
Stops-unit true = refl
Stops-unit false = tt

blank-is_blank : is_blank 32 ≡ true
unfolding is_blank
blank-is_blank = refl

skip_while-spaces :
    (n c : ℕ) (b : Bytes)
    → is_digit c ≡ true
    → skip_while is_blank (replicate n 32 ++ (c ∷ b)) ≡ c ∷ b
skip_while-spaces zero c b d = skip_while-stop is_blank c b (digit-ne-blank c d)
skip_while-spaces (suc n) c b d =
    skip_while-go is_blank 32 (replicate n 32 ++ (c ∷ b)) blank-is_blank ∙ skip_while-spaces n c b d

parse_value-text :
    (n c : ℕ) (ds : Bytes) (kb : Bool)
    → IsNumber (c, ds)
    → parse_value (value_text n (c, ds) kb) ≡ some (value (c, ds))
unfolding parse_value
parse_value-text n c ds kb h =
    ap (λ (r : Bool × (ℕ × Bytes)). if r.0 then some r.1.0 else none)
      (ap (read_digits false 0) (skip_while-spaces n c (ds ++ unit kb) h.0.0)
        ∙ read_digits-number c ds (unit kb) h (Stops-unit kb))

LastNot-number :
    (c : ℕ) (ds : Bytes) (kb : Bool) → Digits (c ∷ ds) → LastNot is_loose (c ∷ (ds ++ unit kb))
unfolding is_white is_loose
LastNot-number c ds true h = LastNot-append is_loose (c ∷ ds) 32 (107 ∷ 66 ∷ []) refl
LastNot-number c ds false h =
    subst (λ x. LastNot is_loose (c ∷ x)) (sym (append-nil ds)) (LastNot-Digits c ds h)

LastNot-value :
    (sep n c : ℕ) (ds : Bytes) (kb : Bool)
    → Digits (c ∷ ds)
    → LastNot is_loose (sep ∷ value_text n (c, ds) kb)
LastNot-value sep zero c ds kb h = LastNot-number c ds kb h
LastNot-value sep (suc n) c ds kb h = LastNot-value 32 n c ds kb h

digit-ne-newline : (c : ℕ) → is_digit c ≡ true → c == 10 ≡ false
unfolding is_digit
digit-ne-newline c d = ground arith

Lacks-digits : (ds : Bytes) (kb : Bool) → Digits ds → Lacks 10 (ds ++ unit kb)
Lacks-digits [] true h = (refl, (refl, (refl, tt)))
Lacks-digits [] false h = tt
Lacks-digits (c ∷ ds) kb (d, h) = (digit-ne-newline c d, Lacks-digits ds kb h)

Lacks-value :
    (n c : ℕ) (ds : Bytes) (kb : Bool) → Digits (c ∷ ds) → Lacks 10 (value_text n (c, ds) kb)
Lacks-value zero c ds kb (d, h) = (digit-ne-newline c d, Lacks-digits ds kb h)
Lacks-value (suc n) c ds kb h = (refl, Lacks-value n c ds kb h)

-- An entry's line holds no newline.
pub AllLack-lines :
    (sep : ℕ) (es : List Entry)
    → sep == 10 ≡ false
    → AllEntries sep es
    → AllLack 10 (map (line_of sep) es)
AllLack-lines sep [] ne h = tt
AllLack-lines sep (e ∷ es) ne (h, hs) = (
  (
    h.one_line.0,
    Lacks-append 10 e.others (sep ∷ value_text e.spaces e.number e.in_kb) h.one_line.1
        (ne, Lacks-value e.spaces e.number.0 e.number.1 e.in_kb h.number.0),
  ),
  AllLack-lines sep es ne hs,
)

-- A round reads the key and the value off an entry's line.
pub read_entry-line_of :
    (sep : ℕ) (e : Entry)
    → IsEntry sep e
    → read_entry sep (line_of sep e) ≡ some (key_of e, value_of e)
unfolding read_entry
read_entry-line_of sep e h =
    let tight : tidy (line_of sep e) ≡ line_of sep e =
      tidy-tight e.first (e.others ++ (sep ∷ value_text e.spaces e.number e.in_kb)) h.starts (
        LastNot-append is_loose (e.first ∷ e.others) sep (value_text e.spaces e.number e.in_kb)
          (LastNot-value sep e.spaces e.number.0 e.number.1 e.in_kb h.number.0)) in
    let keyed : cut sep (line_of sep e) ≡ some (key_of e, value_text e.spaces e.number e.in_kb) =
      cut-append sep (key_of e) (value_text e.spaces e.number e.in_kb) h.whole in
    let valued : parse_value (value_text e.spaces e.number e.in_kb) ≡ some (value_of e) =
      parse_value-text e.spaces e.number.0 e.number.1 e.in_kb h.number in
    rw tight (simp (keyed, valued))
