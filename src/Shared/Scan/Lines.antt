-- ===== src/Shared/Scan/Lines.antt =====
-- The lines of a text, and what the loop over them does.
use mathlib.Core.Option
use mathlib.Core.Path.{◌≡◌, refl, ap, sym, ◌∙◌}
use Prim.Native.Nat.{ℕ, zero, suc, ◌≤◌}
use mathlib.Core.Bool.{true, false}
use mathlib.Core.Logic.{inl, inr}
use mathlib.Core.Option.{Option, none, some}
use mathlib.Core.List.{List, [], ◌∷◌, ◌++◌}
use native.Mathlib.Omega.{arith}
use edge_telemetry_daemon.Shared.Tests.{◌==◌, Bool-cases}
use edge_telemetry_daemon.Shared.Lists.{length}
use edge_telemetry_daemon.Shared.Text.{Bytes}
use edge_telemetry_daemon.Shared.Scan.{cut_line, scan_lines, cut}

-- A byte at the head of the first line.
abbrev grow : ℕ → List Bytes → List Bytes
grow c [] = (c ∷ []) ∷ []
grow c (l ∷ ls) = (c ∷ l) ∷ ls

-- The lines of a text: a newline ends one, and what follows the last newline is one if there is any.
unfoldable pub lines : Bytes → List Bytes
lines [] = []
lines (c ∷ b) = elim (c == 10) [ true ↦ [] ∷ lines b | false ↦ grow c (lines b) ]

-- The lines' texts, each with a newline at its end.
unfoldable pub unlines : List Bytes → Bytes
unlines [] = []
unlines (l ∷ ls) = l ++ (10 ∷ unlines ls)

-- No byte of the text is `c`.
abbrev pub Lacks : ℕ → Bytes → Type 0
Lacks c [] = Unit
Lacks c (x ∷ b) = (x == c ≡ false) × Lacks c b

abbrev pub AllLack : ℕ → List Bytes → Type 0
AllLack c [] = Unit
AllLack c (l ∷ ls) = Lacks c l × AllLack c ls

-- A step at each line in turn.
unfoldable pub over {ℓ} : {S : Type ℓ} → (Bytes → S → S) → List Bytes → S → S
over step [] s = s
over step (l ∷ ls) s = over step ls (step l s)

cut_line-newline : (c : ℕ) (b : Bytes) → c == 10 ≡ true → cut_line (c ∷ b) ≡ ([], b)
unfolding cut_line
cut_line-newline c b e = simp (cut_line, e)

cut_line-other :
    (c : ℕ) (b : Bytes) → c == 10 ≡ false → cut_line (c ∷ b) ≡ (c ∷ (cut_line b).0, (cut_line b).1)
unfolding cut_line
cut_line-other c b e = simp (cut_line, e)

lines-newline : (c : ℕ) (b : Bytes) → c == 10 ≡ true → lines (c ∷ b) ≡ [] ∷ lines b
unfolding lines
lines-newline c b e = simp (lines, e)

lines-other : (c : ℕ) (b : Bytes) → c == 10 ≡ false → lines (c ∷ b) ≡ grow c (lines b)
unfolding lines
lines-other c b e = simp (lines, e)

cut_line-nil : cut_line [] ≡ ([], [])
unfolding cut_line
cut_line-nil = refl

lines-nil : lines [] ≡ []
unfolding lines
lines-nil = refl

cut_line-le : (b : Bytes) → length (cut_line b).1 ≤ length b
cut_line-le [] = rw cut_line-nil (omega arith)
cut_line-le (c ∷ b) = elim (Bool-cases (c == 10)) [
  | inl e ↦ rw (cut_line-newline c b e) (omega arith)
  | inr e ↦ rw (cut_line-other c b e) (omega (arith, cut_line-le b))
]

cut_line-lt : (c : ℕ) (b : Bytes) → length (cut_line (c ∷ b)).1 ≤ length b
cut_line-lt c b = elim (Bool-cases (c == 10)) [
  | inl e ↦ rw (cut_line-newline c b e) (omega arith)
  | inr e ↦ rw (cut_line-other c b e) (cut_line-le b)
]

lines-cut_line :
    (c : ℕ) (b : Bytes) → lines (c ∷ b) ≡ (cut_line (c ∷ b)).0 ∷ lines (cut_line (c ∷ b)).1
lines-cut_line c [] = elim (Bool-cases (c == 10)) [
  | inl e ↦ rw (cut_line-newline c [] e) (lines-newline c [] e)
  | inr e ↦ rw (cut_line-other c [] e) (lines-other c [] e ∙ rw cut_line-nil (rw lines-nil refl))
]
lines-cut_line c (d ∷ b) = elim (Bool-cases (c == 10)) [
  | inl e ↦ rw (cut_line-newline c (d ∷ b) e) (lines-newline c (d ∷ b) e)
  | inr e ↦
      rw (cut_line-other c (d ∷ b) e) (lines-other c (d ∷ b) e ∙ ap (grow c) (lines-cut_line d b))
]

-- The loop takes the lines one by one, and as many rounds as there are bytes are enough.
pub scan_lines-over {ℓ} :
    {S : Type ℓ} (step : Bytes → S → S) (k : ℕ) (b : Bytes) (s : S)
    → length b ≤ k
    → scan_lines step k b s ≡ over step (lines b) s
unfolding scan_lines over
scan_lines-over step zero [] s h = rw lines-nil refl
scan_lines-over step zero (c ∷ b) s h = absurd (omega arith)
scan_lines-over step (suc k) [] s h = rw lines-nil refl
scan_lines-over step (suc k) (c ∷ b) s h =
    let (line, rest) = cut_line (c ∷ b) in
    scan_lines-over step k rest (step line s) (omega (arith, cut_line-lt c b))
    ∙ ap (λ ls. over step ls s) (sym (lines-cut_line c b))

cut_line-unlines : (l : Bytes) (b : Bytes) → Lacks 10 l → cut_line (l ++ (10 ∷ b)) ≡ (l, b)
cut_line-unlines [] b h = cut_line-newline 10 b refl
cut_line-unlines (x ∷ l) b (e, h) =
    cut_line-other x (l ++ (10 ∷ b)) e
    ∙ ap (λ (r : Bytes × Bytes). (x ∷ r.0, r.1)) (cut_line-unlines l b h)

-- A text that was made of lines has those lines.
pub lines-unlines : (ls : List Bytes) → AllLack 10 ls → lines (unlines ls) ≡ ls
unfolding unlines
lines-unlines [] h = lines-nil
lines-unlines ([] ∷ ls) (hl, h) =
    lines-newline 10 (unlines ls) refl ∙ ap (λ r. [] ∷ r) (lines-unlines ls h)
lines-unlines ((x ∷ l) ∷ ls) (hl, h) =
    lines-cut_line x (l ++ (10 ∷ unlines ls))
    ∙ rw (cut_line-unlines (x ∷ l) (unlines ls) hl) (ap (λ r. (x ∷ l) ∷ r) (lines-unlines ls h))

cut-other :
    (sep x : ℕ) (b : Bytes)
    → x == sep ≡ false
    → cut sep (x ∷ b) ≡ Option.map (λ (r : Bytes × Bytes). (x ∷ r.0, r.1)) (cut sep b)
unfolding cut
cut-other sep x b e = simp (cut, e)

-- A text is cut at the first separator.
pub cut-append :
    (sep : ℕ) (key rest : Bytes) → Lacks sep key → cut sep (key ++ (sep ∷ rest)) ≡ some (key, rest)
unfolding cut
cut-append sep [] rest h = ground arith
cut-append sep (x ∷ key) rest (d, h) =
    cut-other sep x (key ++ (sep ∷ rest)) d
    ∙ ap (Option.map (λ (r : Bytes × Bytes). (x ∷ r.0, r.1))) (cut-append sep key rest h)

pub Lacks-append : (c : ℕ) (a b : Bytes) → Lacks c a → Lacks c b → Lacks c (a ++ b)
Lacks-append c [] b h k = k
Lacks-append c (x ∷ a) b (e, h) k = (e, Lacks-append c a b h k)

-- The loop over a text that was made of lines.
pub scan_lines-unlines {ℓ} :
    {S : Type ℓ} (step : Bytes → S → S) (ls : List Bytes) (s : S)
    → AllLack 10 ls
    → scan_lines step (length (unlines ls)) (unlines ls) s ≡ over step ls s
scan_lines-unlines step ls s h =
    scan_lines-over step (length (unlines ls)) (unlines ls) s (omega arith)
    ∙ ap (λ x. over step x s) (lines-unlines ls h)
