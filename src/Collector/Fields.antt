-- ===== src/Collector/Fields.antt =====
-- What the parser reads off a row of decimal numbers.

use mathlib.Core.Path.{subst}
use edge_telemetry_daemon.Shared.{
  ℕ, suc, ◌+◌, ◌%◌, ◌^◌, ◌<◌, ◌≡◌, refl, ap, ◌∙◌, Bool, true, false, arith, none, some, map,
  if◌then◌else◌, List, [], ◌∷◌, map, if◌then◌else◌, ◌++◌, add64, u64_mod,
}
use edge_telemetry_daemon.Shared.Text.{Bytes, codes}
use edge_telemetry_daemon.Shared.Scan.{is_digit, is_blank, skip_while}
use edge_telemetry_daemon.Shared.Decimal.{
  digit-ne-blank, Number, value, IsNumber, Numbers, read_digits-number, skip_while-go,
  skip_while-stop,
}
use edge_telemetry_daemon.Collector.{
  is_space, next_uint, skip_word, rest_or_none, skip_token, read_fields, stats_of, parse_cpu_line,
}

next_uint-number :
    (c : ℕ) (ds rest : Bytes) (s : ℕ)
    → IsNumber (c, ds)
    → is_digit s ≡ false
    → next_uint (c ∷ (ds ++ (s ∷ rest))) ≡ some (skip_while is_space (s ∷ rest), value (c, ds))
unfolding next_uint
next_uint-number c ds rest s n end =
    ap (λ (r : Bool × (ℕ × Bytes)). if r.0 then some (skip_while is_space r.1.1, r.1.0) else none)
      (read_digits-number c ds (s ∷ rest) n end)

-- The numbers with a space between them and a newline at the end, then more.
pub row : Number → List Number → Bytes → Bytes
row (c, ds) [] tail = c ∷ (ds ++ (10 ∷ tail))
row (c, ds) (x ∷ xs) tail = c ∷ (ds ++ (32 ∷ row x xs tail))

digit-ne-space : (c : ℕ) → is_digit c ≡ true → is_space c ≡ false
unfolding is_digit is_space is_blank
digit-ne-space c d = ground arith

space-is_space : is_space 32 ≡ true
unfolding is_space is_blank
space-is_space = refl

skip_while-row :
    (x : Number) (xs : List Number) (tail : Bytes)
    → IsNumber x
    → skip_while is_space (32 ∷ row x xs tail) ≡ row x xs tail
unfolding row
skip_while-row (c, ds) [] tail n =
    skip_while-go is_space 32 _ space-is_space
    ∙ skip_while-stop is_space c _ (digit-ne-space c n.0.0)
skip_while-row (c, ds) (y ∷ ys) tail n =
    skip_while-go is_space 32 _ space-is_space
    ∙ skip_while-stop is_space c _ (digit-ne-space c n.0.0)

read_fields-step :
    (k t v : ℕ) (b r : Bytes) (s : List ℕ × ℕ)
    → next_uint b ≡ some (r, v)
    → read_fields k (add64 t v) r ≡ some s
    → read_fields (suc k) t b ≡ some (v ∷ s.0, s.1)
unfolding read_fields
read_fields-step k t v b r s p q = simp (read_fields, p, q)

pub sum : List ℕ → ℕ
sum [] = 0
sum (v ∷ vs) = v + sum vs

-- One less than a row has numbers, counted so that the parser computes.
abbrev pub further : List Number → ℕ
further [] = 0
further (x ∷ xs) = suc (further xs)

read_fields-none : (t : ℕ) (b : Bytes) → read_fields 0 t b ≡ some ([], t)
unfolding read_fields
read_fields-none t b = refl

newline-ne-digit : is_digit 10 ≡ false
unfolding is_digit
newline-ne-digit = refl

space-ne-digit : is_digit 32 ≡ false
unfolding is_digit
space-ne-digit = refl

read_fields-row :
    (t : ℕ) (x : Number) (xs : List Number) (tail : Bytes)
    → t < 2 ^ 64
    → Numbers (x ∷ xs)
    → read_fields (suc (further xs)) t (row x xs tail)
      ≡ some (map value (x ∷ xs), (t + sum (map value (x ∷ xs))) % u64_mod)
unfolding row sum
read_fields-row t (c, ds) [] tail small (n, ns) =
    read_fields-step 0 t (value (c, ds)) (c ∷ (ds ++ (10 ∷ tail))) _ _
      (next_uint-number c ds tail 10 n newline-ne-digit) (read_fields-none _ _)
    ∙ ap (λ k. some (value (c, ds) ∷ [], k)) (omega arith)
read_fields-row t (c, ds) (y ∷ ys) tail small (n, ns) =
    let v = value (c, ds) in
    read_fields-step (suc (further ys)) t v (c ∷ (ds ++ (32 ∷ row y ys tail))) (row y ys tail) _
      (next_uint-number c ds (row y ys tail) 32 n space-ne-digit
        ∙ ap (λ r. some (r, v)) (skip_while-row y ys tail ns.0))
      (read_fields-row (add64 t v) y ys tail (omega arith) ns)
    ∙ ap (λ k. some (v ∷ map value (y ∷ ys), k)) (omega arith)

blank-is_blank : is_blank 32 ≡ true
unfolding is_blank
blank-is_blank = refl

skip_word-label : (b : Bytes) → skip_word (codes "cpu  " ++ b) ≡ 32 ∷ 32 ∷ b
unfolding skip_word is_blank
skip_word-label b = refl

skip_token-label :
    (c : ℕ) (b : Bytes) → is_digit c ≡ true → skip_token (codes "cpu  " ++ (c ∷ b)) ≡ some (c ∷ b)
unfolding skip_token rest_or_none
skip_token-label c b d = ap rest_or_none (
    ap (skip_while is_blank) (skip_word-label (c ∷ b))
    ∙ skip_while-go is_blank 32 (32 ∷ c ∷ b) blank-is_blank
    ∙ skip_while-go is_blank 32 (c ∷ b) blank-is_blank
    ∙ skip_while-stop is_blank c b (digit-ne-blank c d))

label-skipped :
    (x : Number) (xs : List Number) (tail : Bytes)
    → IsNumber x
    → skip_token (codes "cpu  " ++ row x xs tail) ≡ some (row x xs tail)
unfolding row
label-skipped (c, ds) [] tail n = skip_token-label c _ n.0.0
label-skipped (c, ds) (y ∷ ys) tail n = skip_token-label c _ n.0.0

parse_cpu_line-stats_of :
    (x : Number) (xs : List Number) (tail : Bytes)
    → further xs ≡ 9
    → Numbers (x ∷ xs)
    → parse_cpu_line (codes "cpu  " ++ row x xs tail)
      ≡ stats_of (map value (x ∷ xs)) (sum (map value (x ∷ xs)) % u64_mod)
unfolding parse_cpu_line
parse_cpu_line-stats_of x xs tail ten numbers =
    let fields : read_fields 10 0 (row x xs tail)
        ≡ some (map value (x ∷ xs), sum (map value (x ∷ xs)) % u64_mod) =
      subst
        (λ k.
          read_fields (suc k) 0 (row x xs tail)
          ≡ some (map value (x ∷ xs), sum (map value (x ∷ xs)) % u64_mod))
        ten
        (read_fields-row 0 x xs tail (omega arith) numbers
          ∙ ap (λ k. some (map value (x ∷ xs), k)) (omega arith)) in
    simp (parse_cpu_line, label-skipped x xs tail numbers.0, fields)

-- From a line `cpu` with ten decimal numbers below 2^64, with two spaces before them, one between
-- them and a newline after, parseCPULine reads the first as the user time, and so on for nice, system,
-- idle, iowait, irq, softirq, steal, guest and guest-nice, and takes as the total the sum of the ten
-- modulo 2^64, whatever follows the line.
pub parse_cpu_line-row :
    (a b c d e g h i j k : Number) (tail : Bytes)
    → Numbers (a ∷ b ∷ c ∷ d ∷ e ∷ g ∷ h ∷ i ∷ j ∷ k ∷ [])
    → parse_cpu_line (codes "cpu  " ++ row a (b ∷ c ∷ d ∷ e ∷ g ∷ h ∷ i ∷ j ∷ k ∷ []) tail)
      ≡ some (record {
        user = value a;
        nice = value b;
        system = value c;
        idle = value d;
        iowait = value e;
        irq = value g;
        softirq = value h;
        steal = value i;
        guest = value j;
        guest_n = value k;
        total =
            (value a
              + value b
              + value c
              + value d
              + value e
              + value g
              + value h
              + value i
              + value j
              + value k)
            % u64_mod;
      })
unfolding stats_of sum
parse_cpu_line-row a b c d e g h i j k tail numbers =
    parse_cpu_line-stats_of a (b ∷ c ∷ d ∷ e ∷ g ∷ h ∷ i ∷ j ∷ k ∷ []) tail refl numbers
    ∙ ap
        (λ (t : ℕ). some (record {
          user = value a;
          nice = value b;
          system = value c;
          idle = value d;
          iowait = value e;
          irq = value g;
          softirq = value h;
          steal = value i;
          guest = value j;
          guest_n = value k;
          total = t;
        }))
        (omega arith)
