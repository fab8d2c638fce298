-- ===== src/Metrics/Adders.antt =====
-- Several threads in Add on one gauge: what the loop of compare-and-swap comes to.
pub mod Order
pub mod Progress
use mathlib.Core.Logic.{ite, if_pos, if_neg}
use mathlib.Core.Path.{subst}
use native.Mathlib.Decide.{dec_lt, ℕ_discrete}
use edge_telemetry_daemon.Shared.{
  ℕ, suc, ◌+◌, ◌≤◌, ◌<◌, ◌≡◌, ◌≢◌, refl, sym, ap, ◌∙◌, true, false, List, [], ◌∷◌, arith, length,
  if◌then◌else◌, ◌==◌, Bool-cases, ◌⊎◌, inl, inr,
}
use edge_telemetry_daemon.Shared.Float.{Float}
use edge_telemetry_daemon.Metrics.{FloatBits, new_bits, compare_and_swap}

-- A thread that is to add `v`: before Load; with the word that it loaded, when so many additions had
-- been made; and after its CompareAndSwap.
pub data Adder : Type 0 where
  ready : ℕ → Adder
  loaded : ℕ → ℕ → ℕ → Adder
  finished : ℕ → Adder

-- The word, the threads, and the additions made, the newest first, with the thread of each.
pub record Gauge : Type 0 where
  pub word : ℕ
  pub adders : ℕ → Adder
  pub log : List (ℕ × ℕ)

abbrev pub update : (ℕ → Adder) → ℕ → Adder → ℕ → Adder
update f i a j = ite (ℕ_discrete i j) a (f j)

abbrev pub count : ℕ → List (ℕ × ℕ) → ℕ
count i [] = 0
count i ((j, v) ∷ log) = (if j == i then 1 else 0) + count i log

abbrev pub times : Adder → ℕ
times (ready v) = 0
times (loaded v old seen) = 0
times (finished v) = 1

-- What a thread adds.
abbrev pub amount : Adder → ℕ
amount (ready v) = v
amount (loaded v old seen) = v
amount (finished v) = v

-- Each addition is of its thread's value.
abbrev pub Logged : (ℕ → ℕ) → List (ℕ × ℕ) → Type 0
Logged values [] = Unit
Logged values ((i, v) ∷ log) = (v ≡ values i) × Logged values log

-- A loaded word is the one there, unless additions were made since.
abbrev pub Fresh : ℕ → ℕ → Adder → Type 0
Fresh word made (ready v) = Unit
Fresh word made (loaded v old seen) = (seen ≤ made) × (seen ≡ made → word ≡ old)
Fresh word made (finished v) = Unit

-- A word that was loaded is still there, or an addition was made since.
abbrev pub Contended : Gauge → Adder → Type 0
Contended g (ready v) = Unit
Contended g (loaded v old seen) = (g.word ≡ old) ⊎ (seen < length g.log)
Contended g (finished v) = Unit

-- Every thread is about to add its value.
abbrev pub begin : ℕ → (ℕ → ℕ) → Gauge
begin start values = record { word = start; adders = λ i. ready (values i); log = [] }

module _ {ℓ} {F : Type ℓ} ⦃f : Float F⦄ (w : FloatBits F) where
  -- What a thread finds with CompareAndSwap: it is done, or starts again.
  pub after_swap : Gauge → ℕ → ℕ → ℕ → Gauge
  after_swap g i v old =
      let (word, swapped) = compare_and_swap old (new_bits w v old) g.word in
      if swapped
      then record g { word = word; adders = update g.adders i (finished v); log = (i, v) ∷ g.log }
      else record g { word = word; adders = update g.adders i (ready v) }

  pub data Step : Gauge → Gauge → Type 0 where
    load :
        (g : Gauge) (i v : ℕ)
        → g.adders i ≡ ready v
        → Step g (record g { adders = update g.adders i (loaded v g.word (length g.log)) })
    swap :
        (g : Gauge) (i v old seen : ℕ)
        → g.adders i ≡ loaded v old seen
        → Step g (after_swap g i v old)

  pub data Reach (s : Gauge) : Gauge → Type 0 where
    here : Reach s s
    next : {g g' : Gauge} → Reach s g → Step g g' → Reach s g'

  -- The word after the additions of a log, one after the other.
  pub added : ℕ → List (ℕ × ℕ) → ℕ
  added start [] = start
  added start ((i, v) ∷ log) = new_bits w v (added start log)
