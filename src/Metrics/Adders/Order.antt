-- ===== src/Metrics/Adders/Order.antt =====
-- What the word of a gauge is, and which additions made it.
use mathlib.Core.Logic.{if_pos, if_neg}
use mathlib.Core.Path.{subst}
use native.Mathlib.Decide.{ℕ_discrete}
use edge_telemetry_daemon.Shared.{
  ℕ, suc, ◌≡◌, ◌≢◌, refl, sym, ap, ◌∙◌, true, false, ◌∷◌, arith, length, ◌==◌, Bool-cases, inl, inr,
}
use edge_telemetry_daemon.Shared.Float.{Float}
use edge_telemetry_daemon.Metrics.{FloatBits, new_bits, compare_and_swap}
use edge_telemetry_daemon.Metrics.Adders.{
  Adder, ready, loaded, finished, Gauge, update, count, times, amount, Logged, Fresh, begin,
  after_swap, Step, load, swap, Reach, here, next, added,
}

Fresh-later : (word word' made : ℕ) (a : Adder) → Fresh word made a → Fresh word' (suc made) a
Fresh-later word word' made (ready v) h = tt
Fresh-later word word' made (loaded v old seen) (le, same) =
    (omega arith, λ e. absurd (omega arith))
Fresh-later word word' made (finished v) h = tt

-- To prove something of every thread after one has moved.
update_ind {ℓ} :
    (P : ℕ → Adder → Type ℓ) (f : ℕ → Adder) (i : ℕ) (a : Adder)
    → P i a
    → ((j : ℕ) → i ≢ j → P j (f j))
    → (j : ℕ) → P j (update f i a j)
update_ind P f i a moved others j = elim (ℕ_discrete i j) [
  | yes p ↦ rw (if_pos _ p) (subst (λ k. P k a) p moved)
  | no p ↦ rw (if_neg _ p) (others j p)
]

pub swap-hit : (old new word : ℕ) → word == old ≡ true → compare_and_swap old new word ≡ (new, true)
unfolding compare_and_swap
swap-hit old new word e = rw e refl

pub swap-miss :
    (old new word : ℕ) → word == old ≡ false → compare_and_swap old new word ≡ (word, false)
unfolding compare_and_swap
swap-miss old new word e = rw e refl

module _ {ℓ} {F : Type ℓ} ⦃f : Float F⦄ (w : FloatBits F) where
  pub record Inv (start : ℕ) (values : ℕ → ℕ) (g : Gauge) : Type 0 where
    pub word : g.word ≡ added w start g.log
    pub amounts : (i : ℕ) → amount (g.adders i) ≡ values i
    pub logged : Logged values g.log
    pub once : (i : ℕ) → count i g.log ≡ times (g.adders i)
    pub fresh : (i : ℕ) → Fresh g.word (length g.log) (g.adders i)

  -- The two outcomes of CompareAndSwap.
  miss-Inv :
      {start : ℕ} {values : ℕ → ℕ} (g : Gauge) (i v old seen : ℕ)
      → g.adders i ≡ loaded v old seen
      → Inv start values g
      → Inv start values (record g { adders = update g.adders i (ready v) })
  miss-Inv {values = values} g i v old seen e inv = record {
    word = inv.word;
    amounts =
        update_ind (λ j a. amount a ≡ values j) g.adders i (ready v)
          (sym (ap amount e) ∙ inv.amounts i) (λ j _. inv.amounts j);
    logged = inv.logged;
    once =
        update_ind (λ j a. count j g.log ≡ times a) g.adders i (ready v) (inv.once i ∙ ap times e)
          (λ j _. inv.once j);
    fresh =
        update_ind (λ j a. Fresh g.word (length g.log) a) g.adders i (ready v) tt
          (λ j _. inv.fresh j);
  }

  hit-Inv :
      {start : ℕ} {values : ℕ → ℕ} (g : Gauge) (i v old seen : ℕ)
      → g.adders i ≡ loaded v old seen
      → g.word ≡ old
      → Inv start values g
      → Inv start values (record g {
        word = new_bits w v old;
        adders = update g.adders i (finished v);
        log = (i, v) ∷ g.log;
      })
  unfolding added
  hit-Inv {values = values} g i v old seen e same inv = record {
    word = ap (new_bits w v) (sym same ∙ inv.word);
    amounts =
        update_ind (λ j a. amount a ≡ values j) g.adders i (finished v)
          (sym (ap amount e) ∙ inv.amounts i) (λ j _. inv.amounts j);
    logged = (sym (ap amount e) ∙ inv.amounts i, inv.logged);
    once =
        update_ind (λ j a. count j ((i, v) ∷ g.log) ≡ times a) g.adders i (finished v)
          (ground (arith, inv.once i ∙ ap times e)) (λ j ne. ground (arith, inv.once j));
    fresh =
        update_ind (λ j a. Fresh (new_bits w v old) (suc (length g.log)) a) g.adders i (finished v)
          tt
          (λ j _. Fresh-later g.word (new_bits w v old) (length g.log) (g.adders j) (inv.fresh j));
  }

  Step-Inv :
      {start : ℕ} {values : ℕ → ℕ} {g g' : Gauge}
      → Step w g g'
      → Inv start values g
      → Inv start values g'
  unfolding after_swap
  Step-Inv {values = values} (load g i v e) inv = record {
    word = inv.word;
    amounts =
        update_ind (λ j a. amount a ≡ values j) g.adders i (loaded v g.word (length g.log))
          (sym (ap amount e) ∙ inv.amounts i) (λ j _. inv.amounts j);
    logged = inv.logged;
    once =
        update_ind (λ j a. count j g.log ≡ times a) g.adders i (loaded v g.word (length g.log))
          (inv.once i ∙ ap times e) (λ j _. inv.once j);
    fresh =
        update_ind (λ j a. Fresh g.word (length g.log) a) g.adders i
          (loaded v g.word (length g.log)) (omega arith, λ _. refl) (λ j _. inv.fresh j);
  }
  Step-Inv (swap g i v old seen e) inv = elim (Bool-cases (g.word == old)) [
    | inl same ↦
        rw (swap-hit old (new_bits w v old) g.word same)
          (hit-Inv g i v old seen e (ground arith) inv)
    | inr other ↦ rw (swap-miss old (new_bits w v old) g.word other) (miss-Inv g i v old seen e inv)
  ]

  pub Reach-Inv :
      {start : ℕ} {values : ℕ → ℕ} {g : Gauge} → Reach w (begin start values) g → Inv start values g
  unfolding added
  Reach-Inv here = record {
    word = refl;
    amounts = λ _. refl;
    logged = tt;
    once = λ _. refl;
    fresh = λ _. tt;
  }
  Reach-Inv (next r st) = Step-Inv st (Reach-Inv r)

  -- However the rounds of threads that each call Add once on a gauge interleave, the gauge's word is
  -- what their values make of it when they are added one after the other, in some order: each thread
  -- that has finished is in that order once, with its value, and no other.
  pub Reach-added :
      (start : ℕ) (values : ℕ → ℕ) {g : Gauge}
      → Reach w (begin start values) g
      → (g.word ≡ added w start g.log)
        × Logged values g.log
        × ((i : ℕ) → count i g.log ≡ times (g.adders i))
  Reach-added start values r = let inv = Reach-Inv r in (inv.word, inv.logged, inv.once)
