-- ===== src/Metrics/Adders/Progress.antt =====
-- That Add comes to its end.
use mathlib.Core.Logic.{if_pos}
use native.Mathlib.Decide.{dec_lt}
use edge_telemetry_daemon.Shared.{
  ℕ, zero, suc, ◌≡◌, refl, ap, ◌∙◌, true, false, arith, length, ◌==◌, Bool-cases, inl, inr,
}
use edge_telemetry_daemon.Shared.Float.{Float}
use edge_telemetry_daemon.Metrics.{FloatBits, new_bits}
use edge_telemetry_daemon.Metrics.Adders.{
  Adder, ready, loaded, finished, Gauge, update, times, Fresh, Contended, begin, after_swap, load,
  swap, Reach, here, next,
}
use edge_telemetry_daemon.Metrics.Adders.Order.{Reach-Inv, swap-hit, swap-miss}

Contended-fresh : (g : Gauge) (a : Adder) → Fresh g.word (length g.log) a → Contended g a
Contended-fresh g (ready v) h = tt
Contended-fresh g (loaded v old seen) (le, same) = elim (dec_lt seen (length g.log)) [
  | yes later ↦ inr later
  | no now ↦ inl (same (omega arith))
]
Contended-fresh g (finished v) h = tt

module _ {ℓ} {F : Type ℓ} ⦃f : Float F⦄ (w : FloatBits F) where
  -- The next step of a thread: there is one until it has finished.
  abbrev pub moved : Adder → ℕ → Gauge → Gauge
  moved (ready v) i g = record g { adders = update g.adders i (loaded v g.word (length g.log)) }
  moved (loaded v old seen) i g = after_swap w g i v old
  moved (finished v) i g = g

  pub advance : ℕ → Gauge → Gauge
  advance i g = moved (g.adders i) i g

  -- A thread alone for some steps.
  pub alone : ℕ → ℕ → Gauge → Gauge
  alone zero i g = g
  alone (suc n) i g = alone n i (advance i g)

  moved-Reach : (g : Gauge) (i : ℕ) (a : Adder) → g.adders i ≡ a → Reach w g (moved a i g)
  moved-Reach g i (ready v) e = next here (load g i v e)
  moved-Reach g i (loaded v old seen) e = next here (swap g i v old seen e)
  moved-Reach g i (finished v) e = here

  Reach-trans : {s g g' : Gauge} → Reach w s g → Reach w g g' → Reach w s g'
  Reach-trans r here = r
  Reach-trans r (next q st) = next (Reach-trans r q) st

  alone-Reach : (n i : ℕ) (g : Gauge) → Reach w g (alone n i g)
  unfolding alone advance
  alone-Reach zero i g = here
  alone-Reach (suc n) i g =
      Reach-trans (moved-Reach g i (g.adders i) refl) (alone-Reach n i (advance i g))

  -- A thread that has finished makes no steps.
  moved_finished : (a : Adder) (i : ℕ) (g : Gauge) → times a ≡ 1 → moved a i g ≡ g
  moved_finished (ready v) i g e = absurd (omega (arith, e))
  moved_finished (loaded v old seen) i g e = absurd (omega (arith, e))
  moved_finished (finished v) i g e = refl

  advance_stays : (g : Gauge) (i : ℕ) → times (g.adders i) ≡ 1 → times ((advance i g).adders i) ≡ 1
  unfolding advance
  advance_stays g i e =
      ap (λ (x : Gauge). times (x.adders i)) (moved_finished (g.adders i) i g e) ∙ e

  after_swap-hit :
      (g : Gauge) (i v old : ℕ)
      → g.word == old ≡ true
      → times ((after_swap w g i v old).adders i) ≡ 1
  unfolding after_swap
  after_swap-hit g i v old same =
      rw (swap-hit old (new_bits w v old) g.word same) (rw (if_pos _ refl) refl)

  after_swap-miss :
      (g : Gauge) (i v old : ℕ)
      → g.word == old ≡ false
      → after_swap w g i v old ≡ record g { adders = update g.adders i (ready v) }
  unfolding after_swap
  after_swap-miss g i v old other = rw (swap-miss old (new_bits w v old) g.word other) refl

  -- From Load on, two steps are enough.
  ready_finishes :
      (g : Gauge) (i v : ℕ) → g.adders i ≡ ready v → times ((advance i (advance i g)).adders i) ≡ 1
  unfolding advance
  ready_finishes g i v e =
      let g1 = moved (ready v) i g in
      let at : g1.adders i ≡ loaded v g.word (length g.log) = rw (if_pos _ refl) refl in
      ap (λ a. times ((advance i (moved a i g)).adders i)) e
      ∙ ap (λ a. times ((moved a i g1).adders i)) at
      ∙ after_swap-hit g1 i v g.word (ground arith)

  finishes : (g : Gauge) (i : ℕ) (a : Adder) → g.adders i ≡ a → times ((alone 3 i g).adders i) ≡ 1
  unfolding alone advance
  finishes g i (ready v) e = advance_stays (advance i (advance i g)) i (ready_finishes g i v e)
  finishes g i (finished v) e =
      let at : times (g.adders i) ≡ 1 = ap times e in
      advance_stays (advance i (advance i g)) i
        (advance_stays (advance i g) i (advance_stays g i at))
  finishes g i (loaded v old seen) e = elim (Bool-cases (g.word == old)) [
    | inl same ↦
        let at : times ((advance i g).adders i) ≡ 1 =
          ap (λ a. times ((moved a i g).adders i)) e ∙ after_swap-hit g i v old same in
        advance_stays (advance i (advance i g)) i (advance_stays (advance i g) i at)
    | inr other ↦
        let g1 : Gauge = record g { adders = update g.adders i (ready v) } in
        ap (λ a. times ((advance i (advance i (moved a i g))).adders i)) e
        ∙ ap (λ (x : Gauge). times ((advance i (advance i x)).adders i))
            (after_swap-miss g i v old other)
        ∙ ready_finishes g1 i v (rw (if_pos _ refl) refl)
  ]

  -- While threads that each call Add once on a gauge interleave, any of them, left to run alone, has
  -- finished after three steps; and a CompareAndSwap that fails does so because another addition was
  -- made since Load.
  pub adder_finishes :
      (start : ℕ) (values : ℕ → ℕ) {g : Gauge} (i : ℕ)
      → Reach w (begin start values) g
      → Reach w g (alone 3 i g) × (times ((alone 3 i g).adders i) ≡ 1) × Contended g (g.adders i)
  adder_finishes start values {g} i r = (
    alone-Reach 3 i g,
    finishes g i (g.adders i) refl,
    Contended-fresh g (g.adders i) ((Reach-Inv w r).fresh i),
  )
