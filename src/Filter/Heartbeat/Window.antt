-- ===== src/Filter/Heartbeat/Window.antt =====
-- What a summary says of the samples of its window.
use edge_telemetry_daemon.Shared.{
  ℕ, ◌+◌, ◌%◌, ◌<◌, ◌≡◌, refl, ap, ◌∙◌, Bool, false, arith, List, [], ◌∷◌, length, if◌then◌else◌,
  u64_mod,
}
use edge_telemetry_daemon.Shared.Time.{Time}
use edge_telemetry_daemon.Shared.Float.{Float, nought}
use edge_telemetry_daemon.Filter.Heartbeat.{HeartbeatAggregator, observe, flush}

pub record Sample {ℓ} (F : Type ℓ) : Type ℓ where
  pub val : F
  pub anomalous : Bool
  pub suppressed : Bool

abbrev pub count_of {ℓ} : {F : Type ℓ} → (Sample F → Bool) → List (Sample F) → ℕ
count_of p [] = 0
count_of p (x ∷ xs) = (if p x then 1 else 0) + count_of p xs

abbrev pub vals {ℓ} : {F : Type ℓ} → List (Sample F) → List F
vals [] = []
vals (x ∷ xs) = x.val ∷ vals xs

module _ {ℓ} {F : Type ℓ} ⦃f : Float F⦄ where
  abbrev pub observe_all : HeartbeatAggregator F → List (Sample F) → HeartbeatAggregator F
  observe_all h [] = h
  observe_all h (x ∷ xs) = observe_all (observe h x.val x.anomalous x.suppressed) xs

  -- The sum in the order of the samples.
  abbrev pub sum_onto : F → List F → F
  sum_onto acc [] = acc
  sum_onto acc (x ∷ xs) = sum_onto (f.add acc x) xs

  -- The start of a window, as the constructor, `Flush` and `Reset` leave it.
  pub record IsFresh (h : HeartbeatAggregator F) : Type ℓ where
    pub no_samples : h.total_samples ≡ 0
    pub no_anomalies : h.anomalous_count ≡ 0
    pub no_suppressed : h.suppressed_count ≡ 0
    pub no_sum : h.sum_val ≡ nought
    pub no_val : h.has_val ≡ false

  record Totals (h h' : HeartbeatAggregator F) (xs : List (Sample F)) : Type ℓ where
    samples : h'.total_samples ≡ (h.total_samples + length xs) % u64_mod
    anomalies : h'.anomalous_count ≡ (h.anomalous_count + count_of (λ x. x.anomalous) xs) % u64_mod
    suppressions :
        h'.suppressed_count ≡ (h.suppressed_count + count_of (λ x. x.suppressed) xs) % u64_mod
    sums : h'.sum_val ≡ sum_onto h.sum_val (vals xs)

  observe-Totals :
      (h : HeartbeatAggregator F) (x : Sample F)
      → h.total_samples < u64_mod
      → h.anomalous_count < u64_mod
      → h.suppressed_count < u64_mod
      → Totals h (observe h x.val x.anomalous x.suppressed) (x ∷ [])
  unfolding observe
  observe-Totals h x a b c = record {
    samples = omega arith;
    anomalies = ground arith;
    suppressions = ground arith;
    sums = refl;
  }

  observe_all-Totals :
      (h : HeartbeatAggregator F) (xs : List (Sample F))
      → h.total_samples < u64_mod
      → h.anomalous_count < u64_mod
      → h.suppressed_count < u64_mod
      → Totals h (observe_all h xs) xs
  observe_all-Totals h [] a b c = record {
    samples = omega arith;
    anomalies = omega arith;
    suppressions = omega arith;
    sums = refl;
  }
  observe_all-Totals h (x ∷ xs) a b c =
      let h' = observe h x.val x.anomalous x.suppressed in
      let one = observe-Totals h x a b c in
      let rest =
        observe_all-Totals h' xs (omega (arith, one.samples)) (omega (arith, one.anomalies))
          (omega (arith, one.suppressions)) in
      record {
        samples = omega (arith, rest.samples, one.samples);
        anomalies = omega (arith, rest.anomalies, one.anomalies);
        suppressions = omega (arith, rest.suppressions, one.suppressions);
        sums = rest.sums ∙ ap (λ acc. sum_onto acc (vals xs)) one.sums;
      }

  observe_all-window_start :
      (h : HeartbeatAggregator F) (xs : List (Sample F))
      → (observe_all h xs).window_start ≡ h.window_start
  unfolding observe
  observe_all-window_start h [] = refl
  observe_all-window_start h (x ∷ xs) =
      observe_all-window_start (observe h x.val x.anomalous x.suppressed) xs

  -- The summary of a window that began fresh counts its samples, its anomalies and its suppressions,
  -- modulo 2 ^ 64, sums the values in order, and starts where the window did; and the next window is
  -- fresh and starts at the flush.
  pub flush-observe_all :
      (h : HeartbeatAggregator F) (xs : List (Sample F)) (now : Time)
      → IsFresh h
      → let (s, next) = flush (observe_all h xs) now in
        (s.total_samples ≡ length xs % u64_mod)
        × (s.anomalous_count ≡ count_of (λ x. x.anomalous) xs % u64_mod)
        × (s.suppressed_count ≡ count_of (λ x. x.suppressed) xs % u64_mod)
        × (s.sum_val ≡ sum_onto nought (vals xs))
        × (s.start_time ≡ h.window_start)
        × (s.end_time ≡ now)
        × IsFresh next
        × (next.window_start ≡ now)
  unfolding flush
  flush-observe_all h xs now fresh =
      let t = observe_all-Totals h xs (omega arith) (omega arith) (omega arith) in
      (
        omega (arith, t.samples),
        omega (arith, t.anomalies),
        omega (arith, t.suppressions),
        t.sums ∙ ap (λ acc. sum_onto acc (vals xs)) fresh.no_sum,
        observe_all-window_start h xs,
        refl,
        record {
          no_samples = refl;
          no_anomalies = refl;
          no_suppressed = refl;
          no_sum = refl;
          no_val = refl;
        },
        refl,
      )
