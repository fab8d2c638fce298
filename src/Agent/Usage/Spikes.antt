-- ===== src/Agent/Usage/Spikes.antt =====
-- How many readings an injected anomaly amplifies.
use edge_telemetry_daemon.Shared.{ℕ, zero, suc, ◌≡◌, refl, ap, ◌∙◌, List, [], ◌∷◌, arith, if_ind}
use edge_telemetry_daemon.Shared.Int.{pos, leb_ℤ, ◌-ℤ◌}
use edge_telemetry_daemon.Shared.Float.{Float}
use edge_telemetry_daemon.Agent.State.{Agent, Reading}
use edge_telemetry_daemon.Agent.Usage.{amplify, take_spike, inject_anomaly}

one_less : (n : ℕ) → pos (suc n) -ℤ pos 1 ≡ pos n
unfolding ◌-ℤ◌
one_less n = ground arith

module _ {ℓ} {F : Type ℓ} ⦃f : Float F⦄ where
  -- The spikes' part of several ticks: the readings afterwards.
  pub spiked : List (Reading F) → Agent F → List (Reading F)
  spiked [] a = []
  spiked (r ∷ rs) a = let (b, r') = take_spike a r in r' ∷ spiked rs b

  -- The first `n` readings amplified, and the others as they are.
  pub first_amplified : ℕ → List (Reading F) → List (Reading F)
  first_amplified n [] = []
  first_amplified zero (r ∷ rs) = r ∷ first_amplified zero rs
  first_amplified (suc n) (r ∷ rs) = amplify r ∷ first_amplified n rs

  take_spike-none :
      (a : Agent F) (r : Reading F) → a.inject_spikes ≡ pos 0 → take_spike a r ≡ (a, r)
  unfolding take_spike
  take_spike-none a r e =
      if_ind (λ (x : Agent F × Reading F). x ≡ (a, r)) (leb_ℤ a.inject_spikes (pos 0)) (λ _. refl)
        (λ t. absurd (ground (arith, e)))

  take_spike-some :
      (n : ℕ) (a : Agent F) (r : Reading F)
      → a.inject_spikes ≡ pos (suc n)
      → take_spike a r ≡ (record a { inject_spikes = pos n }, amplify r)
  unfolding take_spike
  take_spike-some n a r e =
      if_ind (λ (x : Agent F × Reading F). x ≡ (record a { inject_spikes = pos n }, amplify r))
        (leb_ℤ a.inject_spikes (pos 0)) (λ t. absurd (ground (arith, e, t)))
        (λ _.
          ap (λ i. (record a { inject_spikes = i }, amplify r))
            (ap (λ i. i -ℤ pos 1) e ∙ one_less n))

  spiked-amplified :
      (rs : List (Reading F)) (a : Agent F) (n : ℕ)
      → a.inject_spikes ≡ pos n
      → spiked rs a ≡ first_amplified n rs
  unfolding spiked first_amplified
  spiked-amplified [] a n e = refl
  spiked-amplified (r ∷ rs) a zero e =
      ap (λ (x : Agent F × Reading F). x.1 ∷ spiked rs x.0) (take_spike-none a r e)
      ∙ ap (λ xs. r ∷ xs) (spiked-amplified rs a zero e)
  spiked-amplified (r ∷ rs) a (suc n) e =
      ap (λ (x : Agent F × Reading F). x.1 ∷ spiked rs x.0) (take_spike-some n a r e)
      ∙ ap (λ xs. amplify r ∷ xs) (spiked-amplified rs (record a { inject_spikes = pos n }) n refl)

  -- After `/inject/anomaly`, the next three readings are amplified, and none after them.
  inject-spiked :
      (a : Agent F) (rs : List (Reading F)) → spiked rs (inject_anomaly a) ≡ first_amplified 3 rs
  unfolding inject_anomaly
  inject-spiked a rs = spiked-amplified rs (inject_anomaly a) 3 refl
