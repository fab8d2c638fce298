-- ===== src/Agent/Usage/Gaps.antt =====
-- The CPU percentage where some reads of /proc/stat fail.
use mathlib.Core.Path.{subst}
use edge_telemetry_daemon.Shared.{
  ◌≡◌, refl, sym, ap, ◌∙◌, ◌<◌, true, ◌&&◌, none, some, List, [], ◌∷◌, arith, if_ind, ltb,
}
use edge_telemetry_daemon.Shared.Text.{Bytes}
use edge_telemetry_daemon.Shared.Float.{Float}
use edge_telemetry_daemon.Collector.{CpuStats, collect_cpu}
use edge_telemetry_daemon.Agent.State.{Agent, Sources}
use edge_telemetry_daemon.Agent.Usage.{cpu_percent, take_sample, read_sample, cpu_usage}

-- No read of /proc/stat succeeds.
abbrev pub AllFail {ℓ} : {F : Type ℓ} → Bytes → List (Sources F) → Type 0
AllFail dir [] = Unit
AllFail dir (s ∷ ss) = (collect_cpu s.os dir ≡ none) × AllFail dir ss

module _ {ℓ} {F : Type ℓ} ⦃f : Float F⦄ where
  -- The CPU's part of several ticks.
  pub samples : List (Sources F) → Agent F → Agent F
  samples [] a = a
  samples (s ∷ ss) a = samples ss (cpu_usage s a).0

  -- The sample is what the next one is compared with.
  record Sampled (dir : Bytes) (c : CpuStats) (a : Agent F) : Type 0 where
    pub dir_eq : a.cfg.procfs_path ≡ dir
    pub prev : a.prev_cpu ≡ c
    pub has : a.has_prev_cpu ≡ true

  take_sample-Sampled :
      (c : CpuStats) (a : Agent F) → Sampled a.cfg.procfs_path c (take_sample c a).0
  unfolding take_sample
  take_sample-Sampled c a =
      if_ind (λ (r : Agent F × F). Sampled a.cfg.procfs_path c r.0)
        (a.has_prev_cpu && ltb a.prev_cpu.total c.total)
        (λ _. record { dir_eq = refl; prev = refl; has = refl })
        (λ _. record { dir_eq = refl; prev = refl; has = refl })

  samples-skip :
      (ss : List (Sources F)) (a : Agent F) → AllFail a.cfg.procfs_path ss → samples ss a ≡ a
  unfolding samples cpu_usage read_sample
  samples-skip [] a fail = refl
  samples-skip (s ∷ ss) a fail =
      ap (λ c. samples ss (read_sample c a).0) fail.0 ∙ samples-skip ss a fail.1

  take_sample-percent :
      (c d : CpuStats) (a : Agent F)
      → a.prev_cpu ≡ c
      → a.has_prev_cpu ≡ true
      → c.total < d.total
      → (take_sample d a).1 ≡ cpu_percent c d
  unfolding take_sample
  take_sample-percent c d a prev has grew =
      if_ind (λ (r : Agent F × F). r.1 ≡ cpu_percent c d)
        (a.has_prev_cpu && ltb a.prev_cpu.total d.total)
        (λ _. ap (λ (x : CpuStats). cpu_percent x d) prev)
        (λ e. absurd (ground (arith, ap (λ (x : CpuStats). x.total) prev)))

  -- After a read of /proc/stat that succeeds, any reads that fail, and one that succeeds with a larger
  -- total, the percentage is that of the time between the two that succeeded.
  pub cpu_usage-samples :
      (a : Agent F) (s t : Sources F) (gap : List (Sources F)) (c d : CpuStats)
      → collect_cpu s.os a.cfg.procfs_path ≡ some c
      → AllFail a.cfg.procfs_path gap
      → collect_cpu t.os a.cfg.procfs_path ≡ some d
      → c.total < d.total
      → (cpu_usage t (samples gap (cpu_usage s a).0)).1 ≡ cpu_percent c d
  unfolding cpu_usage read_sample
  cpu_usage-samples a s t gap c d read_c fail read_d grew =
      let b = (take_sample c a).0 in
      let at : Sampled a.cfg.procfs_path c b = take_sample-Sampled c a in
      let here = sym at.dir_eq in
      ap (λ x. (cpu_usage t (samples gap (read_sample x a).0)).1) read_c
      ∙ ap (λ x. (cpu_usage t x).1) (samples-skip gap b (subst (λ p. AllFail p gap) here fail))
      ∙ ap (λ x. (read_sample x b).1) (subst (λ p. collect_cpu t.os p ≡ some d) here read_d)
      ∙ take_sample-percent c d b at.prev at.has grew
