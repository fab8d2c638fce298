-- ===== src/Agent/Interval.antt =====
-- How long the agent waits between ticks.

use mathlib.Core.Path.{subst}
use edge_telemetry_daemon.Shared.{◌≡◌, refl, ◌∙◌, List, [], ◌∷◌, arith, if_ind, not}
use edge_telemetry_daemon.Shared.Int.{◌≤ℤ◌, add_int}
use edge_telemetry_daemon.Shared.Time.{Time, Duration}
use edge_telemetry_daemon.Shared.Float.{Float}
use edge_telemetry_daemon.Config.{Config}
use edge_telemetry_daemon.Agent.State.{Sources}
use edge_telemetry_daemon.Agent.Usage.{collect_usage}
use edge_telemetry_daemon.Agent.Frame.{report-Same, read-Same}
use edge_telemetry_daemon.Agent.{
  Agent, Host, Reading, max_ℤ, min_ℤ, tau_recovery_step, tau_target, compute_interval,
  next_interval, is_state, switch_quota, show_cgroup, update_cgroup, detect, suppress, log_reading,
  report, act, tick, count_scrape,
}

-- An interval after `prev`: no shorter than the least, and no longer than `prev` and the step, the
-- least aside.
abbrev pub Next : Duration → Duration → Duration → Type 0
Next tau_min prev t = (tau_min ≤ℤ t) × (t ≤ℤ max_ℤ tau_min (add_int prev tau_recovery_step))

-- Each interval of a list follows the one before it.
abbrev pub Steady : Duration → Duration → List Duration → Type 0
Steady tau_min prev [] = Unit
Steady tau_min prev (t ∷ ts) = Next tau_min prev t × Steady tau_min t ts

limits :
    (lo t up : Duration) → (lo ≤ℤ max_ℤ lo (min_ℤ t up)) × (max_ℤ lo (min_ℤ t up) ≤ℤ max_ℤ lo up)
limits lo t up = (ground arith, ground arith)

module _ {ℓ} {F : Type ℓ} ⦃f : Float F⦄ (h : Host F) where
  next_interval-Next : (a : Agent F) → Next a.cfg.rate_tau_min a.tau_prev (next_interval a)
  unfolding next_interval compute_interval
  next_interval-Next a =
      limits a.cfg.rate_tau_min
        (tau_target a.det.zscore a.det.drift_index a.det.drift_threshold a.cfg.rate_theta
          a.cfg.rate_tau_min a.cfg.rate_tau_max)
        (add_int a.tau_prev tau_recovery_step)

  -- The fields that the intervals depend on, through the first part of a tick.
  abbrev Kept : Agent F → Agent F → Type ℓ
  Kept a b = (b.cfg ≡ a.cfg) × (b.tau_prev ≡ a.tau_prev)

  update_cgroup-Kept :
      (s : Sources F) (a b : Agent F) → Kept a b → Kept a (update_cgroup h s b.supp.state b)
  unfolding update_cgroup show_cgroup switch_quota
  update_cgroup-Kept s a b k =
      if_ind (λ (x : Agent F). Kept a x) (not (is_state b.supp.state b.prev_suppressor_state))
        (λ _. k) (λ _. k)

  -- What a tick's interval and state are to the state before it.
  abbrev pub Follows : Agent F → Agent F × Duration → Type ℓ
  Follows a (b, t) = Next a.cfg.rate_tau_min a.tau_prev t × (b.tau_prev ≡ t) × (b.cfg ≡ a.cfg)

  act-Follows :
      (s : Sources F) (r : Reading F) (now : Time) (c a : Agent F)
      → Kept c a
      → Follows c (act h s r now a)
  unfolding act detect suppress log_reading
  act-Follows s r now c a kept =
      let detected = (detect r a).0 in
      let is_anom = (detect r a).1 in
      let judged = (suppress is_anom now detected).0 in
      let should_alert = (suppress is_anom now detected).1 in
      let k = update_cgroup-Kept s c judged kept in
      let logged = log_reading r is_anom now (update_cgroup h s judged.supp.state judged) in
      let reported = report h r should_alert now logged in
      let same = report-Same h r should_alert now logged in
      let cfg : reported.cfg ≡ c.cfg = same.cfg ∙ k.0 in
      let tau : reported.tau_prev ≡ c.tau_prev = same.tau ∙ k.1 in
      (
        subst (λ (x : Config F). Next x.rate_tau_min c.tau_prev (next_interval reported)) cfg
            (subst (λ p. Next reported.cfg.rate_tau_min p (next_interval reported)) tau
              (next_interval-Next reported)),
        refl,
        cfg,
      )

  pub tick-Follows : (s : Sources F) (now : Time) (a : Agent F) → Follows a (tick h s now a)
  unfolding tick
  tick-Follows s now a =
      let read = collect_usage s (count_scrape now a) in
      let same = read-Same h s now a in act-Follows s read.1 now a read.0 (same.cfg, same.tau)

  -- The intervals that the ticks of a run return.
  pub intervals : List (Sources F × Time) → Agent F → List Duration
  intervals [] a = []
  intervals ((r, now) ∷ rs) a = let (b, t) = tick h r now a in t ∷ intervals rs b

  -- Whatever the ticks read, each interval that a tick returns is at least the least one configured,
  -- and, but for that one, at most a recovery step longer than the interval before it, with the sum
  -- taken on 64 bits: it may fall at once and rises slowly.
  pub intervals-Steady :
      (rs : List (Sources F × Time)) (a : Agent F)
      → Steady a.cfg.rate_tau_min a.tau_prev (intervals rs a)
  unfolding intervals
  intervals-Steady [] a = tt
  intervals-Steady ((r, now) ∷ rs) a =
      let (next, same, cfg) = tick-Follows r now a in
      (
        next,
        subst
            (λ (c : Config F).
              Steady c.rate_tau_min (tick h r now a).1 (intervals rs (tick h r now a).0))
            cfg
            (subst
              (λ p. Steady (tick h r now a).0.cfg.rate_tau_min p (intervals rs (tick h r now a).0))
              same (intervals-Steady rs (tick h r now a).0)),
      )
