-- ===== src/Agent/Quota.antt =====
-- The CPU quota follows the suppressor through the agent's ticks.

use mathlib.Core.Path.{subst}
use edge_telemetry_daemon.Shared.{
  ◌≡◌, ◌≢◌, refl, sym, ap, ◌∙◌, true, false, not, some, List, [], ◌∷◌, arith, if_ind,
}
use edge_telemetry_daemon.Shared.Time.{Time}
use edge_telemetry_daemon.Shared.Text.{Bytes}
use edge_telemetry_daemon.Shared.Float.{Float}
use edge_telemetry_daemon.Outbox.{Outbox}
use edge_telemetry_daemon.Filter.Suppressor.{
  Suppressor, SuppressorState, normal, alerting, suppressed, new_suppressor,
}
use edge_telemetry_daemon.Filter.Suppressor.Alerts.{process-awake}
use edge_telemetry_daemon.Cgroup.{
  Controller, Mode, mode_quiescent, mode_burst, new_controller, is_read_only,
}
use edge_telemetry_daemon.Cgroup.Quota.{
  quota_of, InMode, InMode-Holds, new-Holds, set_burst-InMode, set_quiescent-InMode,
}
use edge_telemetry_daemon.Config.{Config}
use edge_telemetry_daemon.Agent.State.{Sources}
use edge_telemetry_daemon.Agent.Usage.{collect_usage}
use edge_telemetry_daemon.Cgroup.Discover.{Files}
use edge_telemetry_daemon.Agent.Frame.{Same, report-Same, read-Same}
use edge_telemetry_daemon.Agent.{
  Agent, Host, Reading, is_state, set_quota, switch_quota, show_cgroup, update_cgroup, detect,
  suppress, log_reading, report, act, tick, new_agent, count_scrape,
}

-- The mode that the suppressor's state calls for.
abbrev pub mode_for : SuppressorState → Mode
mode_for normal = mode_quiescent
mode_for alerting = mode_burst
mode_for suppressed = mode_burst

-- The quota is the one for a state that the agent remembers.
pub record Synced (q : Bytes) (st prev : SuppressorState) (c : Controller) : Type 0 where
  pub remembered : prev ≡ st
  pub in_mode : InMode q (mode_for st) c

is_state-eq : (a b : SuppressorState) → is_state a b ≡ true → a ≡ b
unfolding is_state
is_state-eq normal normal e = refl
is_state-eq normal alerting e = cc
is_state-eq normal suppressed e = cc
is_state-eq alerting normal e = cc
is_state-eq alerting alerting e = refl
is_state-eq alerting suppressed e = cc
is_state-eq suppressed normal e = cc
is_state-eq suppressed alerting e = cc
is_state-eq suppressed suppressed e = refl

-- The setter for a new state, if a normal state is not suppressed next.
set_quota-InMode :
    (q : Bytes) (st next : SuppressorState) (c : Controller)
    → InMode q (mode_for st) c
    → (st ≡ normal → next ≢ suppressed)
    → InMode q (mode_for next) (set_quota q true next c)
unfolding set_quota
set_quota-InMode q st alerting c i h =
    set_burst-InMode q c i.writable (InMode-Holds q (mode_for st) c i)
set_quota-InMode q st normal c i h =
    set_quiescent-InMode q c i.writable (InMode-Holds q (mode_for st) c i)
set_quota-InMode q normal suppressed c i h = absurd (h refl refl)
set_quota-InMode q alerting suppressed c i h = i
set_quota-InMode q suppressed suppressed c i h = i

module _ {ℓ} {F : Type ℓ} ⦃f : Float F⦄ (h : Host F) where
  -- The quota is the one for the suppressor's state.
  abbrev pub Follows : Agent F → Type 0
  Follows a = Synced h.quiescent a.supp.state a.prev_suppressor_state a.cgroup_ctl

  Same-Follows : (a b : Agent F) → Same h a b → Follows a → Follows b
  Same-Follows a b s p = record {
    remembered = s.prev ∙ p.remembered ∙ sym (ap (λ (x : Suppressor). x.state) s.supp);
    in_mode =
        subst (λ c. InMode h.quiescent (mode_for b.supp.state) c) (sym s.cgroup_ctl)
          (subst (λ (x : Suppressor). InMode h.quiescent (mode_for x.state) a.cgroup_ctl)
            (sym s.supp) p.in_mode);
  }

  update_cgroup-Follows :
      (s : Sources F) (st : SuppressorState) (a : Agent F)
      → s.write_succeeds ≡ true
      → Synced h.quiescent st a.prev_suppressor_state a.cgroup_ctl
      → (st ≡ normal → a.supp.state ≢ suppressed)
      → Follows (update_cgroup h s a.supp.state a)
  unfolding update_cgroup show_cgroup switch_quota
  update_cgroup-Follows s st a ok p awake =
      if_ind (λ (x : Agent F). Synced h.quiescent x.supp.state x.prev_suppressor_state x.cgroup_ctl)
        (not (is_state a.supp.state a.prev_suppressor_state))
        (λ _. record {
          remembered = refl;
          in_mode =
              subst
                (λ b.
                  InMode h.quiescent (mode_for a.supp.state)
                    (set_quota h.quiescent b a.supp.state a.cgroup_ctl))
                (sym ok)
                (set_quota-InMode h.quiescent st a.supp.state a.cgroup_ctl p.in_mode awake);
        })
        (λ e.
          let same : a.supp.state ≡ a.prev_suppressor_state =
            is_state-eq a.supp.state a.prev_suppressor_state (ground arith) in
          record {
            remembered = sym same;
            in_mode =
                subst (λ x. InMode h.quiescent (mode_for x) a.cgroup_ctl)
                  (sym (same ∙ p.remembered)) p.in_mode;
          })

  act-Follows :
      (s : Sources F) (r : Reading F) (now : Time) (a : Agent F)
      → s.write_succeeds ≡ true
      → Follows a
      → Follows (act h s r now a).0
  unfolding act detect suppress log_reading
  act-Follows s r now a ok p =
      let detected = (detect r a).0 in
      let is_anom = (detect r a).1 in
      let judged = (suppress is_anom now detected).0 in
      let should_alert = (suppress is_anom now detected).1 in
      let updated = update_cgroup h s judged.supp.state judged in
      let logged = log_reading r is_anom now updated in
      let synced : Follows updated =
        update_cgroup-Follows s a.supp.state judged ok p (process-awake a.supp is_anom now) in
      let reported : Follows (report h r should_alert now logged) =
        Same-Follows logged _ (report-Same h r should_alert now logged) synced in
      reported

  tick-Follows :
      (s : Sources F) (now : Time) (a : Agent F)
      → s.write_succeeds ≡ true
      → Follows a
      → Follows (tick h s now a).0
  unfolding tick
  tick-Follows s now a ok p =
      let read = collect_usage s (count_scrape now a) in
      act-Follows s read.1 now read.0 ok (Same-Follows a read.0 (read-Same h s now a) p)

  -- Ticks, from a list of what they meet and their times.
  pub ticks : List (Sources F × Time) → Agent F → Agent F
  ticks [] a = a
  ticks ((r, now) ∷ rs) a = ticks rs (tick h r now a).0

  -- All writes of cpu.max succeed.
  abbrev pub Writable : List (Sources F × Time) → Type 0
  Writable [] = Unit
  Writable ((r, now) ∷ rs) = (r.write_succeeds ≡ true) × Writable rs

  new-Follows :
      (fs : Files) (cfg : Config F) (ob : Outbox) (start : Time)
      → is_read_only (new_controller fs cfg.cgroup_root) ≡ false
      → Follows (new_agent h fs cfg ob start true)
  unfolding new_agent new_suppressor is_read_only
  new-Follows fs cfg ob start writable = record {
    remembered = refl;
    in_mode =
        set_quiescent-InMode h.quiescent (new_controller fs cfg.cgroup_root) writable
          (new-Holds h.quiescent fs cfg.cgroup_root);
  }

  -- Where cpu.max can be written and every write succeeds, after any ticks of a new agent, whatever
  -- they read, the controller's mode and the quota in cpu.max are those for the suppressor's state:
  -- quiescent while it is normal, and burst while it is alerting or suppressed.
  pub quota-ticks :
      (fs : Files) (cfg : Config F) (ob : Outbox) (start : Time) (rs : List (Sources F × Time))
      → is_read_only (new_controller fs cfg.cgroup_root) ≡ false
      → Writable rs
      → let a = ticks rs (new_agent h fs cfg ob start true) in
        (a.cgroup_ctl.mode ≡ mode_for a.supp.state)
        × (a.cgroup_ctl.cpu_max ≡ some (quota_of h.quiescent (mode_for a.supp.state)))
  unfolding ticks
  quota-ticks fs cfg ob start rs can_write writable =
      let p =
        all rs (new_agent h fs cfg ob start true) writable
          (new-Follows fs cfg ob start can_write) in
      (p.in_mode.mode, p.in_mode.cpu_max)
    where
      all :
          (rs : List (Sources F × Time)) (a : Agent F)
          → Writable rs
          → Follows a
          → Follows (ticks rs a)
      all [] a w p = p
      all ((r, now) ∷ rs) a w p = all rs (tick h r now a).0 w.1 (tick-Follows r now a w.0 p)
