-- ===== src/Daemon/Main.antt =====
-- cmd/agent/main.go: main from the configuration that it loads, and what then holds.
use mathlib.Core.Path.{subst}
use edge_telemetry_daemon.Shared.{
  ℕ, Bool-cases, ltb, ltb→lt, Bool, ap, true, false, arith, length, ◌⊎◌, inl, inr, ◌≡◌, refl, sym,
  Bool,
}
use edge_telemetry_daemon.Shared.Time.{Time}
use edge_telemetry_daemon.Shared.Float.{Float}
use edge_telemetry_daemon.Cgroup.Discover.{Files}
use edge_telemetry_daemon.Config
use edge_telemetry_daemon.Config.{Config, ConfigError, load}
use edge_telemetry_daemon.Config.Valid.{Valid, load-Valid}
use edge_telemetry_daemon.Transport.{Attempt}
use edge_telemetry_daemon.Transport.Pool.Progress.{CanMove, queued-CanMove}
use edge_telemetry_daemon.Agent.{Host}
use edge_telemetry_daemon.Daemon.Sound.{Sound}
use edge_telemetry_daemon.Daemon.Reached.{either_right, Reach-Sound}
use edge_telemetry_daemon.Daemon.{
  Daemon, running, is_running, dispatcher_config, resources, launch, Reach,
}

either_false {ℓ} : {b : Bool} {A : Type ℓ} → b ≡ true → (b ≡ false) ⊎ A → A
either_false hit (inl miss) = absurd cc
either_false hit (inr a) = a

module _ {ℓ} {F : Type ℓ} ⦃f : Float F⦄ (h : Host F) (fs : Files) (now : Time) (ok : Bool) where
  -- What main does with the answer of `Load`: `os.Exit(1)` on an error.
  unfoldable pub start_from : Config F ⊎ ConfigError → Daemon F ⊎ ℕ
  start_from (inl cfg) = inl (launch h fs cfg now ok)
  start_from (inr err) = inr 1

  unfoldable pub start_up : Config.Host F → Daemon F ⊎ ℕ
  start_up env = start_from (load env)

  start_from-launch :
      (r : Config F ⊎ ConfigError) (d : Daemon F)
      → start_from r ≡ inl d
      → (cfg : Config F) × (r ≡ inl cfg) × (launch h fs cfg now ok ≡ d)
  unfolding start_from
  start_from-launch (inl cfg) d e = (cfg, refl, cc)
  start_from-launch (inr err) d e = absurd cc

  -- Once main got past Load, in every state of the daemon, whatever the ticks and the dispatches
  -- meet and in whatever order the steps of the ticks, subscribers, injected anomalies, steps of the workers, a
  -- signal and the return of main come: the outbox is well formed, has accepted every event that
  -- a tick pushed, holds those that have not left, has tokens for them, and is closed only if
  -- main has returned; each event that Pop returned is in a worker's hand, or was dispatched,
  -- failed, or was cut short, once; the counters show how many were dispatched and failed, modulo
  -- 2 ^ 64; before a signal main is in its loop or in a tick, no worker has returned and no dispatch is cut
  -- short; no subscriber's channel holds more than 64 events; the agent's interval is at least
  -- the least one, and the ticker's period is positive if that is; and if main has returned, all
  -- workers have.
  pub main-Sound :
      (env : Config.Host F) {d e : Daemon F} → start_up env ≡ inl d → Reach h d e → Sound h e
  unfolding start_up
  main-Sound env {d} {e} started r =
      let (cfg, loaded, same) = start_from-launch (load env) d started in
      let (read_from, valid) = (load-Valid env cfg).0 loaded in
      Reach-Sound h fs cfg now ok (subst (λ (c : Config F). Valid c) (sym read_from) valid)
        (subst (λ (x : Daemon F). Reach h x e) (sym same) r)

  -- Once main got past Load, in every state of the daemon before a signal in which the dispatcher runs,
  -- no event is queued or one of its three workers can take a step, with dispatches that nothing
  -- interrupts.
  pub main-CanMove :
      (env : Config.Host F) (attempts : ℕ → Attempt F) {d e : Daemon F}
      → start_up env ≡ inl d
      → Reach h d e
      → ((k : ℕ) → (attempts k).interrupted ≡ false)
      → e.cancelled ≡ false
      → e.dispatching ≡ running
      → (e.agent.ob.count ≡ 0) ⊎ CanMove F (dispatcher_config e.agent.cfg) (resources e) e.workers
  unfolding is_running
  main-CanMove env attempts {d} {e} started r calm live runs =
      let ok = main-Sound env started r in
      let three : length e.workers ≡ 3 = either_false (ap is_running runs) ok.crew in
      elim (Bool-cases (ltb 0 e.agent.ob.count)) [
        | inl some_left ↦ inr (
            queued-CanMove attempts calm (resources e) e.workers (either_right live ok.alive)
              (omega (arith, three)) (ltb→lt 0 e.agent.ob.count some_left) ok.accounted.covered)
        | inr none_left ↦ inl (ground arith)
      ]
