-- ===== src/Daemon/Sound.antt =====
-- cmd/agent/main.go: what is to hold of the daemon, and that it does at the start and through the steps of a tick.
use mathlib.Core.Path.{subst}
use edge_telemetry_daemon.Shared.{
  length, List, ◌∷◌, map, ℕ, ◌⊎◌, inl, inr, Bool-cases, ◌≡◌, refl, sym, ap, ◌∙◌, Bool, true, false,
  [], ◌++◌, arith, if◌then◌else◌,
}
use edge_telemetry_daemon.Shared.Int.{◌≤ℤ◌, ◌<ℤ◌, leb_ℤ, pos}
use edge_telemetry_daemon.Shared.Time.{Time, Duration}
use edge_telemetry_daemon.Shared.Text.{is_empty}
use edge_telemetry_daemon.Shared.Float.{Float}
use edge_telemetry_daemon.Outbox.{Outbox, Event, drop_oldest}
use edge_telemetry_daemon.Outbox.Inv.{IsValid, new_outbox-IsValid}
use edge_telemetry_daemon.Outbox.Account.{Agrees}
use edge_telemetry_daemon.Outbox.Open.{new_outbox-closed}
use edge_telemetry_daemon.Outbox.Workers.{IsCovered, new_outbox-IsCovered, new_outbox-Agrees}
use edge_telemetry_daemon.Cgroup.Discover.{Files}
use edge_telemetry_daemon.Config.{Config}
use edge_telemetry_daemon.Config.Valid.{Valid}
use edge_telemetry_daemon.Transport.Pool.{AllFinished, start_workers}
use edge_telemetry_daemon.Transport.Pool.Working.{AllWorking, start_workers-AllWorking}
use edge_telemetry_daemon.Transport.Pool.Fate.{total}
use edge_telemetry_daemon.Transport.Pool.Taken.{delivered_of, in_hand, token_of}
use edge_telemetry_daemon.Transport.Pool.Account.{tokens, hands, Accounted}
use edge_telemetry_daemon.Agent.Interval.{tick-Follows}
use edge_telemetry_daemon.Agent.Events.Ticks.{tick_events}
use edge_telemetry_daemon.Agent.{Agent, Host, Sources, new_agent, tick}
use edge_telemetry_daemon.Outbox
use edge_telemetry_daemon.Outbox.Inv.{push-IsValid}
use edge_telemetry_daemon.Outbox.Refine.{contents}
use edge_telemetry_daemon.Outbox.Account.{note_push, push-Agrees}
use edge_telemetry_daemon.Outbox.Open.{push-Pushed, note_push-accepted}
use edge_telemetry_daemon.Outbox.Workers.{push-IsCovered}
use edge_telemetry_daemon.Transport.Pool.Taken.{note_push-delivered}
use edge_telemetry_daemon.Agent.{send}
use edge_telemetry_daemon.Daemon.Healthy.{
  Healthy, tick-Healthy, build-Healthy, with_outbox, with_subs, send-AllWithin,
}
use edge_telemetry_daemon.Daemon.{
  outbox_config, Daemon, Phase, looping, draining, returned, running, absent, is_running, launch,
  build, resources, begin_tick, push_event, broadcast_event, reset_ticker, pushing, broadcasting,
}

unfoldable pub is_returned : Phase → Bool
is_returned looping = false
is_returned (pushing es) = false
is_returned (broadcasting e es) = false
is_returned draining = false
is_returned returned = true

-- main is in its loop, between ticks or in one.
unfoldable pub in_loop : Phase → Bool
in_loop looping = true
in_loop (pushing es) = true
in_loop (broadcasting e es) = true
in_loop draining = false
in_loop returned = false

pub in_loop-open : (p : Phase) → in_loop p ≡ true → is_returned p ≡ false
unfolding in_loop is_returned
in_loop-open looping h = refl
in_loop-open (pushing es) h = refl
in_loop-open (broadcasting e es) h = refl
in_loop-open draining h = refl
in_loop-open returned h = absurd cc

-- The agent is healthy. The outbox took every event that was pushed and is closed only when main
-- has returned. A worker runs only while Run does, and main returns only when Run has. Before a signal
-- main loops, and the three workers, where there are any, have not returned.
pub record Sound {ℓ} {F : Type ℓ} ⦃f : Float F⦄ (h : Host F) (d : Daemon F) : Type ℓ where
  pub healthy : Healthy h d.agent
  pub accounted : Accounted d.cancelled (resources d) d.workers
  pub every : d.log.accepted ≡ d.emitted
  pub drops : d.agent.ob.policy ≡ drop_oldest
  pub closed : d.agent.ob.closed ≡ is_returned d.phase
  pub stopped : (is_returned d.phase ≡ false) ⊎ (is_running d.dispatching ≡ false)
  pub idle : (is_running d.dispatching ≡ true) ⊎ AllFinished d.workers
  pub signalled : (d.cancelled ≡ true) ⊎ (in_loop d.phase ≡ true)
  pub alive : (d.cancelled ≡ true) ⊎ AllWorking d.workers
  pub crew : (is_running d.dispatching ≡ false) ⊎ (length d.workers ≡ 3)
  pub period : (d.agent.cfg.rate_tau_min ≤ℤ pos 0) ⊎ (pos 0 <ℤ d.ticker)

-- The workers at the start, where the dispatcher is left out or not.
start-facts :
    (b : Bool)
    → ((is_running (if b then absent else running) ≡ true)
        ⊎ AllFinished (if b then [] else start_workers))
      × (tokens (if b then [] else start_workers) ≡ 0)
      × ((w : Event → ℕ) → total w (hands (if b then [] else start_workers)) ≡ 0)
unfolding is_running start_workers tokens token_of hands in_hand total
start-facts true = (inr tt, refl, λ w. refl)
start-facts false = (inl refl, refl, λ w. refl)

positive_from : (lo t : Duration) → lo ≤ℤ t → (lo ≤ℤ pos 0) ⊎ (pos 0 <ℤ t)
positive_from lo t le = elim (Bool-cases (leb_ℤ lo (pos 0))) [
  | inl low ↦ inl (ground arith)
  | inr high ↦ inr (ground (arith, le))
]

start-crew :
    (b : Bool)
    → (is_running (if b then absent else running) ≡ false)
      ⊎ (length (if b then [] else start_workers) ≡ 3)
unfolding is_running start_workers
start-crew true = inl refl
start-crew false = inr refl

start-AllWorking : (b : Bool) → AllWorking (if b then [] else start_workers)
start-AllWorking true = tt
start-AllWorking false = start_workers-AllWorking

module _ {ℓ} {F : Type ℓ} ⦃f : Float F⦄ (h : Host F) where
  pub launch-Sound :
      (fs : Files) (cfg : Config F) (now : Time) (ok : Bool)
      → Valid cfg
      → Sound h (launch h fs cfg now ok)
  unfolding launch build new_agent is_returned in_loop is_running delivered_of total
  launch-Sound fs cfg now ok v =
      let (idle, none_held, none_hands) = start-facts (is_empty cfg.target_url) in
      let fresh = new_outbox-closed outbox_config in
      record {
        healthy = build-Healthy h fs cfg now ok (omega (arith, v.tau));
        accounted = record {
          valid = new_outbox-IsValid outbox_config (ground arith);
          agrees = new_outbox-Agrees outbox_config;
          covered = rw none_held (new_outbox-IsCovered outbox_config);
          balance = λ w. omega (arith, none_hands w);
          shows = record { sent = refl; lost = refl; uncut = inr refl };
        };
        every = refl;
        drops = fresh.1;
        closed = fresh.0;
        stopped = inl refl;
        idle = idle;
        signalled = inr refl;
        alive = inr (start-AllWorking (is_empty cfg.target_url));
        crew = start-crew (is_empty cfg.target_url);
        period = inr v.interval;
      }

  -- The agent changed but for its outbox.
  pub with_agent :
      (d : Daemon F) (a : Agent F)
      → Sound h d
      → Healthy h a
      → a.ob ≡ d.agent.ob
      → a.cfg ≡ d.agent.cfg
      → Sound h (record d { agent = a })
  with_agent d a s healthy same cfg = record {
    healthy = healthy;
    accounted = record {
      valid = subst (λ o. IsValid o) (sym same) s.accounted.valid;
      agrees = subst (λ o. Agrees o d.log) (sym same) s.accounted.agrees;
      covered = subst (λ o. IsCovered o (tokens d.workers)) (sym same) s.accounted.covered;
      balance = s.accounted.balance;
      shows = s.accounted.shows;
    };
    every = s.every;
    drops = ap (λ (o : Outbox). o.policy) same ∙ s.drops;
    closed = ap (λ (o : Outbox). o.closed) same ∙ s.closed;
    stopped = s.stopped;
    idle = s.idle;
    signalled = s.signalled;
    alive = s.alive;
    crew = s.crew;
    period =
        subst (λ (c : Config F). (c.rate_tau_min ≤ℤ pos 0) ⊎ (pos 0 <ℤ d.ticker)) (sym cfg)
          s.period;
  }

  -- main is at another place of its loop; nothing but the ticker and the agent's own state changed.
  moves :
      (d : Daemon F) (p : Phase)
      → Sound h d
      → in_loop p ≡ true
      → in_loop d.phase ≡ true
      → Sound h (record d { phase = p })
  moves d p ok now was = record {
    healthy = ok.healthy;
    accounted = ok.accounted;
    every = ok.every;
    drops = ok.drops;
    closed = ok.closed ∙ in_loop-open d.phase was ∙ sym (in_loop-open p now);
    stopped = inl (in_loop-open p now);
    idle = ok.idle;
    signalled = inr now;
    alive = ok.alive;
    crew = ok.crew;
    period = ok.period;
  }

  pub begin-Sound :
      (d : Daemon F) (s : Sources F) (now : Time)
      → Sound h d
      → d.phase ≡ looping
      → Sound h (begin_tick h s now d)
  unfolding begin_tick in_loop
  begin-Sound d s now ok e =
      let a : Agent F = record ((tick h s now d.agent).0) {
        ob = d.agent.ob;
        subs = d.agent.subs;
      } in
      moves (record d { agent = a }) (pushing (tick_events h s now d.agent))
        (with_agent d a ok (tick-Healthy h d.agent s now ok.healthy) refl
          (tick-Follows h s now d.agent).2)
        refl (ap in_loop e)

  pub push-Sound :
      (d : Daemon F) (e : Event) (es : List Event)
      → Sound h d
      → d.phase ≡ pushing (e ∷ es)
      → Sound h (push_event h e es d)
  unfolding push_event is_returned in_loop
  push-Sound d e es ok at_push =
      let a = ok.accounted in
      let o : Outbox = d.agent.ob in
      let shut : o.closed ≡ false = ok.closed ∙ ap is_returned at_push in
      let (lossy, taken) = push-Pushed o e (shut, ok.drops) in
      let valid = push-IsValid e a.valid in
      record {
        healthy = with_outbox h d.agent _ ok.healthy valid;
        accounted = record {
          valid = valid;
          agrees = push-Agrees a.valid a.agrees e;
          covered = push-IsCovered o e (tokens d.workers) a.valid a.covered;
          balance = λ w.
              ap (total w) (note_push-delivered (contents o) o.capacity e (Outbox.push o e).1 d.log)
              ∙ a.balance w;
          shows = a.shows;
        };
        every =
            ap (λ err. (note_push (contents o) o.capacity e err d.log).accepted) taken
            ∙ note_push-accepted (contents o) o.capacity e d.log
            ∙ ap (λ xs. xs ++ (e ∷ [])) ok.every;
        drops = lossy.1;
        closed = lossy.0;
        stopped = inl refl;
        idle = ok.idle;
        signalled = inr refl;
        alive = ok.alive;
        crew = ok.crew;
        period = ok.period;
      }

  pub broadcast-Sound :
      (d : Daemon F) (e : Event) (es : List Event)
      → Sound h d
      → d.phase ≡ broadcasting e es
      → Sound h (broadcast_event h e es d)
  unfolding broadcast_event in_loop
  broadcast-Sound d e es ok at_send =
      let a : Agent F = record (d.agent) { subs = map (send e) d.agent.subs } in
      moves (record d { agent = a }) (pushing es)
        (with_agent d a ok
          (with_subs h d.agent (map (send e) d.agent.subs) d.agent.next_channel ok.healthy
            (send-AllWithin e d.agent.subs ok.healthy.channels))
          refl refl)
        refl (ap in_loop at_send)

  pub reset-Sound : (d : Daemon F) → Sound h d → d.phase ≡ pushing [] → Sound h (reset_ticker h d)
  unfolding reset_ticker in_loop
  reset-Sound d ok done =
      let s = moves d looping ok refl (ap in_loop done) in
      record {
        healthy = s.healthy;
        accounted = s.accounted;
        every = s.every;
        drops = s.drops;
        closed = s.closed;
        stopped = s.stopped;
        idle = s.idle;
        signalled = s.signalled;
        alive = s.alive;
        crew = s.crew;
        period = positive_from d.agent.cfg.rate_tau_min d.agent.tau_prev ok.healthy.interval;
      }
