-- ===== src/Daemon.antt =====
-- cmd/agent/main.go: what main puts together, and what its loop, the handlers and the dispatcher's
-- workers then do to it, until main returns.
pub mod Healthy
pub mod Sound
pub mod Ticks
pub mod Reached
pub mod Watch
pub mod Main
pub mod Requests
mod Tests
use edge_telemetry_daemon.Shared.{
  ℕ, ◌*◌, ◌≡◌, Bool, true, false, some, List, [], ◌∷◌, ◌++◌, if◌then◌else◌, ◌==◌, map,
}
use edge_telemetry_daemon.Shared.Int.{pos}
use edge_telemetry_daemon.Shared.Time.{Time, Duration, second, millisecond}
use edge_telemetry_daemon.Shared.Text.{is_empty}
use edge_telemetry_daemon.Shared.Float.{Float}
use edge_telemetry_daemon.Outbox
use edge_telemetry_daemon.Outbox.{Outbox, Event, Config, drop_oldest, new_outbox}
use edge_telemetry_daemon.Outbox.Refine.{contents}
use edge_telemetry_daemon.Outbox.Account.{Log, empty_log, note_push}
use edge_telemetry_daemon.Cgroup.Discover.{Files}
use edge_telemetry_daemon.Config
use edge_telemetry_daemon.Transport.{DispatcherConfig, Counters, with_defaults}
use edge_telemetry_daemon.Transport.Pool.{
  Worker, AllFinished, Tally, Resources, start_workers, Move,
}
use edge_telemetry_daemon.Agent.Usage.{inject_anomaly}
use edge_telemetry_daemon.Agent.Events.Ticks.{tick_events}
use edge_telemetry_daemon.Agent.{
  Agent, Sources, Channel, Host, new_agent, tick, send, subscribe, unsubscribe,
}

abbrev pub outbox_config : Config
outbox_config = record { capacity = pos 500; drop_policy = drop_oldest }

-- What main hands to `NewDispatcher`, with the defaults that this sets.
pub dispatcher_config {ℓ} : {F : Type ℓ} → Config.Config F → DispatcherConfig
dispatcher_config cfg = with_defaults (record {
  target_url = cfg.target_url;
  auth_token = cfg.target_auth_token;
  timeout = pos 0;
  max_retries = pos 3;
  initial_backoff = pos (100 * millisecond);
  max_backoff = pos (3 * second);
  user_agent = [];
})

-- `<-ch`, for the channel of a subscriber: its oldest event is gone.
pub drop_first : List Event → List Event
drop_first [] = []
drop_first (e ∷ q) = q

pub receive : ℕ → List Channel → List Channel
receive i [] = []
receive i ((j, q) ∷ cs) =
    let rest = receive i cs in if i == j then (j, drop_first q) ∷ cs else (j, q) ∷ rest

-- The goroutine of the dispatcher: not started, in Run, between the `wg.Done` that it defers and the
-- one of `wg.Go`, and past this, which panics because the counter goes below zero.
pub data Dispatching : Type 0 where
  absent running leaving panicked : Dispatching

-- main between ticks; in a tick with events still to push; in one that has pushed an event and is to
-- broadcast it, with the events after it; in `wg.Wait`; returned.
pub data Phase : Type 0 where
  looping : Phase
  pushing : List Event → Phase
  broadcasting : Event → List Event → Phase
  draining : Phase
  returned : Phase

-- The counter of the group is zero where the dispatcher has called Done once, or was not started.
pub is_running : Dispatching → Bool
is_running running = true
is_running absent = false
is_running leaving = false
is_running panicked = false

-- The agent with its outbox, the period of main's ticker, the dispatcher with its workers and metrics, whether the context is done,
-- and ghosts that no step reads: the events that were pushed, what became of them in the outbox, and
-- what became of them in the dispatcher.
pub record Daemon {ℓ} (F : Type ℓ) : Type ℓ where
  pub agent : Agent F
  pub ticker : Duration
  pub dispatching : Dispatching
  pub workers : List Worker
  pub counters : Counters
  pub cancelled : Bool
  pub phase : Phase
  pub emitted : List Event
  pub log : Log
  pub tally : Tally

module _ {ℓ} {F : Type ℓ} ⦃f : Float F⦄ (h : Host F) where
  -- The agent that main builds from a configuration, at a time, from whether the first write of
  -- cpu.max succeeds.
  pub build : Files → Config.Config F → Time → Bool → Agent F
  build fs cfg now write_succeeds = new_agent h fs cfg (new_outbox outbox_config) now write_succeeds

  -- main up to its loop: the dispatcher runs where there is a URL.
  pub launch : Files → Config.Config F → Time → Bool → Daemon F
  launch fs cfg now write_succeeds = record {
    agent = build fs cfg now write_succeeds;
    ticker = cfg.scrape_interval;
    dispatching = if is_empty cfg.target_url then absent else running;
    workers = if is_empty cfg.target_url then [] else start_workers;
    counters = record { dispatched = some 0; failures = some 0; retries = some 0 };
    cancelled = false;
    phase = looping;
    emitted = [];
    log = empty_log;
    tally = record { sent = []; lost = []; cut = [] };
  }

-- What the workers share, and the daemon with it changed.
abbrev pub resources {ℓ} : {F : Type ℓ} → Daemon F → Resources
resources d = record { ob = d.agent.ob; counters = d.counters; log = d.log; tally = d.tally }

abbrev pub with_resources {ℓ} : {F : Type ℓ} → Resources → List Worker → Daemon F → Daemon F
with_resources s ws d = record d {
  agent = record (d.agent) { ob = s.ob };
  workers = ws;
  counters = s.counters;
  log = s.log;
  tally = s.tally;
}

module _ {ℓ} {F : Type ℓ} ⦃f : Float F⦄ (h : Host F) where
  -- The tick up to its events: what it does to the agent but for the outbox and the channels, which
  -- it only reaches through `emitEvent`.
  pub begin_tick : Sources F → Time → Daemon F → Daemon F
  begin_tick s now d = record d {
    agent = record ((tick h s now d.agent).0) { ob = d.agent.ob; subs = d.agent.subs };
    phase = pushing (tick_events h s now d.agent);
  }

  -- `a.ob.Push(evt)` in `emitEvent`.
  pub push_event : Event → List Event → Daemon F → Daemon F
  push_event e es d =
      let (o, err) = Outbox.push d.agent.ob e in
      record d {
        agent = record (d.agent) { ob = o };
        phase = broadcasting e es;
        emitted = d.emitted ++ (e ∷ []);
        log = note_push (contents d.agent.ob) d.agent.ob.capacity e err d.log;
      }

  -- `a.broadcast(evt)` in `emitEvent`, which holds the lock of the subscribers.
  pub broadcast_event : Event → List Event → Daemon F → Daemon F
  broadcast_event e es d = record d {
    agent = record (d.agent) { subs = map (send e) d.agent.subs };
    phase = pushing es;
  }

  -- The tick returns the interval that it kept, and main resets its ticker to it.
  pub reset_ticker : Daemon F → Daemon F
  reset_ticker d = record d { ticker = d.agent.tau_prev; phase = looping }

  -- The main loop ticks: it reads and judges, then for each event pushes it and broadcasts it, then
  -- resets the ticker, and every other part may step between any two of these. The handlers of the streams subscribe, receive and unsubscribe; the debug
  -- route injects an anomaly; one of the workers steps; a signal cancels the context, main leaves its
  -- loop, waits for the dispatcher and returns, which closes the outbox. The process ends there or at
  -- a panic; the handlers may go on here, so that this relation has more runs than the program. The sends of
  -- one broadcast are one step: they are done under the lock that `subscribe` and `unsubscribe` take, and
  -- a receive from one channel commutes with the sends to the others.
  pub data Step (d : Daemon F) : Daemon F → Type ℓ where
    ticks : (s : Sources F) (now : Time) → d.phase ≡ looping → Step d (begin_tick s now d)
    pushes : (e : Event) (es : List Event) → d.phase ≡ pushing (e ∷ es) → Step d (push_event e es d)
    broadcasts :
        (e : Event) (es : List Event)
        → d.phase ≡ broadcasting e es
        → Step d (broadcast_event e es d)
    resets : d.phase ≡ pushing [] → Step d (reset_ticker d)
    subscribes : Step d (record d { agent = (subscribe d.agent).1 })
    receives :
        (i : ℕ) → Step d (record d { agent = record (d.agent) { subs = receive i d.agent.subs } })
    leaves : (i : ℕ) → Step d (record d { agent = unsubscribe d.agent i })
    injects :
        d.agent.cfg.enable_debug_endpoints ≡ true
        → Step d (record d { agent = inject_anomaly d.agent })
    works :
        (ps qs : List Worker) {p q : Worker} {s : Resources}
        → d.workers ≡ ps ++ (p ∷ qs)
        → Move F (dispatcher_config d.agent.cfg) d.cancelled (resources d) p s q
        → Step d (with_resources s (ps ++ (q ∷ qs)) d)
    cancels : Step d (record d { cancelled = true })
    stops : d.cancelled ≡ true → d.phase ≡ looping → Step d (record d { phase = draining })
    finishes :
        d.dispatching ≡ running
        → AllFinished d.workers
        → Step d (record d { dispatching = leaving })
    panics : d.dispatching ≡ leaving → Step d (record d { dispatching = panicked })
    returns :
        d.phase ≡ draining
        → is_running d.dispatching ≡ false
        → Step d (record d {
          agent = record (d.agent) { ob = Outbox.close d.agent.ob };
          phase = returned;
        })

  pub data Reach (d : Daemon F) : Daemon F → Type ℓ where
    here : Reach d d
    next : {b c : Daemon F} → Reach d b → Step b c → Reach d c
