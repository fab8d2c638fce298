-- ===== src/Daemon/Tests.antt =====
-- A run of the daemon: a subscriber, a tick that finds no files, and a shutdown, up to the return of
-- main.
use mathlib.Core.Path.{subst}
use edge_telemetry_daemon.Shared.{
  ℕ, ◌≡◌, ◌⊎◌, Option, ap, inl, refl, true, false, none, some, List, [], ◌∷◌, ◌++◌,
}
use edge_telemetry_daemon.Shared.Int.{pos}
use edge_telemetry_daemon.Shared.Text.{Bytes, codes}
use edge_telemetry_daemon.Shared.Fixed.{Fixed, fixed, fixed-IsOrdered}
use edge_telemetry_daemon.Cgroup.Discover.{Files}
use edge_telemetry_daemon.Config
use edge_telemetry_daemon.Config.{Config, read, getenv}
use edge_telemetry_daemon.Config.Valid.{load-defaults}
use edge_telemetry_daemon.Outbox.{Outbox, Event, heartbeat, Outcome, pop_enter}
use edge_telemetry_daemon.Outbox
use edge_telemetry_daemon.Outbox.Account.{note_pop}
use edge_telemetry_daemon.Outbox.Stock.{pop_enter-done}
use edge_telemetry_daemon.Transport.Pool.{
  Worker, popping, finished, start_workers, popped, after_pop, enters,
}
use edge_telemetry_daemon.Transport.{Attempt, status}
use edge_telemetry_daemon.Transport.Pool.Progress.{CanMove}
use edge_telemetry_daemon.Agent.{Host, Sources, new_agent, send, subscribe}
use edge_telemetry_daemon.Daemon.{
  Daemon, dispatcher_config, leaving, draining, returned, is_running, build, launch, resources,
  with_resources, begin_tick, push_event, broadcast_event, reset_ticker, pushing, broadcasting,
  receive, pushes, broadcasts, resets, Step, ticks, subscribes, works, cancels, finishes, stops,
  returns, Reach, here, next,
}
use edge_telemetry_daemon.Agent.Usage.{
  collect_usage, cpu_usage, read_sample, mem_usage, take_spike, show_throughput,
}
use edge_telemetry_daemon.Agent.{
  count_scrape, detect, suppress, log_reading, update_cgroup, show_cgroup, switch_quota, is_state,
  drift_is_due,
}
use edge_telemetry_daemon.Collector.Mem.{collect_mem, parse_file}
use edge_telemetry_daemon.Collector.{collect_cpu, parse_stat}
use edge_telemetry_daemon.KernelFile.{
  fetch, write_path, finish, separate, slash_before, copy_at, overwrite, put, seal, c_string,
  read_kernel_file,
}
use edge_telemetry_daemon.Engine.Detector
use edge_telemetry_daemon.Engine.Stats
use edge_telemetry_daemon.Engine.Ewma
use edge_telemetry_daemon.Filter.Suppressor
use edge_telemetry_daemon.Filter.Suppressor.{process, new_suppressor}
use edge_telemetry_daemon.Filter.Heartbeat.{should_flush, flush, observe, new_aggregator}
use edge_telemetry_daemon.Shared.Int.{add_int}
use edge_telemetry_daemon.Shared.Time.{time_sub}
use edge_telemetry_daemon.Agent.Events.Ticks.{tick_events}
use edge_telemetry_daemon.Http.Mux.{serve}
use edge_telemetry_daemon.Daemon.Requests.{with_agent, Effect, serve-Step}
use edge_telemetry_daemon.Daemon.Watch.{queue_of, drop, Watch, opens, offers, others, gets}
use edge_telemetry_daemon.Daemon.Watch.Frames.{Streams, Watch-Streams}
use edge_telemetry_daemon.Daemon.Sound.{Sound}
use edge_telemetry_daemon.Daemon.Main.{start_from, start_up, main-Sound, main-CanMove}

abbrev host : Host Fixed
host = record {
  marshal_anomaly = λ _. some [];
  marshal_drift = λ _. none;
  marshal_heartbeat = λ _. some [];
  event_id = λ prefix _. prefix;
  quiescent = codes "40000 100000\n";
}

-- Nothing is set in the environment.
abbrev env : Config.Host Fixed
env = record {
  get = λ _. [];
  trim_space = λ x. x;
  parse_duration = λ _. none;
  atoi = λ _. none;
  parse_float = λ _. none;
  parse_bool = λ _. none;
}

abbrev cfg : Config Fixed
cfg = read env

abbrev files : Files
files = record { self_cgroup = none; join = λ a b. a ++ b; cannot_write = λ _. false }

abbrev sources : Sources Fixed
sources = record {
  os = record { open_file = λ _. false; read_file = λ path size. none };
  draws = record { first = some (pos 0); second = some (pos 0); batch = 0; now = pos 0 };
  write_succeeds = true;
}

abbrev start : Daemon Fixed
start = launch host files cfg (pos 10) true

abbrev watched : Daemon Fixed
watched = record start { agent = (subscribe start.agent).1 }

abbrev beat : Event
beat = record { id = codes "hb-"; type = heartbeat; timestamp = pos 40000000000; payload = [] }

-- The tick at 40 seconds emits a heartbeat.
told : tick_events host sources (pos 40000000000) watched.agent ≡ beat ∷ []
unfolding launch build new_agent subscribe read getenv Config.getenv_int Config.getenv_bool
    Config.getenv_duration Config.getenv_float Config.parsed collect_usage count_scrape detect
    suppress log_reading update_cgroup show_cgroup switch_quota is_state cpu_usage read_sample
    mem_usage take_spike show_throughput collect_cpu parse_stat collect_mem parse_file
    read_kernel_file Detector.update Detector.unusable Detector.judge Detector.drift_of
    Detector.new_detector Stats.update Ewma.update Stats.mean_of Ewma.value_of fetch write_path
    finish separate slash_before copy_at overwrite put seal c_string process new_suppressor
    Suppressor.on_anomaly Suppressor.on_normal Detector.score Detector.calculate_z_score
    Ewma.is_saturated Stats.std_dev add_int drift_is_due should_flush flush observe new_aggregator
    time_sub
told = refl

abbrev begun : Daemon Fixed
begun = begin_tick host sources (pos 40000000000) watched

abbrev pushed : Daemon Fixed
pushed = push_event host beat [] begun

abbrev sent : Daemon Fixed
sent = broadcast_event host beat [] pushed

abbrev ticked : Daemon Fixed
ticked = reset_ticker host sent

begun-phase : begun.phase ≡ pushing (beat ∷ [])
unfolding begin_tick
begun-phase = ap pushing told

pushed-phase : pushed.phase ≡ broadcasting beat []
unfolding push_event
pushed-phase = refl

sent-phase : sent.phase ≡ pushing []
unfolding broadcast_event
sent-phase = refl

run_to_push : Reach host start pushed
unfolding launch read getenv
run_to_push =
    next (next (next here subscribes) (ticks sources (pos 40000000000) refl))
      (pushes beat [] begun-phase)

one_tick : Reach host start ticked
one_tick = next (next run_to_push (broadcasts beat [] pushed-phase)) (resets sent-phase)

abbrev with_workers : List Worker → Daemon Fixed
with_workers ws = record ticked { cancelled = true; workers = ws }

-- A worker that enters Pop when the context is done returns.
quits :
    (ps qs : List Worker)
    → Step host (with_workers (ps ++ (popping ∷ qs))) (with_workers (ps ++ (finished ∷ qs)))
unfolding popped after_pop note_pop
quits ps qs =
    let d = with_workers (ps ++ (popping ∷ qs)) in
    subst
      (λ (r : Outbox × Outcome).
        Step host d (with_resources (popped r (resources d)) (ps ++ (after_pop r.1 ∷ qs)) d))
      (pop_enter-done d.agent.ob) (works ps qs refl enters)

abbrev left : Daemon Fixed
left = record (with_workers (finished ∷ finished ∷ finished ∷ [])) { dispatching = leaving }

abbrev waited : Daemon Fixed
waited = record left { phase = draining }

abbrev stopped : Daemon Fixed
stopped = record waited {
  agent = record (waited.agent) { ob = Outbox.close waited.agent.ob };
  phase = returned;
}

run_to_cancel : Reach host start (with_workers start_workers)
unfolding launch begin_tick push_event broadcast_event reset_ticker start_workers read getenv
run_to_cancel = next one_tick cancels

run_to_workers : Reach host start (with_workers (finished ∷ finished ∷ finished ∷ []))
unfolding start_workers
run_to_workers =
    next
      (next (next run_to_cancel (quits [] (popping ∷ popping ∷ [])))
        (quits (finished ∷ []) (popping ∷ [])))
      (quits (finished ∷ finished ∷ []) [])

run : Reach host start stopped
unfolding launch begin_tick push_event broadcast_event reset_ticker is_running read getenv
run =
    next (next (next run_to_workers (finishes refl (refl, (refl, (refl, tt))))) (stops refl refl))
      (returns refl refl)

started : start_up host files (pos 10) true env ≡ inl start
unfolding start_up start_from
started =
    ap (start_from host files (pos 10) true) (load-defaults fixed-IsOrdered env (λ _. refl) refl)

main-Sound_example : Sound host stopped
main-Sound_example = main-Sound host files (pos 10) true env started run

beat_offered : Watch host start 0 sent (beat ∷ []) [] (drop 64 (beat ∷ []))
unfolding launch build new_agent subscribe queue_of begin_tick push_event read getenv
beat_offered =
    offers []
      (others (others (opens here refl) (ticks sources (pos 40000000000) refl) tt)
        (pushes beat [] begun-phase) tt)
      refl beat [] pushed-phase

-- The handler receives the heartbeat before the tick is over.
watch :
    Watch host start 0
      (record sent { agent = record (sent.agent) { subs = receive 0 sent.agent.subs } })
      (beat ∷ [])
      (beat ∷ [])
      (drop 64 (beat ∷ []))
unfolding launch build new_agent subscribe queue_of begin_tick push_event broadcast_event send
watch = gets beat [] beat_offered refl

Watch-Streams_example :
    Streams
      (λ e. some e.payload)
      0
      (record sent { agent = record (sent.agent) { subs = receive 0 sent.agent.subs } })
      (beat ∷ [])
      (beat ∷ [])
      (drop 64 (beat ∷ []))
Watch-Streams_example = Watch-Streams host (λ e. some e.payload) files cfg (pos 10) true 0 watch

-- A request for the live stream.
abbrev pick : List Bytes → Option Bytes
pick _ = some (codes "/events")

serve-Step_example :
    let (n, a, answer) = serve pick (codes "dev") true 7 start.agent in
    (n ≡ 8)
    × Effect host start.agent a answer
    × ((with_agent host start a ≡ start) ⊎ Step host start (with_agent host start a))
serve-Step_example = serve-Step host pick (codes "dev") true 7 start

-- A server that answers at once.
abbrev server : ℕ → Attempt Fixed
server _ = record { interrupted = false; random = some (pos 0); respond = λ _. status 204 }

main-CanMove_example :
    (ticked.agent.ob.count ≡ 0)
    ⊎ CanMove Fixed (dispatcher_config ticked.agent.cfg) (resources ticked) ticked.workers
unfolding launch begin_tick push_event broadcast_event reset_ticker read getenv
main-CanMove_example =
    main-CanMove host files (pos 10) true env server started one_tick (λ k. refl) refl refl
