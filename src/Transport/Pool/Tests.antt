-- ===== src/Transport/Pool/Tests.antt =====
-- Workers at a shutdown: one dispatches an event to a server that is busy twice, one waits.
use edge_telemetry_daemon.Shared.{ℕ, suc, ◌+◌, ◌*◌, ◌≤◌, refl, true, false, some, [], ◌∷◌}
use edge_telemetry_daemon.Shared.Int.{pos}
use edge_telemetry_daemon.Shared.Fixed.{Fixed, fixed}
use edge_telemetry_daemon.Outbox.{drop_oldest, new_outbox, zero_event}
use edge_telemetry_daemon.Outbox.Account.{empty_log}
use edge_telemetry_daemon.Outbox.Stock.{stock}
use edge_telemetry_daemon.Transport.{DispatcherConfig, Attempt, Job, status}
use edge_telemetry_daemon.Transport.Pool.{
  waiting, finished, popping, sending, Resources, dispatched, cancels, sends,
}
use edge_telemetry_daemon.Transport.Pool.Stops.{Run, here, moves, GoesOn, Run-returns}

abbrev c : DispatcherConfig
c = record {
  target_url = [];
  auth_token = [];
  timeout = pos 0;
  max_retries = pos 2;
  initial_backoff = pos 10;
  max_backoff = pos 100;
  user_agent = [];
}

abbrev server : ℕ → Attempt Fixed
server (suc (suc k)) = record {
  interrupted = false;
  random = some (pos 0);
  respond = λ _. status 204;
}
server _ = record { interrupted = false; random = some (pos 0); respond = λ _. status 503 }

abbrev job : Job Fixed
job = record { event = zero_event; env = server; done = true }

abbrev s : Resources
s = record {
  ob = new_outbox (record { capacity = pos 5; drop_policy = drop_oldest });
  counters = record { dispatched = some 0; failures = some 0; retries = some 0 };
  log = empty_log;
  tally = record { sent = []; lost = []; cut = [] };
}

run :
    Run Fixed c s
      (sending zero_event ∷ waiting ∷ [])
      2
      (dispatched c job s)
      (popping ∷ finished ∷ [])
run =
    moves (popping ∷ []) []
      (moves [] (waiting ∷ []) here refl (sends job zero_event refl (refl, λ k h. refl))) refl
      (cancels refl)

Run-returns_example :
    (2 ≤ stock s.ob + 3 * 2) × GoesOn Fixed c (dispatched c job s) (popping ∷ finished ∷ [])
Run-returns_example = Run-returns server run
