-- ===== src/Transport/Tests.antt =====
-- Runs of the retry loop with a server that is busy twice, and its theorems at concrete inputs.

use edge_telemetry_daemon.Shared.{
  ℕ, suc, ◌+◌, ◌≤◌, ◌≡◌, refl, arith, false, some, List, [], ◌∷◌, length,
}
use edge_telemetry_daemon.Shared.Int.{pos}
use edge_telemetry_daemon.Shared.Fixed.{Fixed, fixed}
use edge_telemetry_daemon.Shared.Text.{codes}
use edge_telemetry_daemon.Outbox.{zero_event}
use edge_telemetry_daemon.Transport.{
  DispatcherConfig, Counters, status, unexpected_status, Attempt, delivered, exhausted, Job,
  build_request, post_event, result, before, is_interrupted, retry_from, dispatch_with_retry,
  worker_loop,
}
use edge_telemetry_daemon.Transport.Retry.{dispatch-delivered, dispatch-exhausted, dispatch-bounds}
use edge_telemetry_daemon.Transport.Worker.{Show, deliveries, losses, worker_loop-counts}

abbrev c : DispatcherConfig
c = record {
  target_url = codes "http://localhost";
  auth_token = [];
  timeout = pos 0;
  max_retries = pos 2;
  initial_backoff = pos 10;
  max_backoff = pos 100;
  user_agent = [];
}

abbrev answer : ℕ → Attempt Fixed
answer n = record { interrupted = false; random = some (pos 0); respond = λ _. status n }

-- Busy for two requests, then well.
abbrev server : ℕ → Attempt Fixed
server (suc (suc k)) = answer 204
server _ = answer 503

abbrev busy : ℕ → Attempt Fixed
busy _ = answer 503

retries_counted : (dispatch_with_retry c zero_event server (some 0)).1.retries ≡ some 2
unfolding dispatch_with_retry retry_from before is_interrupted result post_event build_request
retries_counted = refl

dispatch-delivered_example :
    let (out, w) = dispatch_with_retry c zero_event server (some 0) in
    (out ≡ delivered) × (w.posts ≡ 2 + 1)
unfolding is_interrupted result post_event build_request
dispatch-delivered_example =
    dispatch-delivered c zero_event server 2 2 (some 0) refl (omega arith)
      ((refl, (unexpected_status 503, refl)), ((refl, (unexpected_status 503, refl)), tt)) refl refl

dispatch-exhausted_example :
    let (out, w) = dispatch_with_retry c zero_event busy (some 0) in
    (out ≡ exhausted (result c zero_event busy 2)) × (w.posts ≡ 2 + 1)
unfolding is_interrupted result post_event build_request
dispatch-exhausted_example = dispatch-exhausted c zero_event busy 2 (some 0) refl (
  (refl, (unexpected_status 503, refl)),
  ((refl, (unexpected_status 503, refl)), ((refl, (unexpected_status 503, refl)), tt)),
)

dispatch-bounds_example :
    let w = (dispatch_with_retry c zero_event busy (some 0)).1 in
    (w.posts ≤ 2 + 1) × (length w.sleeps ≤ 2)
dispatch-bounds_example = dispatch-bounds c zero_event busy 2 (some 0) refl

abbrev jobs : List (Job Fixed)
jobs =
    record { event = zero_event; env = server; done = false }
    ∷ record { event = zero_event; env = busy; done = false }
    ∷ []

abbrev fresh : Counters
fresh = record { dispatched = some 0; failures = some 0; retries = some 0 }

jobs-delivered : (deliveries c jobs ≡ 1) × (losses c jobs ≡ 1)
unfolding dispatch_with_retry retry_from before is_interrupted result post_event build_request
jobs-delivered = (refl, refl)

worker_loop-counts_example :
    Show (worker_loop c jobs fresh) (0 + deliveries c jobs) (0 + losses c jobs)
    × (deliveries c jobs + losses c jobs ≡ length jobs)
worker_loop-counts_example =
    worker_loop-counts c jobs fresh 0 0 (refl, (refl, tt)) (refl, refl) (omega arith)
