-- ===== src/Transport.antt =====
-- internal/transport/dispatcher.go: the workers that take events from the outbox and post them. What
-- net/http, the timer, the context and math/rand do is an argument, `Attempt` by `Attempt`.
pub mod Pool
pub mod Retry
pub mod Worker
mod Tests
use mathlib.Core.Option
use edge_telemetry_daemon.Shared.{
  ℕ, zero, suc, ◌+◌, ◌-◌, ◌*◌, ◌%◌, ◌^◌, Bool, true, false, not, ◌&&◌, ◌||◌, Option, none, some,
  List, [], ◌∷◌, ◌++◌, if◌then◌else◌, ltb, leb, inc64, u64_mod,
}
use edge_telemetry_daemon.Shared.Int.{ℤ, pos, negsuc, leb_ℤ, ltb_ℤ, pos_part}
use edge_telemetry_daemon.Shared.Time.{Duration, second, millisecond}
use edge_telemetry_daemon.Shared.Float.{Float}
use edge_telemetry_daemon.Shared.Text.{Bytes, codes, is_empty}
use edge_telemetry_daemon.Outbox.{Event}

pub record DispatcherConfig : Type 0 where
  pub target_url : Bytes
  pub auth_token : Bytes
  pub timeout : Duration
  pub max_retries : ℤ
  pub initial_backoff : Duration
  pub max_backoff : Duration
  pub user_agent : Bytes

-- The counters are `none` where the dispatcher was built with no registry.
pub record Counters : Type 0 where
  pub dispatched : Option ℕ
  pub failures : Option ℕ
  pub retries : Option ℕ

-- The defaults of `NewDispatcher`.
pub with_defaults : DispatcherConfig → DispatcherConfig
with_defaults c = record {
  target_url = c.target_url;
  auth_token = c.auth_token;
  timeout = if leb_ℤ c.timeout (pos 0) then pos (5 * second) else c.timeout;
  max_retries = if ltb_ℤ c.max_retries (pos 0) then pos 3 else c.max_retries;
  initial_backoff =
      if leb_ℤ c.initial_backoff (pos 0) then pos (50 * millisecond) else c.initial_backoff;
  max_backoff = if leb_ℤ c.max_backoff (pos 0) then pos (2 * second) else c.max_backoff;
  user_agent = if is_empty c.user_agent then codes "EdgeTelemetryDaemon/1.0" else c.user_agent;
}

-- What became of a request: `NewRequestWithContext` failed, `Do` failed, or a status came back.
pub data Response : Type 0 where
  bad_request no_response : Response
  status : ℕ → Response

pub data PostError : Type 0 where
  create_request http_post : PostError
  unexpected_status : ℕ → PostError

pub record Request : Type 0 where
  pub url : Bytes
  pub headers : List (Bytes × Bytes)
  pub body : Bytes

pub build_request : DispatcherConfig → Event → Request
build_request c evt = record {
  url = c.target_url;
  headers =
      (codes "Content-Type", codes "application/json")
      ∷ (codes "User-Agent", c.user_agent)
      ∷ (codes "X-Event-ID", evt.id)
      ∷ (if is_empty c.auth_token
          then []
          else (codes "Authorization", codes "Bearer " ++ c.auth_token) ∷ []);
  body = evt.payload;
}

-- The error of `postEvent`; `none` is nil.
pub post_event : Response → Option PostError
post_event bad_request = some create_request
post_event no_response = some http_post
post_event (status code) =
    if ltb code 200 || leb 300 code then some (unexpected_status code) else none

-- One round of the retry loop: whether the context ends the sleep before it, the number that
-- `rand.Float64` gives, and what becomes of the request that `build_request` made.
pub record Attempt {ℓ} (F : Type ℓ) : Type ℓ where
  pub interrupted : Bool
  pub random : F
  pub respond : Request → Response

-- `uint64(1) << uint(attempt-1)`, which is 0 from 64 bits on.
abbrev pub shl_one : ℕ → ℕ
shl_one k = 2 ^ k % u64_mod

module _ {ℓ} {F : Type ℓ} ⦃f : Float F⦄ where
  open f use {add, sub, mul, lt, of_ratio, of_uint, of_int, to_int}

  -- The backoff before a retry, without its jitter.
  pub backoff : DispatcherConfig → ℕ → F
  backoff c attempt =
      let b = mul (of_int c.initial_backoff) (of_uint (shl_one (attempt - 1))) in
      let most = of_int c.max_backoff in if lt most b then most else b

  pub sleep_duration : DispatcherConfig → ℕ → F → Duration
  sleep_duration c attempt random =
      let b = backoff c attempt in
      to_int (add b (mul (sub (mul random (of_ratio 1 2)) (of_ratio 1 4)) b))

-- `max retries reached` carries the last error, `ctx.Err()` nothing.
pub data Outcome : Type 0 where
  delivered : Outcome
  cancelled : Outcome
  exhausted : Option PostError → Outcome

-- How often, for less than the largest int, `for attempt := 0; attempt <= MaxRetries; attempt++` runs at most.
abbrev pub rounds_of : ℤ → ℕ
rounds_of (pos n) = n + 1
rounds_of (negsuc n) = 0

-- What the loop has done: requests made, the durations slept, and the retries counter.
pub record Work : Type 0 where
  pub posts : ℕ
  pub sleeps : List Duration
  pub retries : Option ℕ

module _ {ℓ} {F : Type ℓ} ⦃f : Float F⦄ (c : DispatcherConfig) (evt : Event) where
  -- The error of round `k`, if it gets to its request.
  pub result : (ℕ → Attempt F) → ℕ → Option PostError
  result env k = post_event ((env k).respond (build_request c evt))

  -- `if attempt > 0 { … }` up to the select.
  pub before : (ℕ → Attempt F) → ℕ → Work → Work
  before env zero w = w
  before env (suc k) w = record w {
    sleeps = w.sleeps ++ (sleep_duration c (suc k) (env (suc k)).random ∷ []);
    retries = Option.map inc64 w.retries;
  }

  -- The select of that block; there is none in the first round.
  pub is_interrupted : (ℕ → Attempt F) → ℕ → Bool
  is_interrupted env zero = false
  is_interrupted env (suc k) = (env (suc k)).interrupted

  -- The loop from round `attempt` on, by the rounds left.
  pub retry_from : (ℕ → Attempt F) → ℕ → ℕ → Option PostError → Work → Outcome × Work
  retry_from env zero attempt last w = (exhausted last, w)
  retry_from env (suc rounds) attempt last w =
      let w' = before env attempt w in
      let posted = record w' { posts = w'.posts + 1 } in
      elim (is_interrupted env attempt) [
        | true ↦ (cancelled, w')
        | false ↦ elim (result env attempt) [
          | none ↦ (delivered, posted)
          | some e ↦ retry_from env rounds (suc attempt) (some e) posted
        ]
      ]

  pub dispatch_with_retry : (ℕ → Attempt F) → Option ℕ → Outcome × Work
  dispatch_with_retry env retries =
      retry_from env (rounds_of c.max_retries) 0 none
        (record { posts = 0; sleeps = []; retries = retries })

-- An event that a worker popped, what its rounds meet, and whether the context is done at the end.
pub record Job {ℓ} (F : Type ℓ) : Type ℓ where
  pub event : Event
  pub env : ℕ → Attempt F
  pub done : Bool

-- The counting of an outcome in the worker's loop.
pub settle : Bool → Outcome → Counters → Counters
settle done delivered m = record m { dispatched = Option.map inc64 m.dispatched }
settle done cancelled m =
    if not done then record m { failures = Option.map inc64 m.failures } else m
settle done (exhausted e) m =
    if not done then record m { failures = Option.map inc64 m.failures } else m

module _ {ℓ} {F : Type ℓ} ⦃f : Float F⦄ (c : DispatcherConfig) where
  -- One turn of the loop whose Pop gave an event.
  pub work : Job F → Counters → Counters
  work job m =
      let (out, w) = dispatch_with_retry c job.event job.env m.retries in
      settle job.done out (record m { retries = w.retries })

  -- The loop, by the events that Pop gives before its error.
  pub worker_loop : List (Job F) → Counters → Counters
  worker_loop [] m = m
  worker_loop (job ∷ jobs) m = worker_loop jobs (work job m)
