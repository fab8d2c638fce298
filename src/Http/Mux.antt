-- ===== src/Http/Mux.antt =====
-- cmd/agent/main.go: newMux and the server's handler around it, and startUDSServer. Which pattern
-- ServeMux picks for a request, and what Listen and Accept return, are arguments.
use edge_telemetry_daemon.Shared.{
  ℕ, Bool, true, false, Option, none, some, List, [], ◌∷◌, ◌++◌, map, if◌then◌else◌, inc64,
}
use edge_telemetry_daemon.Shared.Text.{Bytes, codes, equal}
use edge_telemetry_daemon.Shared.Float.{Float}
use edge_telemetry_daemon.Agent.{Agent, subscribe}
use edge_telemetry_daemon.Http.{Response, healthz, livez, version_page, inject_page}

-- The handlers that are registered, and the patterns that they are registered for.
pub data Route : Type 0 where
  metrics_route healthz_route livez_route version_route inject_route events_route : Route

unfoldable pub new_mux : Bool → List (Bytes × Route)
new_mux debug =
    (codes "/metrics", metrics_route)
    ∷ (codes "/healthz", healthz_route)
    ∷ (codes "/livez", livez_route)
    ∷ (codes "/version", version_route)
    ∷ ((if debug then (codes "/inject/anomaly", inject_route) ∷ [] else [])
        ++ ((codes "/events", events_route) ∷ []))

-- The handler of a pattern.
unfoldable pub route_of : Bytes → List (Bytes × Route) → Option Route
route_of pattern [] = none
route_of pattern ((p, r) ∷ rs) =
    let rest = route_of pattern rs in if equal pattern p then some r else rest

unfoldable pub picked : Option Bytes → List (Bytes × Route) → Option Route
picked none mux = none
picked (some pattern) mux = route_of pattern mux

-- The headers of a stream.
pub stream_headers : List (Bytes × Bytes)
stream_headers =
    (codes "Content-Type", codes "text/event-stream")
    ∷ (codes "Cache-Control", codes "no-cache")
    ∷ (codes "Connection", codes "keep-alive")
    ∷ []

-- An answer: a status and a body, the registry's text, headers and then the events of a channel, or
-- ServeMux's own answer where it picks no pattern.
pub data Answer : Type 0 where
  page : Response → Answer
  metrics_text : Answer
  stream : List (Bytes × Bytes) → ℕ → Answer
  not_found : Answer

module _ {ℓ} {F : Type ℓ} ⦃f : Float F⦄ where
  -- `/events` up to its loop. `http.Error` adds the newline.
  unfoldable pub open_stream : Bool → Agent F → Agent F × Answer
  open_stream flusher a =
      if flusher
      then (let (i, a') = subscribe a in (a', stream stream_headers i))
      else (a, page (500, codes "Streaming unsupported\n"))

  unfoldable pub handle : Bytes → Bool → Agent F → Option Route → Agent F × Answer
  handle version flusher a (some metrics_route) = (a, metrics_text)
  handle version flusher a (some healthz_route) = (a, page (healthz a.ob))
  handle version flusher a (some livez_route) = (a, page livez)
  handle version flusher a (some version_route) = (a, page (version_page version))
  handle version flusher a (some inject_route) = let (b, r) = inject_page a in (b, page r)
  handle version flusher a (some events_route) = open_stream flusher a
  handle version flusher a none = (a, not_found)

  -- The pattern that ServeMux picks, and its handler. The request is counted first.
  unfoldable pub serve :
      (List Bytes → Option Bytes) → Bytes → Bool → ℕ → Agent F → ℕ × Agent F × Answer
  serve pick version flusher requests a =
      let mux = new_mux a.cfg.enable_debug_endpoints in
      let route = picked (pick (map (λ p. p.0) mux)) mux in
      let (a', answer) = handle version flusher a route in (inc64 requests, a', answer)

-- What Accept returns: a connection, or an error, with whether the context is done.
pub data Accepted : Type 0 where
  connection : Accepted
  accept_error : Bool → Accepted

module _ {ℓ} {F : Type ℓ} ⦃f : Float F⦄ where
  -- The loop of startUDSServer: the channels that its connections subscribe, each as it comes.
  unfoldable pub accept_loop : List Accepted → Agent F → Agent F × List ℕ
  accept_loop [] a = (a, [])
  accept_loop (connection ∷ rest) a =
      let (i, a') = subscribe a in let (b, is) = accept_loop rest a' in (b, i ∷ is)
  accept_loop (accept_error true ∷ rest) a = (a, [])
  accept_loop (accept_error false ∷ rest) a = accept_loop rest a

  -- Nothing is served where Listen fails; main only logs this.
  pub start_uds_server : Bool → List Accepted → Agent F → Agent F × List ℕ
  start_uds_server listens accepts a = if listens then accept_loop accepts a else (a, [])
