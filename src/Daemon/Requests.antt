-- ===== src/Daemon/Requests.antt =====
-- cmd/agent/main.go: what the requests and the socket's connections do to the daemon.
use edge_telemetry_daemon.Shared.{
  ℕ, ◌+◌, ◌⊎◌, inl, inr, ◌≡◌, refl, Bool, true, false, Option, none, some, List, [], ◌∷◌, if_ind,
  inc64, map,
}
use edge_telemetry_daemon.Shared.Text.{Bytes, equal}
use edge_telemetry_daemon.Shared.Float.{Float}
use edge_telemetry_daemon.Agent.Usage.{inject_anomaly}
use edge_telemetry_daemon.Agent.{Agent, Host, subscribe}
use edge_telemetry_daemon.Http.{Response, inject_page}
use edge_telemetry_daemon.Http.Mux.{
  Route, metrics_route, healthz_route, livez_route, version_route, inject_route, events_route,
  new_mux, route_of, picked, Answer, page, metrics_text, stream, not_found, stream_headers,
  open_stream, handle, serve, Accepted, connection, accept_error, accept_loop,
}
use edge_telemetry_daemon.Daemon.{Daemon, Step, subscribes, injects, Reach, here, next}

-- The debug flag is set where the route is the debug route.
abbrev Allowed : Bool → Option Route → Type 0
Allowed debug (some inject_route) = debug ≡ true
Allowed debug (some metrics_route) = Unit
Allowed debug (some healthz_route) = Unit
Allowed debug (some livez_route) = Unit
Allowed debug (some version_route) = Unit
Allowed debug (some events_route) = Unit
Allowed debug none = Unit

abbrev AllAllowed : Bool → List (Bytes × Route) → Type 0
AllAllowed debug [] = Unit
AllAllowed debug ((p, r) ∷ rs) = Allowed debug (some r) × AllAllowed debug rs

new_mux-AllAllowed : (debug : Bool) → AllAllowed debug (new_mux debug)
unfolding new_mux
new_mux-AllAllowed true = (tt, (tt, (tt, (tt, (refl, (tt, tt))))))
new_mux-AllAllowed false = (tt, (tt, (tt, (tt, (tt, tt)))))

route_of-Allowed :
    (debug : Bool) (pattern : Bytes) (rs : List (Bytes × Route))
    → AllAllowed debug rs
    → Allowed debug (route_of pattern rs)
unfolding route_of
route_of-Allowed debug pattern [] all = tt
route_of-Allowed debug pattern ((p, r) ∷ rs) (ok, all) =
    if_ind (λ (o : Option Route). Allowed debug o) (equal pattern p) (λ _. ok)
      (λ _. route_of-Allowed debug pattern rs all)

picked-Allowed :
    (debug : Bool) (pattern : Option Bytes) → Allowed debug (picked pattern (new_mux debug))
unfolding picked
picked-Allowed debug none = tt
picked-Allowed debug (some pattern) =
    route_of-Allowed debug pattern (new_mux debug) (new_mux-AllAllowed debug)

module _ {ℓ} {F : Type ℓ} ⦃f : Float F⦄ (h : Host F) where
  abbrev pub with_agent : Daemon F → Agent F → Daemon F
  with_agent d a = record d { agent = a }

  abbrev NoStream : Answer → Type 0
  NoStream (page r) = Unit
  NoStream metrics_text = Unit
  NoStream (stream hs i) = ⊥
  NoStream not_found = Unit

  -- How a request may change the agent, by its answer.
  pub data Effect (a : Agent F) : Agent F → Answer → Type ℓ where
    reads : {r : Answer} → NoStream r → Effect a a r
    subscribed : Effect a (subscribe a).1 (stream stream_headers a.next_channel)
    injected :
        (r : Response) → a.cfg.enable_debug_endpoints ≡ true → Effect a (inject_anomaly a) (page r)

  abbrev Handled : Agent F → Agent F × Answer → Type ℓ
  Handled a (b, r) = Effect a b r

  open_stream-Handled : (flusher : Bool) (a : Agent F) → Handled a (open_stream flusher a)
  unfolding open_stream subscribe
  open_stream-Handled true a = subscribed
  open_stream-Handled false a = reads tt

  handle-Handled :
      (version : Bytes) (flusher : Bool) (a : Agent F) (r : Option Route)
      → Allowed a.cfg.enable_debug_endpoints r
      → Handled a (handle version flusher a r)
  unfolding handle inject_page
  handle-Handled version flusher a (some metrics_route) ok = reads tt
  handle-Handled version flusher a (some healthz_route) ok = reads tt
  handle-Handled version flusher a (some livez_route) ok = reads tt
  handle-Handled version flusher a (some version_route) ok = reads tt
  handle-Handled version flusher a (some inject_route) flag = injected _ flag
  handle-Handled version flusher a (some events_route) ok = open_stream-Handled flusher a
  handle-Handled version flusher a none ok = reads tt

  Effect-Step :
      (d : Daemon F) {a : Agent F} {r : Answer}
      → Effect d.agent a r
      → (with_agent d a ≡ d) ⊎ Step h d (with_agent d a)
  Effect-Step d (reads n) = inl refl
  Effect-Step d subscribed = inr subscribes
  Effect-Step d (injected r flag) = inr (injects flag)

  -- Whatever pattern ServeMux picks, a request is counted and has one effect on the agent: it opens the
  -- channel that its stream reads, or it injects an anomaly and the debug flag is set, or it leaves the
  -- agent alone and is no stream; so the daemon stays as it is or takes a step.
  pub serve-Step :
      (pick : List Bytes → Option Bytes) (version : Bytes) (flusher : Bool) (requests : ℕ)
      (d : Daemon F)
      → let (n, a, answer) = serve pick version flusher requests d.agent in
        (n ≡ inc64 requests)
        × Effect d.agent a answer
        × ((with_agent d a ≡ d) ⊎ Step h d (with_agent d a))
  unfolding serve
  serve-Step pick version flusher requests d =
      let mux = new_mux d.agent.cfg.enable_debug_endpoints in
      let pattern = pick (map (λ p. p.0) mux) in
      let e =
        handle-Handled version flusher d.agent (picked pattern mux)
          (picked-Allowed d.agent.cfg.enable_debug_endpoints pattern) in
      (refl, e, Effect-Step d e)

  -- The channels that connections get: from `n` on, one each.
  abbrev Consecutive : ℕ → List ℕ → Type 0
  Consecutive n [] = Unit
  Consecutive n (i ∷ is) = (i ≡ n) × Consecutive (n + 1) is

  then_reach : {a b c : Daemon F} → Step h a b → Reach h b c → Reach h a c
  then_reach st here = next here st
  then_reach st (next r st') = next (then_reach st r) st'

  -- However Accept fails in between, the socket's connections get channels of their own, and the daemon
  -- only takes steps.
  accept_loop-Reach :
      (accepts : List Accepted) (d : Daemon F)
      → let (a, is) = accept_loop accepts d.agent in
        Reach h d (with_agent d a) × Consecutive d.agent.next_channel is
  unfolding accept_loop subscribe
  accept_loop-Reach [] d = (here, tt)
  accept_loop-Reach (connection ∷ rest) d =
      let (r, c) = accept_loop-Reach rest (with_agent d (subscribe d.agent).1) in
      (then_reach subscribes r, (refl, c))
  accept_loop-Reach (accept_error true ∷ rest) d = (here, tt)
  accept_loop-Reach (accept_error false ∷ rest) d = accept_loop-Reach rest d
