-- ===== src/Transport/Pool/Stops.antt =====
-- internal/transport/dispatcher.go: Run once its context is done, while the workers step in any order.
use mathlib.Core.Path.{subst}
use edge_telemetry_daemon.Shared.{
  ℕ, ◌+◌, ◌*◌, ◌≤◌, ◌<◌, ◌≡◌, ◌⊎◌, inl, inr, refl, sym, ap, true, List, [], ◌∷◌, ◌++◌, arith,
  length,
}
use edge_telemetry_daemon.Shared.Float.{Float}
use edge_telemetry_daemon.Outbox.{
  Outbox, Outcome, event, failed, waits, context_done, wake_closed, wake_token, close,
}
use edge_telemetry_daemon.Outbox.Stock.{
  stock, burden, wake_token-Spends, wake_closed-Spends, receive_token-stock, close-stock,
  pop_enter-done,
}
use edge_telemetry_daemon.Transport.{DispatcherConfig, Attempt}
use edge_telemetry_daemon.Transport.Pool.{
  Worker, popping, waiting, holding, finished, sending, AllFinished, Resources, after_pop, popped,
  dispatched, Move, enters, receives, wakes, wakes_closed, cancels, sends,
}

-- Steps of the workers under a context that is done, by how many steps they took; main may close the
-- outbox in between.
pub data Run {ℓ} (F : Type ℓ) ⦃f : Float F⦄ (c : DispatcherConfig) (s : Resources)
    (ws : List Worker) : ℕ → Resources → List Worker → Type ℓ where
  here : Run F c s ws 0 s ws
  moves :
      {n : ℕ} {t u : Resources} {vs : List Worker} {p q : Worker} (ps qs : List Worker)
      → Run F c s ws n t vs
      → vs ≡ ps ++ (p ∷ qs)
      → Move F c true t p u q
      → Run F c s ws (n + 1) u (ps ++ (q ∷ qs))
  closes :
      {n : ℕ} {t : Resources} {vs : List Worker}
      → Run F c s ws n t vs
      → Run F c s ws n (record t { ob = close t.ob }) vs

-- The steps that a worker may still take by itself, and all of them with what is in the outbox.
rank : Worker → ℕ
rank finished = 0
rank popping = 1
rank waiting = 1
rank (sending e) = 2
rank holding = 3

ranks : List Worker → ℕ
ranks [] = 0
ranks (p ∷ ps) = rank p + ranks ps

pub steps_left : Resources → List Worker → ℕ
steps_left s ws = stock s.ob + ranks ws

ranks-append :
    (ps : List Worker) (p : Worker) (qs : List Worker)
    → ranks (ps ++ (p ∷ qs)) ≡ rank p + ranks (ps ++ qs)
unfolding ranks
ranks-append [] p qs = refl
ranks-append (q ∷ ps) p qs = omega (arith, ranks-append ps p qs)

-- The answer of a section of Pop leaves its worker as much to do as it weighs.
rank-after_pop : (out : Outcome) → rank (after_pop out) ≡ burden out
unfolding rank after_pop
rank-after_pop (event e) = refl
rank-after_pop (failed err) = refl
rank-after_pop waits = refl

rank-le : (p : Worker) → rank p ≤ 3
unfolding rank
rank-le popping = omega arith
rank-le waiting = omega arith
rank-le holding = omega arith
rank-le finished = omega arith
rank-le (sending e) = omega arith

ranks-le : (ws : List Worker) → ranks ws ≤ 3 * length ws
unfolding ranks
ranks-le [] = omega arith
ranks-le (p ∷ ws) = omega (arith, rank-le p, ranks-le ws)

-- All workers have returned, or one of them can take a step.
abbrev pub GoesOn {ℓ} :
    (F : Type ℓ) ⦃f : Float F⦄ → DispatcherConfig → Resources → List Worker → Type ℓ
GoesOn F c s ws =
    AllFinished ws
    ⊎ ((ps : List Worker) × (p : Worker) × (qs : List Worker) × (ws ≡ ps ++ (p ∷ qs))
        × (t : Resources) × (q : Worker) × Move F c true s p t q)

module _ {ℓ} {F : Type ℓ} ⦃f : Float F⦄ {c : DispatcherConfig} where
  Move-spends :
      {s t : Resources} {p q : Worker}
      → Move F c true s p t q
      → stock t.ob + rank q < stock s.ob + rank p
  unfolding popped dispatched rank
  Move-spends {s} enters =
      subst (λ (r : Outbox × Outcome). stock r.0 + rank (after_pop r.1) < stock s.ob + 1)
        (sym (pop_enter-done s.ob)) (omega (arith, rank-after_pop (failed context_done)))
  Move-spends {s} (receives o e) = omega (arith, receive_token-stock s.ob o e)
  Move-spends {s} wakes = omega (arith, wake_token-Spends s.ob, rank-after_pop (wake_token s.ob).1)
  Move-spends {s} (wakes_closed e) =
      omega (arith, wake_closed-Spends s.ob, rank-after_pop (wake_closed s.ob).1)
  Move-spends (cancels e) = omega arith
  Move-spends (sends job e same obeys) = omega arith

  Run-steps_left :
      {s : Resources} {ws : List Worker} {n : ℕ} {t : Resources} {vs : List Worker}
      → Run F c s ws n t vs
      → n + steps_left t vs ≤ steps_left s ws
  unfolding steps_left
  Run-steps_left here = omega arith
  Run-steps_left (closes {t = t} r) = omega (arith, Run-steps_left r, close-stock t.ob)
  Run-steps_left (moves {t = t} {vs = vs} {p = p} {q = q} ps qs r e mv) = omega (
    arith,
    Run-steps_left r,
    Move-spends mv,
    ap ranks e,
    ranks-append ps p qs,
    ranks-append ps q qs,
  )

  -- A worker that has not returned can take a step, whatever its next dispatch meets.
  worker_step :
      (env : ℕ → Attempt F) (s : Resources) (p : Worker)
      → (p ≡ finished) ⊎ ((t : Resources) × (q : Worker) × Move F c true s p t q)
  worker_step env s popping = inr (_, _, enters)
  worker_step env s waiting = inr (_, _, cancels refl)
  worker_step env s holding = inr (_, _, wakes)
  worker_step env s finished = inl refl
  worker_step env s (sending e) =
      inr (_, _, sends (record { event = e; env = env; done = true }) e refl (refl, λ k h. refl))

  all-GoesOn : (env : ℕ → Attempt F) (s : Resources) (ws : List Worker) → GoesOn F c s ws
  all-GoesOn env s [] = inl tt
  all-GoesOn env s (p ∷ ws) = elim (worker_step env s p) [
    | inr (t, q, mv) ↦ inr ([], p, ws, refl, t, q, mv)
    | inl e ↦ elim (all-GoesOn env s ws) [
      | inl es ↦ inl (e, es)
      | inr (ps, r, qs, same, t, q, mv) ↦ inr (p ∷ ps, r, qs, ap (λ xs. p ∷ xs) same, t, q, mv)
    ]
  ]

  -- Once the context is done and nothing is pushed, a run of the workers is no longer than three times the tokens, twice the
  -- queued events, and three for each worker, whatever they meet and whether the outbox is closed
  -- meanwhile; and until all workers have returned, one can take a step.
  pub Run-returns :
      (env : ℕ → Attempt F) {s : Resources} {ws : List Worker} {n : ℕ} {t : Resources}
      {vs : List Worker}
      → Run F c s ws n t vs
      → (n ≤ stock s.ob + 3 * length ws) × GoesOn F c t vs
  unfolding steps_left
  Run-returns env {ws = ws} {t = t} {vs = vs} r =
      (omega (arith, Run-steps_left r, ranks-le ws), all-GoesOn env t vs)
