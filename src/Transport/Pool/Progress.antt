-- ===== src/Transport/Pool/Progress.antt =====
-- internal/transport/dispatcher.go: the workers are not all stuck while an event is queued.
use edge_telemetry_daemon.Shared.{
  ℕ, ◌<◌, ◌≡◌, refl, sym, ◌∙◌, ap, inl, inr, false, Bool-cases, List, [], ◌∷◌, ◌++◌, arith, length,
  ltb, ltb→lt,
}
use edge_telemetry_daemon.Shared.Float.{Float}
use edge_telemetry_daemon.Outbox.Stock.{receive_token-some}
use edge_telemetry_daemon.Outbox.Workers.{IsCovered}
use edge_telemetry_daemon.Transport.{DispatcherConfig, Attempt}
use edge_telemetry_daemon.Transport.Pool.{
  Worker, popping, waiting, holding, finished, sending, Resources, Move, enters, receives, wakes,
  sends,
}
use edge_telemetry_daemon.Transport.Pool.Taken.{token_of}
use edge_telemetry_daemon.Transport.Pool.Account.{tokens}
use edge_telemetry_daemon.Transport.Pool.Working.{AllWorking}

-- One of the workers can take a step under a live context.
abbrev pub CanMove {ℓ} :
    (F : Type ℓ) ⦃f : Float F⦄ → DispatcherConfig → Resources → List Worker → Type ℓ
CanMove F c s ws =
    (ps : List Worker) × (p : Worker) × (qs : List Worker) × (ws ≡ ps ++ (p ∷ qs))
    × (t : Resources) × (q : Worker) × Move F c false s p t q

holder :
    (ws : List Worker)
    → 0 < tokens ws
    → (ps : List Worker) × (qs : List Worker) × (ws ≡ ps ++ (holding ∷ qs))
unfolding tokens token_of
holder [] lt = absurd (omega (arith, lt))
holder (holding ∷ ws) lt = ([], ws, refl)
holder (popping ∷ ws) lt =
    let (ps, qs, e) = holder ws (omega (arith, lt)) in (popping ∷ ps, qs, ap (λ xs. popping ∷ xs) e)
holder (waiting ∷ ws) lt =
    let (ps, qs, e) = holder ws (omega (arith, lt)) in (waiting ∷ ps, qs, ap (λ xs. waiting ∷ xs) e)
holder (finished ∷ ws) lt =
    let (ps, qs, e) = holder ws (omega (arith, lt)) in
    (finished ∷ ps, qs, ap (λ xs. finished ∷ xs) e)
holder (sending x ∷ ws) lt =
    let (ps, qs, e) = holder ws (omega (arith, lt)) in
    (sending x ∷ ps, qs, ap (λ xs. sending x ∷ xs) e)

-- Where an event is queued and tokens cover the queue.
pub queued-CanMove {ℓ} :
    {F : Type ℓ} ⦃f : Float F⦄ {c : DispatcherConfig} (env : ℕ → Attempt F)
    → ((k : ℕ) → (env k).interrupted ≡ false)
    → (s : Resources) (ws : List Worker) → AllWorking ws
    → 0 < length ws
    → 0 < s.ob.count
    → IsCovered s.ob (tokens ws)
    → CanMove F c s ws
queued-CanMove env calm s [] all some_worker queued covered = absurd (omega (arith, some_worker))
queued-CanMove env calm s (popping ∷ ws) all some_worker queued covered =
    ([], popping, ws, refl, _, _, enters)
queued-CanMove env calm s (holding ∷ ws) all some_worker queued covered =
    ([], holding, ws, refl, _, _, wakes)
queued-CanMove env calm s (sending e ∷ ws) all some_worker queued covered = (
  [],
  sending e,
  ws,
  refl,
  _,
  _,
  sends (record { event = e; env = env; done = false }) e refl (refl, λ k h. sym (calm k) ∙ h),
)
queued-CanMove env calm s (finished ∷ ws) (w, all) some_worker queued covered = absurd w
queued-CanMove env calm s (waiting ∷ ws) all some_worker queued covered =
    elim (Bool-cases (ltb 0 s.ob.sem)) [
      | inl there ↦
          let (o, e) = receive_token-some s.ob (ltb→lt 0 s.ob.sem there) in
          ([], waiting, ws, refl, _, _, receives o e)
      | inr none_there ↦
          let (ps, qs, e) = holder (waiting ∷ ws) (ground (arith, queued, covered)) in
          (ps, holding, qs, e, _, _, wakes)
    ]
