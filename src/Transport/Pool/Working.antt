-- ===== src/Transport/Pool/Working.antt =====
-- internal/transport/dispatcher.go: a worker returns only when the context is done or the outbox closed.
use edge_telemetry_daemon.Shared.{◌≡◌, false, List, [], ◌∷◌, ◌++◌}
use edge_telemetry_daemon.Shared.Float.{Float}
use edge_telemetry_daemon.Outbox.{Outcome, event, failed, waits, pop_enter, wake_token}
use edge_telemetry_daemon.Outbox.Open.{IsLive, pop_enter-IsLive, wake_token-IsLive}
use edge_telemetry_daemon.Transport.{DispatcherConfig}
use edge_telemetry_daemon.Transport.Pool.{
  Worker, popping, waiting, holding, finished, sending, start_workers, Resources, after_pop, Move,
  enters, receives, wakes, wakes_closed, cancels, sends,
}

-- The worker has not returned.
abbrev pub IsWorking : Worker → Type 0
IsWorking popping = Unit
IsWorking waiting = Unit
IsWorking holding = Unit
IsWorking finished = ⊥
IsWorking (sending e) = Unit

abbrev pub AllWorking : List Worker → Type 0
AllWorking [] = Unit
AllWorking (p ∷ ps) = IsWorking p × AllWorking ps

pub start_workers-AllWorking : AllWorking start_workers
unfolding start_workers
start_workers-AllWorking = (tt, (tt, (tt, tt)))

pub AllWorking-change :
    (ps : List Worker) (p q : Worker) (qs : List Worker)
    → IsWorking q
    → AllWorking (ps ++ (p ∷ qs))
    → AllWorking (ps ++ (q ∷ qs))
AllWorking-change [] p q qs w (_, all) = (w, all)
AllWorking-change (x ∷ ps) p q qs w (v, all) = (v, AllWorking-change ps p q qs w all)

after_pop-IsWorking : (out : Outcome) → IsLive out → IsWorking (after_pop out)
unfolding after_pop
after_pop-IsWorking (event e) live = tt
after_pop-IsWorking (failed err) live = absurd live
after_pop-IsWorking waits live = tt

pub Move-IsWorking {ℓ} :
    {F : Type ℓ} ⦃f : Float F⦄ {c : DispatcherConfig} {s t : Resources} {p q : Worker}
    → Move F c false s p t q
    → s.ob.closed ≡ false
    → s.ob.closed_ch ≡ s.ob.closed
    → IsWorking q
Move-IsWorking {s} enters opened together =
    after_pop-IsWorking (pop_enter false s.ob).1 (pop_enter-IsLive s.ob opened)
Move-IsWorking (receives o e) opened together = tt
Move-IsWorking {s} wakes opened together =
    after_pop-IsWorking (wake_token s.ob).1 (wake_token-IsLive s.ob opened)
Move-IsWorking (wakes_closed e) opened together = absurd cc
Move-IsWorking (cancels e) opened together = absurd cc
Move-IsWorking (sends job e same obeys) opened together = tt
