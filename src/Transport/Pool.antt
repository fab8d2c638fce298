-- ===== src/Transport/Pool.antt =====
-- internal/transport/dispatcher.go: the three workers of Run, each in its loop of Pop and
-- dispatchWithRetry, with the outbox and the metrics that they share. A worker's retries touch nothing
-- that is shared but a counter, so a whole dispatchWithRetry is one step.
pub mod Fate
pub mod Taken
pub mod Account
pub mod Working
pub mod Progress
pub mod Stops
mod Tests
use mathlib.Core.Option
use edge_telemetry_daemon.Shared.{
  ℕ, ◌≡◌, Bool, true, false, Option, none, some, List, [], ◌∷◌, ◌++◌,
}
use edge_telemetry_daemon.Shared.Float.{Float}
use edge_telemetry_daemon.Outbox.{
  Outbox, Event, Outcome, event, failed, waits, pop_enter, wake_closed, receive_token, wake_token,
}
use edge_telemetry_daemon.Outbox.Account.{Log, note_pop}
use edge_telemetry_daemon.Transport.{
  DispatcherConfig, Counters, Job, dispatch_with_retry, settle, work, delivered, cancelled,
  exhausted,
}
use edge_telemetry_daemon.Transport

-- Where a worker stands: before Pop, at its select, there with a token and without the mutex, with an
-- event to dispatch, or returned.
pub data Worker : Type 0 where
  popping waiting holding finished : Worker
  sending : Event → Worker

-- The workers have returned, all of them.
abbrev pub AllFinished : List Worker → Type 0
AllFinished [] = Unit
AllFinished (p ∷ ps) = (p ≡ finished) × AllFinished ps

-- Ghosts: the events that were dispatched, those that failed, and those that a shutdown cut short.
pub record Tally : Type 0 where
  pub sent : List Event
  pub lost : List Event
  pub cut : List Event

-- The outbox, the metrics, and the ghosts, which no step reads.
pub record Resources : Type 0 where
  pub ob : Outbox
  pub counters : Counters
  pub log : Log
  pub tally : Tally

-- The workers that Run starts.
unfoldable pub start_workers : List Worker
start_workers = popping ∷ popping ∷ popping ∷ []

-- Where a section of Pop leaves its worker, and what it leaves behind.
unfoldable pub after_pop : Outcome → Worker
after_pop (event e) = sending e
after_pop (failed err) = finished
after_pop waits = waiting

unfoldable pub popped : Outbox × Outcome → Resources → Resources
popped (o, out) s = record s { ob = o; log = note_pop out s.log }

-- An event's fate, by the outcome of its dispatch and whether the context is done at the end.
pub note_outcome : Bool → Transport.Outcome → Event → Tally → Tally
note_outcome done delivered e t = record t { sent = t.sent ++ (e ∷ []) }
note_outcome true cancelled e t = record t { cut = t.cut ++ (e ∷ []) }
note_outcome false cancelled e t = record t { lost = t.lost ++ (e ∷ []) }
note_outcome true (exhausted err) e t = record t { cut = t.cut ++ (e ∷ []) }
note_outcome false (exhausted err) e t = record t { lost = t.lost ++ (e ∷ []) }

module _ {ℓ} {F : Type ℓ} ⦃f : Float F⦄ (c : DispatcherConfig) where
  pub dispatched : Job F → Resources → Resources
  dispatched job s = record s {
    counters = work c job s.counters;
    tally =
        note_outcome job.done (dispatch_with_retry c job.event job.env s.counters.retries).0
          job.event s.tally;
  }

-- The sleeps of a dispatch are interrupted only by a context that is done.
abbrev pub Obeys {ℓ} : {F : Type ℓ} → Bool → Job F → Type 0
Obeys done job = (job.done ≡ done) × ((k : ℕ) → (job.env k).interrupted ≡ true → done ≡ true)

-- A step of one worker, where the context is done or not.
module _ {ℓ} (F : Type ℓ) ⦃f : Float F⦄ (c : DispatcherConfig) where
  pub data Move (done : Bool) (s : Resources) : Worker → Resources → Worker → Type ℓ where
    enters :
        Move done s popping (popped (pop_enter done s.ob) s) (after_pop (pop_enter done s.ob).1)
    receives :
        (o : Outbox)
        → receive_token s.ob ≡ some o
        → Move done s waiting (record s { ob = o }) holding
    wakes : Move done s holding (popped (wake_token s.ob) s) (after_pop (wake_token s.ob).1)
    wakes_closed :
        s.ob.closed_ch ≡ true
        → Move done s waiting (popped (wake_closed s.ob) s) (after_pop (wake_closed s.ob).1)
    cancels : done ≡ true → Move done s waiting s finished
    sends :
        (job : Job F) (e : Event)
        → job.event ≡ e
        → Obeys done job
        → Move done s (sending e) (dispatched c job s) popping
