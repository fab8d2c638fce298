-- ===== src/Transport/Pool/Taken.antt =====
-- The events that Pop returned, by the log and by the workers' hands.

use edge_telemetry_daemon.Shared.{
  ℕ, ◌+◌, ◌≡◌, refl, sym, ap, ◌∙◌, Option, none, some, List, [], ◌∷◌, ◌++◌, length, if_ind, ◌==◌,
  append-nil, if_ind,
}
use edge_telemetry_daemon.Outbox.{
  Event, Outcome, Error, queue_full, queue_closed, context_done, event, failed, waits,
}
use edge_telemetry_daemon.Outbox.Account.{
  Log, Departure, oldest, note_push, delivered, evicted, note_pop,
}
use edge_telemetry_daemon.Transport.Pool.{
  Worker, popping, waiting, holding, finished, sending, after_pop,
}
use edge_telemetry_daemon.Transport.Pool.Fate.{total, total-append}

-- The events that Pop returned.
unfoldable pub delivered_of : List Departure → List Event
delivered_of [] = []
delivered_of (delivered e ∷ ds) = e ∷ delivered_of ds
delivered_of (evicted e ∷ ds) = delivered_of ds

delivered_of-append :
    (ds es : List Departure) → delivered_of (ds ++ es) ≡ delivered_of ds ++ delivered_of es
unfolding delivered_of
delivered_of-append [] es = refl
delivered_of-append (delivered e ∷ ds) es = ap (λ l. e ∷ l) (delivered_of-append ds es)
delivered_of-append (evicted e ∷ ds) es = delivered_of-append ds es

oldest-delivered :
    (es : List Event) (l : Log) → delivered_of (oldest es l).departed ≡ delivered_of l.departed
unfolding delivered_of
oldest-delivered [] l = refl
oldest-delivered (e ∷ es) l =
    delivered_of-append l.departed (evicted e ∷ []) ∙ append-nil (delivered_of l.departed)

-- A push delivers nothing.
pub note_push-delivered :
    (before : List Event) (limit : ℕ) (e : Event) (err : Option Error) (l : Log)
    → delivered_of (note_push before limit e err l).departed ≡ delivered_of l.departed
unfolding note_push
note_push-delivered before limit e none l =
    if_ind (λ (r : Log). delivered_of r.departed ≡ delivered_of l.departed) (length before == limit)
      (λ _. oldest-delivered before l) (λ _. refl)
note_push-delivered before limit e (some queue_full) l = refl
note_push-delivered before limit e (some queue_closed) l = refl
note_push-delivered before limit e (some context_done) l = refl

-- The event that a worker has in hand, and its token.
unfoldable pub in_hand : Worker → List Event
in_hand (sending e) = e ∷ []
in_hand popping = []
in_hand waiting = []
in_hand holding = []
in_hand finished = []

unfoldable pub token_of : Worker → ℕ
token_of holding = 1
token_of (sending e) = 0
token_of popping = 0
token_of waiting = 0
token_of finished = 0

-- What a section of Pop delivers is in the worker's hand.
note_pop-delivered :
    (out : Outcome) (l : Log)
    → delivered_of (note_pop out l).departed ≡ delivered_of l.departed ++ in_hand (after_pop out)
unfolding note_pop delivered_of in_hand after_pop
note_pop-delivered (event e) l = delivered_of-append l.departed (delivered e ∷ [])
note_pop-delivered (failed err) l = sym (append-nil (delivered_of l.departed))
note_pop-delivered waits l = sym (append-nil (delivered_of l.departed))

pub note_pop-total :
    (w : Event → ℕ) (out : Outcome) (l : Log)
    → total w (delivered_of (note_pop out l).departed)
      ≡ total w (delivered_of l.departed) + total w (in_hand (after_pop out))
note_pop-total w out l =
    ap (total w) (note_pop-delivered out l)
    ∙ total-append w (delivered_of l.departed) (in_hand (after_pop out))

pub note_pop-accepted : (out : Outcome) (l : Log) → (note_pop out l).accepted ≡ l.accepted
unfolding note_pop
note_pop-accepted (event e) l = refl
note_pop-accepted (failed err) l = refl
note_pop-accepted waits l = refl

-- After a section of Pop no token is in hand.
pub after_pop-token : (out : Outcome) → token_of (after_pop out) ≡ 0
unfolding token_of after_pop
after_pop-token (event e) = refl
after_pop-token (failed err) = refl
after_pop-token waits = refl
