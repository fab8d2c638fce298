-- ===== src/Transport/Pool/Account.antt =====
-- What becomes of the events that the workers take, and what the counters say of it.

use mathlib.Core.Path.{subst}
use edge_telemetry_daemon.Shared.{ℕ, ◌+◌, ◌≡◌, refl, sym, ap, Bool, List, [], ◌∷◌, ◌++◌, arith}
use edge_telemetry_daemon.Shared.Float.{Float}
use edge_telemetry_daemon.Outbox.{Event, pop_enter, wake_closed, wake_token}
use edge_telemetry_daemon.Outbox.Inv.{
  IsValid, pop_enter-IsValid, wake_closed-IsValid, wake_token-IsValid, receive_token-IsValid,
}
use edge_telemetry_daemon.Outbox.Account.{
  Agrees, pop_enter-Agrees, wake_closed-Agrees, wake_token-Agrees,
}
use edge_telemetry_daemon.Outbox.Open.{
  IsLike, pop_enter-IsLike, wake_closed-IsLike, wake_token-IsLike, receive_token-IsLike,
}
use edge_telemetry_daemon.Outbox.Workers.{
  IsCovered, pop_enter-IsCovered, wake_closed-IsCovered, wake_token-IsCovered,
  receive_token-IsCovered, receive_token-Agrees,
}
use edge_telemetry_daemon.Transport.{DispatcherConfig, Counters, dispatch_with_retry, settle, work}
use edge_telemetry_daemon.Transport.Pool.{
  AllFinished, Worker, Resources, popped, note_outcome, dispatched, Move, enters, receives, wakes,
  wakes_closed, cancels, sends,
}
use edge_telemetry_daemon.Transport.Pool.Fate.{
  total, total-append, settled, Shows, note_outcome-settled, settle-Shows,
}
use edge_telemetry_daemon.Transport.Pool.Taken.{
  delivered_of, in_hand, token_of, note_pop-total, note_pop-accepted, after_pop-token,
}

module _ {ℓ} {F : Type ℓ} ⦃f : Float F⦄ {c : DispatcherConfig} where
  Move-IsValid :
      {done : Bool} {s t : Resources} {p q : Worker}
      → Move F c done s p t q
      → IsValid s.ob
      → IsValid t.ob
  unfolding popped dispatched
  Move-IsValid {done} enters v = pop_enter-IsValid done v
  Move-IsValid (receives o e) v = receive_token-IsValid v e
  Move-IsValid wakes v = wake_token-IsValid v
  Move-IsValid (wakes_closed e) v = wake_closed-IsValid v
  Move-IsValid (cancels e) v = v
  Move-IsValid (sends job e same obeys) v = v

  Move-Agrees :
      {done : Bool} {s t : Resources} {p q : Worker}
      → Move F c done s p t q
      → IsValid s.ob
      → Agrees s.ob s.log
      → Agrees t.ob t.log
  unfolding popped dispatched
  Move-Agrees {done} enters v a = pop_enter-Agrees v a done
  Move-Agrees (receives o e) v a = receive_token-Agrees e a
  Move-Agrees wakes v a = wake_token-Agrees v a
  Move-Agrees (wakes_closed e) v a = wake_closed-Agrees v a
  Move-Agrees (cancels e) v a = a
  Move-Agrees (sends job e same obeys) v a = a

  -- Beside workers that hold `h` tokens.
  Move-IsCovered :
      {done : Bool} {s t : Resources} {p q : Worker} (h : ℕ)
      → Move F c done s p t q
      → IsCovered s.ob (token_of p + h)
      → IsCovered t.ob (token_of q + h)
  unfolding popped dispatched token_of
  Move-IsCovered {done} {s} h enters v = omega (
    arith,
    pop_enter-IsCovered s.ob done h (omega (arith, v)),
    after_pop-token (pop_enter done s.ob).1,
  )
  Move-IsCovered {s = s} h (receives o e) v =
      omega (arith, receive_token-IsCovered s.ob o h e (omega (arith, v)))
  Move-IsCovered {s = s} h wakes v = omega (
    arith,
    wake_token-IsCovered s.ob (1 + h) (omega arith) v,
    after_pop-token (wake_token s.ob).1,
  )
  Move-IsCovered {s = s} h (wakes_closed e) v =
      omega (
        arith,
        wake_closed-IsCovered s.ob h (omega (arith, v)),
        after_pop-token (wake_closed s.ob).1,
      )
  Move-IsCovered h (cancels e) v = v
  Move-IsCovered h (sends job e same obeys) v = v

  -- An event that Pop returned is in a hand or settled.
  Move-total :
      {done : Bool} {s t : Resources} {p q : Worker} (w : Event → ℕ)
      → Move F c done s p t q
      → total w (delivered_of t.log.departed) + settled w s.tally + total w (in_hand p)
        ≡ total w (delivered_of s.log.departed) + settled w t.tally + total w (in_hand q)
  unfolding popped dispatched in_hand total
  Move-total {done} {s} w enters = omega (arith, note_pop-total w (pop_enter done s.ob).1 s.log)
  Move-total w (receives o e) = omega arith
  Move-total {s = s} w wakes = omega (arith, note_pop-total w (wake_token s.ob).1 s.log)
  Move-total {s = s} w (wakes_closed e) = omega (arith, note_pop-total w (wake_closed s.ob).1 s.log)
  Move-total w (cancels e) = omega arith
  Move-total {s = s} w (sends job e same obeys) = omega (
    arith,
    ap w same,
    note_outcome-settled job.done (dispatch_with_retry c job.event job.env s.counters.retries).0
        job.event s.tally w,
  )

  Move-Shows :
      {done : Bool} {s t : Resources} {p q : Worker}
      → Move F c done s p t q
      → Shows done s.counters s.tally
      → Shows done t.counters t.tally
  unfolding popped dispatched work
  Move-Shows enters h = h
  Move-Shows (receives o e) h = h
  Move-Shows wakes h = h
  Move-Shows (wakes_closed e) h = h
  Move-Shows (cancels e) h = h
  Move-Shows {done} {s} (sends job e same (now, obeys)) h =
      let (out, w) = dispatch_with_retry c job.event job.env s.counters.retries in
      let m : Counters = record (s.counters) { retries = w.retries } in
      subst (λ b. Shows done (settle b out m) (note_outcome b out job.event s.tally)) (sym now)
        (settle-Shows done out job.event m s.tally
          (record { sent = h.sent; lost = h.lost; uncut = h.uncut }))

-- What the workers have in hand.
unfoldable pub hands : List Worker → List Event
hands [] = []
hands (p ∷ ps) = in_hand p ++ hands ps

unfoldable pub tokens : List Worker → ℕ
tokens [] = 0
tokens (p ∷ ps) = token_of p + tokens ps

total-hands :
    (w : Event → ℕ) (ps : List Worker) (p : Worker) (qs : List Worker)
    → total w (hands (ps ++ (p ∷ qs))) ≡ total w (in_hand p) + total w (hands (ps ++ qs))
unfolding hands
total-hands w [] p qs = total-append w (in_hand p) (hands qs)
total-hands w (q ∷ ps) p qs = omega (
  arith,
  total-hands w ps p qs,
  total-append w (in_hand q) (hands (ps ++ (p ∷ qs))),
  total-append w (in_hand q) (hands (ps ++ qs)),
)

tokens-append :
    (ps : List Worker) (p : Worker) (qs : List Worker)
    → tokens (ps ++ (p ∷ qs)) ≡ token_of p + tokens (ps ++ qs)
unfolding tokens
tokens-append [] p qs = refl
tokens-append (q ∷ ps) p qs = omega (arith, tokens-append ps p qs)

-- The outbox is well formed and agrees with the log, tokens cover the queued events, every event that
-- Pop returned is in a worker's hand or its fate is known, once, and the counters show the fates.
pub record Accounted (done : Bool) (s : Resources) (ps : List Worker) : Type 0 where
  pub valid : IsValid s.ob
  pub agrees : Agrees s.ob s.log
  pub covered : IsCovered s.ob (tokens ps)
  pub balance :
      (w : Event → ℕ)
      → total w (delivered_of s.log.departed) ≡ settled w s.tally + total w (hands ps)
  pub shows : Shows done s.counters s.tally

-- A step of one worker among the others.
pub Move-Accounted {ℓ} :
    {F : Type ℓ} ⦃f : Float F⦄ {c : DispatcherConfig} {done : Bool} {s t : Resources} {p q : Worker}
    (ps qs : List Worker)
    → Move F c done s p t q
    → Accounted done s (ps ++ (p ∷ qs))
    → Accounted done t (ps ++ (q ∷ qs))
Move-Accounted {s = s} {t = t} {p = p} {q = q} ps qs mv a = record {
  valid = Move-IsValid mv a.valid;
  agrees = Move-Agrees mv a.valid a.agrees;
  covered =
      rw (tokens-append ps q qs)
        (Move-IsCovered (tokens (ps ++ qs)) mv (rw (tokens-append ps p qs) at a.covered));
  balance = λ w.
      omega (arith, a.balance w, Move-total w mv, total-hands w ps p qs, total-hands w ps q qs);
  shows = Move-Shows mv a.shows;
}

-- A step of a worker leaves the outbox open or closed, and its policy.
pub Move-IsLike {ℓ} :
    {F : Type ℓ} ⦃f : Float F⦄ {c : DispatcherConfig} {done : Bool} {s t : Resources} {p q : Worker}
    → Move F c done s p t q
    → IsLike s.ob t.ob
unfolding popped dispatched
Move-IsLike {done} {s} enters = pop_enter-IsLike done s.ob
Move-IsLike {s} (receives o e) = receive_token-IsLike s.ob o e
Move-IsLike {s} wakes = wake_token-IsLike s.ob
Move-IsLike {s} (wakes_closed e) = wake_closed-IsLike s.ob
Move-IsLike (cancels e) = (refl, refl)
Move-IsLike (sends job e same obeys) = (refl, refl)

pub Move-accepted {ℓ} :
    {F : Type ℓ} ⦃f : Float F⦄ {c : DispatcherConfig} {done : Bool} {s t : Resources} {p q : Worker}
    → Move F c done s p t q
    → t.log.accepted ≡ s.log.accepted
unfolding popped dispatched
Move-accepted {done} {s} enters = note_pop-accepted (pop_enter done s.ob).1 s.log
Move-accepted (receives o e) = refl
Move-accepted {s} wakes = note_pop-accepted (wake_token s.ob).1 s.log
Move-accepted {s} (wakes_closed e) = note_pop-accepted (wake_closed s.ob).1 s.log
Move-accepted (cancels e) = refl
Move-accepted (sends job e same obeys) = refl

-- A worker that has returned does not step.
pub AllFinished-Move {ℓ} :
    {F : Type ℓ} ⦃f : Float F⦄ {c : DispatcherConfig} {done : Bool} {s t : Resources} {p q : Worker}
    (ps qs : List Worker)
    → Move F c done s p t q
    → AllFinished (ps ++ (p ∷ qs))
    → ⊥
AllFinished-Move [] qs enters (e, es) = cc
AllFinished-Move [] qs (receives o r) (e, es) = cc
AllFinished-Move [] qs wakes (e, es) = cc
AllFinished-Move [] qs (wakes_closed r) (e, es) = cc
AllFinished-Move [] qs (cancels r) (e, es) = cc
AllFinished-Move [] qs (sends job r same obeys) (e, es) = cc
AllFinished-Move (x ∷ ps) qs mv (e, es) = AllFinished-Move ps qs mv es
