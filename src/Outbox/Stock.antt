-- ===== src/Outbox/Stock.antt =====
-- What the sections of Pop take from the outbox when nothing is pushed: its tokens and its events.
use edge_telemetry_daemon.Shared.{ℕ, ◌+◌, ◌-◌, ◌*◌, ◌<◌, ◌≡◌, refl, true, some, arith, if_ind, ltb}
use edge_telemetry_daemon.Outbox.{
  Outbox, Outcome, event, failed, waits, pop_enter, wake_closed, receive_token, wake_token, close,
  context_done,
}

abbrev pub stock : Outbox → ℕ
stock o = 3 * o.sem + 2 * o.count

-- What the answer of a section leaves its worker to do.
abbrev pub burden : Outcome → ℕ
burden (event e) = 2
burden (failed err) = 0
burden waits = 1

abbrev Spends : ℕ → Outbox × Outcome → Type 0
Spends n (o, out) = stock o + burden out < n

pub wake_token-Spends : (o : Outbox) → Spends (stock o + 3) (wake_token o)
unfolding wake_token
wake_token-Spends o =
    if_ind (Spends (stock o + 3)) (ltb 0 o.count) (λ left. ground arith)
      λ _. if_ind (Spends (stock o + 3)) o.closed (λ _. omega arith) (λ _. omega arith)

pub wake_closed-Spends : (o : Outbox) → Spends (stock o + 1) (wake_closed o)
unfolding wake_closed
wake_closed-Spends o =
    if_ind (Spends (stock o + 1)) (ltb 0 o.count) (λ left. ground arith) (λ _. omega arith)

-- Under a context that is done, Pop returns at once.
pub pop_enter-done : (o : Outbox) → pop_enter true o ≡ (o, failed context_done)
unfolding pop_enter
pop_enter-done o = refl

pub receive_token-stock : (o r : Outbox) → receive_token o ≡ some r → stock r + 3 ≡ stock o
unfolding receive_token
receive_token-stock o r e = ground (arith, e)

pub close-stock : (o : Outbox) → stock (close o) ≡ stock o
unfolding close
close-stock o = ground arith

-- A token in the semaphore can be received.
pub receive_token-some : (o : Outbox) → 0 < o.sem → (r : Outbox) × (receive_token o ≡ some r)
unfolding receive_token
receive_token-some o p = (record o { sem = o.sem - 1 }, ground (arith, p))
