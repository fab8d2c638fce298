-- ===== src/Outbox/Inv.antt =====
-- The representation invariant of the outbox, and that every critical section keeps it.
use edge_telemetry_daemon.Shared.{
  ℕ, ◌+◌, ◌-◌, ◌%◌, ◌^◌, ◌≤◌, ◌<◌, ◌≡◌, Bool, arith, length, length-set, length-replicate, some,
  if_ind, ltb→lt, ltb, ◌==◌, ap,
}
use native.Mathlib.Nat.{mod-add-mod}
use edge_telemetry_daemon.Shared.Int.{IsInt}
use edge_telemetry_daemon.Shared.Window.{next-eq}
use edge_telemetry_daemon.Outbox.{
  Outbox, Event, zero_event, Config, DropPolicy, drop_newest, drop_oldest, new_outbox, push_full,
  push, push_open, pop_enter, wake_closed, receive_token, wake_token, close, default_capacity,
  store, evict, take_head, drain_token, offer_token, count_drop, push_open,
}

-- Every index is inside the slice, the tail stands `count` steps behind the head, and the
-- semaphore holds at most its capacity.
pub record IsValid (o : Outbox) : Type 0 where
  pub storage : length o.items ≡ o.capacity
  pub small : o.capacity < 2 ^ 63
  pub head_in : o.head < o.capacity
  pub tail_at : o.tail ≡ (o.head + o.count) % o.capacity
  pub count_in : o.count ≤ o.capacity
  pub sem_in : o.sem ≤ o.capacity
  pub closed_together : o.closed_ch ≡ o.closed

abbrev KeepsValid : {A : Type 0} → Outbox × A → Type 0
KeepsValid r = IsValid r.0

-- One step of the head takes one from the distance to the tail.
head_step : (h c m : ℕ) → 0 < c → ((h + 1) % m + (c - 1)) % m ≡ (h + c) % m
head_step h c m p = rw mod-add-mod (ap (λ k. k % m) (omega arith))

-- One step of the tail adds one to it.
tail_step : (h c m : ℕ) → ((h + c) % m + 1) % m ≡ (h + (c + 1)) % m
tail_step h c m = rw mod-add-mod (ap (λ k. k % m) (omega arith))

pub new_outbox-IsValid : (cfg : Config) → IsInt cfg.capacity → IsValid (new_outbox cfg)
unfolding new_outbox
new_outbox-IsValid cfg h =
    ground (arith, length-replicate (default_capacity cfg.capacity) zero_event)

module _ {o : Outbox} (v : IsValid o) where
  pub store-IsValid : (e : Event) → o.count < o.capacity → IsValid (store o e)
  store-IsValid e p = ground (
    arith,
    length-set o.items o.tail e,
    next-eq o.capacity o.tail,
    tail_step o.head o.count o.capacity,
    v,
  )

  pub take_head-IsValid : 0 < o.count → IsValid (take_head o)
  take_head-IsValid p = ground (
    arith,
    length-set o.items o.head zero_event,
    next-eq o.capacity o.head,
    head_step o.head o.count o.capacity,
    v,
  )

  pub evict-IsValid : 0 < o.count → IsValid (evict o)
  evict-IsValid p = ground (arith, take_head-IsValid p)

  pub count_drop-IsValid : IsValid (count_drop o)
  count_drop-IsValid = ground arith

  pub drain_token-IsValid : IsValid (drain_token o)
  drain_token-IsValid = ground arith

  offer_token-IsValid : IsValid (offer_token o)
  offer_token-IsValid = ground arith

push_full-IsValid :
    (p : DropPolicy) {o : Outbox} (e : Event)
    → IsValid o
    → o.count ≡ o.capacity
    → IsValid (push_full p o e).0
unfolding push_full
push_full-IsValid drop_newest e v full = count_drop-IsValid v
push_full-IsValid drop_oldest e v full =
    store-IsValid (evict-IsValid (count_drop-IsValid v) (omega arith)) e (omega arith)

push_open-IsValid : {o : Outbox} (e : Event) → IsValid o → IsValid (push_open o e).0
unfolding push_open
push_open-IsValid {o} e v =
    let stored = store-IsValid v e in
    if_ind KeepsValid (o.count == o.capacity)
      (λ full. push_full-IsValid o.policy e v (ground arith))
      λ room.
        if_ind KeepsValid (ltb o.count o.capacity)
          (λ needs. offer_token-IsValid (stored (ground arith))) λ idle. stored (ground arith)

-- Every critical section of `Push`, `Pop` and `Close` keeps the invariant, and so does a receive
-- from the semaphore.
pub push-IsValid : {o : Outbox} (e : Event) → IsValid o → IsValid (push o e).0
unfolding push
push-IsValid {o} e v = if_ind KeepsValid o.closed (λ _. v) (λ _. push_open-IsValid e v)

pub pop_enter-IsValid : {o : Outbox} (done : Bool) → IsValid o → IsValid (pop_enter done o).0
unfolding pop_enter
pop_enter-IsValid {o} done v =
    if_ind KeepsValid done (λ _. v)
      λ _.
        if_ind KeepsValid (ltb 0 o.count)
          (λ left. drain_token-IsValid (take_head-IsValid v (ltb→lt 0 o.count left)))
          λ _. if_ind KeepsValid o.closed (λ _. v) (λ _. v)

pub wake_closed-IsValid : {o : Outbox} → IsValid o → IsValid (wake_closed o).0
unfolding wake_closed
wake_closed-IsValid {o} v =
    if_ind KeepsValid (ltb 0 o.count)
      (λ left. drain_token-IsValid (take_head-IsValid v (ltb→lt 0 o.count left))) λ _. v

pub wake_token-IsValid : {o : Outbox} → IsValid o → IsValid (wake_token o).0
unfolding wake_token
wake_token-IsValid {o} v =
    if_ind KeepsValid (ltb 0 o.count) (λ left. take_head-IsValid v (ltb→lt 0 o.count left))
      λ _. if_ind KeepsValid o.closed (λ _. v) (λ _. v)

pub receive_token-IsValid : {o o' : Outbox} → IsValid o → receive_token o ≡ some o' → IsValid o'
unfolding receive_token
receive_token-IsValid v e = ground arith

pub close-IsValid : {o : Outbox} → IsValid o → IsValid (close o)
unfolding close
close-IsValid v = ground arith
