-- ===== src/Outbox/Refine.antt =====
-- Through `contents` every critical section of the outbox is an operation of the bounded queue.
use edge_telemetry_daemon.Shared.{
  suc, ◌+◌, ◌-◌, ◌∙◌, ◌%◌, ◌<◌, ◌≡◌, sym, refl, ap, Bool, true, false, if_ind, arith, List, [], ◌∷◌,
  ◌++◌, length, none, ltb, ◌==◌, ltb→lt, Option,
}
use edge_telemetry_daemon.Shared.Window.{
  window, length-window, window_of_pos, window-set, window-set_head, next-eq,
}
use edge_telemetry_daemon.Outbox.{
  Outbox, Event, zero_event, drop_newest, drop_oldest, DropPolicy, push_full, push_open, push,
  Outcome, event, failed, waits, queue_closed, pop_enter, wake_closed, wake_token, store, evict,
  take_head, drain_token, offer_token, count_drop, head_event, Error,
}
use edge_telemetry_daemon.Outbox.Fifo
use edge_telemetry_daemon.Outbox.Fifo.{Fifo}
use edge_telemetry_daemon.Outbox.Inv.{IsValid, evict-IsValid, count_drop-IsValid}

abbrev pub contents : Outbox → List Event
contents o = window zero_event o.items o.capacity o.head o.count

abbrev pub view : Outbox → Fifo
view o = record { events = contents o; limit = o.capacity; policy = o.policy; closed = o.closed }

pub length-contents : (o : Outbox) → length (contents o) ≡ o.count
length-contents o = length-window zero_event o.items o.capacity o.head o.count

module _ {o : Outbox} (v : IsValid o) where
  pub contents-store :
      (e : Event) → o.count < o.capacity → contents (store o e) ≡ contents o ++ (e ∷ [])
  contents-store e p =
      let counted : (store o e).count ≡ suc o.count = omega arith in
      rw counted (
        window-set zero_event o.items o.capacity e o.count o.head o.tail (omega arith) v.head_in p
          v.tail_at)

  -- What `Pop` returns and what it leaves are the head and the rest of the contents.
  pub contents_of_pos : 0 < o.count → contents o ≡ head_event o ∷ contents (take_head o)
  contents_of_pos p =
      window_of_pos zero_event o.items o.capacity o.head o.count p
      ∙ ap (λ es. head_event o ∷ es) (sym cleared)
    where
      cleared :
          contents (take_head o)
          ≡ window zero_event o.items o.capacity ((o.head + 1) % o.capacity) (o.count - 1)
      cleared = rw (next-eq o.capacity o.head v.head_in v.small) (
          window-set_head zero_event o.items o.capacity zero_event o.head (o.count - 1) v.head_in
            (omega arith))

  pub contents-evict : 0 < o.count → contents (evict o) ≡ Fifo.tail (contents o)
  contents-evict p = ap Fifo.tail (sym (contents_of_pos p))

contents-offer_token : (o : Outbox) → contents (offer_token o) ≡ contents o
contents-offer_token o =
    if_ind (λ r. contents r ≡ contents o) (ltb o.sem o.capacity) (λ _. refl) (λ _. refl)

contents-drain_token : (o : Outbox) → contents (drain_token o) ≡ contents o
contents-drain_token o = if_ind (λ r. contents r ≡ contents o) (ltb 0 o.sem) (λ _. refl) (λ _. refl)

contents_of_zero : (o : Outbox) → o.count ≡ 0 → contents o ≡ []
contents_of_zero o e = rw e

-- The result of a critical section of `Pop` against the abstract pop.
abbrev Pops : List Event → Bool → Outbox × Outcome → Type 0
Pops es closed (o, out) = (contents o, out) ≡ Fifo.pop closed es

push_full_refines :
    (p : DropPolicy) {o : Outbox} (e : Event)
    → IsValid o
    → o.count ≡ o.capacity
    → let (o', err) = push_full p o e in (contents o', err) ≡ Fifo.push_full p (contents o) e
unfolding push_full
push_full_refines drop_newest e v full = refl
push_full_refines drop_oldest {o} e v full =
    let counted : IsValid (count_drop o) = count_drop-IsValid v in
    let gone : IsValid (evict (count_drop o)) = evict-IsValid counted (omega arith) in
    ap (λ es. (es, none))
      (contents-store gone e (omega arith)
        ∙ ap (λ es. es ++ (e ∷ [])) (contents-evict counted (omega arith)))

push_open_refines :
    {o : Outbox} (e : Event)
    → IsValid o
    → let (o', err) = push_open o e in (contents o', err) ≡ Fifo.push_open (view o) e
unfolding push_open
push_open_refines {o} e v =
    if_ind Pushes (o.count == o.capacity)
      (λ full.
        let e' : o.count ≡ o.capacity = ground arith in
        push_full_refines o.policy e v e'
        ∙ sym (Fifo.push_open_full (view o) e (length-contents o ∙ e')))
      λ room.
        let p : o.count < o.capacity = ground arith in
        let stored = contents-store v e p in
        let same = sym (Fifo.push_open_room (view o) e (omega (arith, length-contents o))) in
        if_ind Pushes (ltb o.count o.capacity)
          (λ _. ap (λ es. (es, none)) (contents-offer_token (store o e) ∙ stored) ∙ same)
          (λ _. ap (λ es. (es, none)) stored ∙ same)
  where
    Pushes : Outbox × Option Error → Type 0
    Pushes r = (contents r.0, r.1) ≡ Fifo.push_open (view o) e

-- `Push` is the push of the bounded queue.
pub push_refines :
    {o : Outbox} (e : Event)
    → IsValid o
    → let (o', err) = push o e in (contents o', err) ≡ Fifo.push (view o) e
unfolding push Fifo.push
push_refines {o} e v = ground (arith, push_open_refines e v)

-- A pop of a queue that holds something, and of one that does not.
Fifo-pop-cons :
    (closed : Bool) (e : Event) {es rest : List Event}
    → es ≡ e ∷ rest
    → Fifo.pop closed es ≡ (rest, event e)
unfolding Fifo.pop
Fifo-pop-cons closed e h = rw h

-- The sections of `Pop` that may take an event: up to the select loop, and the cases of the semaphore
-- and of the close channel, which is closed with the outbox.
pub data PopSection (o : Outbox) : Type 0 where
  entered woken : PopSection o
  closing : o.closed ≡ true → PopSection o

pub pop_section : {o : Outbox} → PopSection o → Outbox × Outcome
pop_section {o} entered = pop_enter false o
pop_section {o} woken = wake_token o
pop_section {o} (closing e) = wake_closed o

module _ {o : Outbox} (v : IsValid o) where
  taken : ltb 0 o.count ≡ true → Pops (contents o) o.closed (take_head o, event (head_event o))
  taken left =
      sym (Fifo-pop-cons o.closed (head_event o) (contents_of_pos v (ltb→lt 0 o.count left)))

  drained :
      ltb 0 o.count ≡ true
      → Pops (contents o) o.closed (drain_token (take_head o), event (head_event o))
  drained left =
      ap (λ es. (es, event (head_event o))) (contents-drain_token (take_head o)) ∙ taken left

  emptied : ltb 0 o.count ≡ false → contents o ≡ []
  emptied gone = contents_of_zero o (ground arith)

  ended :
      ltb 0 o.count ≡ false → o.closed ≡ true → Pops (contents o) o.closed (o, failed queue_closed)
  unfolding Fifo.pop
  ended gone shut = rw (emptied gone, shut)

  idle : ltb 0 o.count ≡ false → o.closed ≡ false → Pops (contents o) o.closed (o, waits)
  unfolding Fifo.pop
  idle gone live = rw (emptied gone, live)

  -- `Pop` up to its select loop is the pop of the queue, unless its context is done.
  pop_enter_refines :
      let (o', out) = pop_enter false o in (contents o', out) ≡ Fifo.pop o.closed (contents o)
  unfolding pop_enter
  pop_enter_refines =
      if_ind (Pops (contents o) o.closed) (ltb 0 o.count) drained
        λ gone. if_ind (Pops (contents o) o.closed) o.closed (ended gone) (idle gone)

  -- So is the body of `case <-o.sem:`.
  wake_token_refines :
      let (o', out) = wake_token o in (contents o', out) ≡ Fifo.pop o.closed (contents o)
  unfolding wake_token
  wake_token_refines =
      if_ind (Pops (contents o) o.closed) (ltb 0 o.count) taken
        λ gone. if_ind (Pops (contents o) o.closed) o.closed (ended gone) (idle gone)

  -- So is the body of `case <-o.closedCh:`, which runs on a closed outbox.
  wake_closed_refines :
      o.closed ≡ true
      → let (o', out) = wake_closed o in (contents o', out) ≡ Fifo.pop o.closed (contents o)
  unfolding wake_closed
  wake_closed_refines shut =
      if_ind (Pops (contents o) o.closed) (ltb 0 o.count) drained λ gone. ended gone shut

  -- On a well-formed outbox, each critical section of `Pop` under a live context is the pop of the
  -- queue: the oldest event and the rest, else the closed error or waiting.
  pub pop_refines :
      (s : PopSection o)
      → let (o', out) = pop_section s in (contents o', out) ≡ Fifo.pop o.closed (contents o)
  unfolding pop_section
  pop_refines entered = pop_enter_refines
  pop_refines woken = wake_token_refines
  pop_refines (closing e) = wake_closed_refines e
