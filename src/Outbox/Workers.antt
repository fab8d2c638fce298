-- ===== src/Outbox/Workers.antt =====
-- The outbox between the agent that pushes and the workers that wait in `Pop`, as interleavings of
-- critical sections. A worker inside `Pop` either stands at the select (`waiting`) or has received
-- from the semaphore and not yet taken the mutex (`holding`); workers are alike, so they are
-- counted. The log is a ghost: no step reads it.
use edge_telemetry_daemon.Shared.{
  ℕ, ◌+◌, ◌-◌, ◌≤◌, ◌<◌, ◌≡◌, ◌≢◌, ◌⊎◌, inl, inr, refl, Bool, true, false, arith, some, if_ind,
  Bool-cases, ltb, ◌==◌,
}
use edge_telemetry_daemon.Shared.Int.{IsInt}
use edge_telemetry_daemon.Outbox.{
  Outbox, Event, Config, DropPolicy, drop_newest, drop_oldest, Outcome, event, failed, waits,
  new_outbox, push, push_open, push_full, pop_enter, wake_closed, receive_token, wake_token, close,
  head_event,
}
use edge_telemetry_daemon.Outbox.Inv.{
  IsValid, new_outbox-IsValid, push-IsValid, pop_enter-IsValid, wake_closed-IsValid,
  wake_token-IsValid, receive_token-IsValid, close-IsValid,
}
use edge_telemetry_daemon.Outbox.Refine.{contents}
use edge_telemetry_daemon.Outbox.Account.{
  Log, empty_log, note_push, note_pop, Agrees, push-Agrees, pop_enter-Agrees, wake_closed-Agrees,
  wake_token-Agrees,
}

pub record System : Type 0 where
  pub ob : Outbox
  pub waiting : ℕ
  pub holding : ℕ
  pub log : Log

abbrev pub start : Config → System
start cfg = record { ob = new_outbox cfg; waiting = 0; holding = 0; log = empty_log }

-- A worker whose critical section ends in `waits` goes (back) to the select.
abbrev stays : Outcome → ℕ
stays waits = 1
stays (event _) = 0
stays (failed _) = 0

abbrev pub after_push : System → Event → System
after_push s e =
    let (o, err) = push s.ob e in
    record s { ob = o; log = note_push (contents s.ob) s.ob.capacity e err s.log }

abbrev after_pop : System → Outbox × Outcome → System
after_pop s (o, out) = record s {
  ob = o;
  waiting = s.waiting + stays out;
  log = note_pop out s.log;
}

-- The steps. `cancels` is `case <-ctx.Done()`.
pub data Step (s t : System) : Type 0 where
  pushes : (e : Event) → t ≡ after_push s e → Step s t
  enters : (done : Bool) → t ≡ after_pop s (pop_enter done s.ob) → Step s t
  receives :
      (o : Outbox)
      → 0 < s.waiting
      → receive_token s.ob ≡ some o
      → t ≡ record s { ob = o; waiting = s.waiting - 1; holding = s.holding + 1 }
      → Step s t
  wakes :
      0 < s.holding
      → t ≡ after_pop (record s { holding = s.holding - 1 }) (wake_token s.ob)
      → Step s t
  wakes_closed :
      0 < s.waiting
      → s.ob.closed_ch ≡ true
      → t ≡ after_pop (record s { waiting = s.waiting - 1 }) (wake_closed s.ob)
      → Step s t
  cancels : 0 < s.waiting → t ≡ record s { waiting = s.waiting - 1 } → Step s t
  closes : t ≡ record s { ob = close s.ob } → Step s t

pub data Reach (cfg : Config) : System → Type 0 where
  here : (s : System) → s ≡ start cfg → Reach cfg s
  next : {s t : System} → Reach cfg s → Step s t → Reach cfg t

-- No wake-up is lost: every queued event has a token, in the channel or in a worker's hand.
abbrev pub IsCovered : Outbox → ℕ → Type 0
IsCovered o holding = o.count ≤ o.sem + holding

pub record Inv (s : System) : Type 0 where
  pub valid : IsValid s.ob
  pub covered : IsCovered s.ob s.holding
  pub agrees : Agrees s.ob s.log

abbrev pub Covers : {A : Type 0} → ℕ → Outbox × A → Type 0
Covers h r = IsCovered r.0 h

push_full-IsCovered :
    (p : DropPolicy) (o : Outbox) (e : Event) (h : ℕ)
    → IsValid o
    → o.count ≡ o.capacity
    → IsCovered o h
    → Covers h (push_full p o e)
unfolding push_full
push_full-IsCovered drop_newest o e h v full c = c
push_full-IsCovered drop_oldest o e h v full c = omega (arith, v)

pub push-IsCovered :
    (o : Outbox) (e : Event) (h : ℕ) → IsValid o → IsCovered o h → Covers h (push o e)
unfolding push push_open
push-IsCovered o e h v c =
    if_ind (Covers h) o.closed (λ _. c)
      λ _.
        if_ind (Covers h) (o.count == o.capacity)
          (λ full. push_full-IsCovered o.policy o e h v (ground arith) c)
          λ room.
            if_ind (Covers h) (ltb o.count o.capacity) (λ _. ground (arith, v))
              (λ idle. absurd (ground (arith, v)))

pub pop_enter-IsCovered :
    (o : Outbox) (done : Bool) (h : ℕ) → IsCovered o h → Covers h (pop_enter done o)
unfolding pop_enter
pop_enter-IsCovered o done h c = ground arith

pub wake_closed-IsCovered : (o : Outbox) (h : ℕ) → IsCovered o h → Covers h (wake_closed o)
unfolding wake_closed
wake_closed-IsCovered o h c = ground arith

-- The worker gives its token up whatever it finds.
pub wake_token-IsCovered :
    (o : Outbox) (h : ℕ) → 0 < h → IsCovered o h → Covers (h - 1) (wake_token o)
unfolding wake_token
wake_token-IsCovered o h p c = ground arith

pub new_outbox-IsCovered : (cfg : Config) → IsCovered (new_outbox cfg) 0
unfolding new_outbox
new_outbox-IsCovered cfg = omega arith

pub new_outbox-Agrees : (cfg : Config) → Agrees (new_outbox cfg) empty_log
unfolding new_outbox
new_outbox-Agrees cfg = record {
  order = refl;
  enqueued = omega arith;
  dequeued = omega arith;
  dropped = omega arith;
}

pub receive_token-IsCovered :
    (o o' : Outbox) (h : ℕ) → receive_token o ≡ some o' → IsCovered o h → IsCovered o' (h + 1)
unfolding receive_token
receive_token-IsCovered o o' h r c = ground arith

pub receive_token-Agrees :
    {o o' : Outbox} {l : Log} → receive_token o ≡ some o' → Agrees o l → Agrees o' l
unfolding receive_token
receive_token-Agrees {o} {o'} {l} r a = ground (arith, a)

pub close-IsCovered : (o : Outbox) (h : ℕ) → IsCovered o h → IsCovered (close o) h
unfolding close
close-IsCovered o h c = ground arith

pub close-Agrees : {o : Outbox} {l : Log} → Agrees o l → Agrees (close o) l
unfolding close
close-Agrees {o} {l} a = if_ind (λ r. Agrees r l) o.closed (λ _. a) (λ _. ground (arith, a))

start-Inv : (cfg : Config) → IsInt cfg.capacity → Inv (start cfg)
start-Inv cfg h = record {
  valid = new_outbox-IsValid cfg h;
  covered = new_outbox-IsCovered cfg;
  agrees = new_outbox-Agrees cfg;
}

Step-Inv : {s t : System} → Step s t → Inv s → Inv t
Step-Inv {s} (pushes e q) i = rw q (record {
  valid = push-IsValid e i.valid;
  covered = push-IsCovered s.ob e s.holding i.valid i.covered;
  agrees = push-Agrees i.valid i.agrees e;
})
Step-Inv {s} (enters done q) i = rw q (record {
  valid = pop_enter-IsValid done i.valid;
  covered = pop_enter-IsCovered s.ob done s.holding i.covered;
  agrees = pop_enter-Agrees i.valid i.agrees done;
})
Step-Inv {s} (receives o w r q) i = rw q (record {
  valid = receive_token-IsValid i.valid r;
  covered = receive_token-IsCovered s.ob o s.holding r i.covered;
  agrees = receive_token-Agrees r i.agrees;
})
Step-Inv {s} (wakes w q) i = rw q (record {
  valid = wake_token-IsValid i.valid;
  covered = wake_token-IsCovered s.ob s.holding w i.covered;
  agrees = wake_token-Agrees i.valid i.agrees;
})
Step-Inv {s} (wakes_closed w c q) i = rw q (record {
  valid = wake_closed-IsValid i.valid;
  covered = wake_closed-IsCovered s.ob s.holding i.covered;
  agrees = wake_closed-Agrees i.valid i.agrees;
})
Step-Inv {s} (cancels w q) i =
    rw q (record { valid = i.valid; covered = i.covered; agrees = i.agrees })
Step-Inv {s} (closes q) i = rw q (record {
  valid = close-IsValid i.valid;
  covered = close-IsCovered s.ob s.holding i.covered;
  agrees = close-Agrees i.agrees;
})

-- In every state that the program can reach from a new outbox, by any interleaving of pushes, pops,
-- cancellations and a close: the outbox is well formed; the tokens in the semaphore and in workers'
-- hands cover the queued events; events left in the order in which they were accepted, each once,
-- and the rest is the contents; and `Stats` counts, modulo 2 ^ 64, the pushes that returned nil,
-- the pops that returned an event, and the pushes that a full outbox refused together with the evictions.
pub Reach-Inv : {cfg : Config} {s : System} → IsInt cfg.capacity → Reach cfg s → Inv s
Reach-Inv {cfg} h (here s e) = rw e (start-Inv cfg h)
Reach-Inv h (next r st) = Step-Inv st (Reach-Inv h r)

-- If an event is queued while a worker waits, then a token can be received, or a worker that holds
-- one returns an event as soon as it has the mutex.
pub Reach-progress :
    {cfg : Config} {s : System}
    → IsInt cfg.capacity
    → Reach cfg s
    → 0 < s.ob.count
    → ((o : Outbox) × (receive_token s.ob ≡ some o))
      ⊎ ((0 < s.holding) × ((wake_token s.ob).1 ≡ event (head_event s.ob)))
unfolding receive_token wake_token
Reach-progress {s = s} h r p = elim (Bool-cases (ltb 0 s.ob.sem)) [
  | inl ready ↦ inl (record s.ob { sem = s.ob.sem - 1 }, ground arith)
  | inr empty ↦ inr (ground (arith, Reach-Inv h r), ground arith)
]

-- On a closed outbox no pop waits, wherever it stands; the select of a waiting worker is ready.
pub closed-ne-waits :
    {cfg : Config} {s : System}
    → IsInt cfg.capacity
    → Reach cfg s
    → s.ob.closed ≡ true
    → (s.ob.closed_ch ≡ true)
      × ((pop_enter false s.ob).1 ≢ waits)
      × ((wake_token s.ob).1 ≢ waits)
      × ((wake_closed s.ob).1 ≢ waits)
unfolding pop_enter wake_token wake_closed
closed-ne-waits {s = s} h r shut =
    let i = Reach-Inv h r in
    (ground (arith, i.valid), λ e. ground arith, λ e. ground arith, λ e. ground arith)
