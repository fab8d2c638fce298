-- ===== src/Outbox/Account.antt =====
-- A log of what went into the outbox and what left it, and the counters of `Stats` against it.
use edge_telemetry_daemon.Shared.{
  ℕ, suc, ◌+◌, ◌%◌, ◌<◌, ◌≡◌, refl, ◌∙◌, Bool, arith, List, [], ◌∷◌, ◌++◌, map, length, Option,
  none, some, if◌then◌else◌, if_ind, ltb, ◌==◌, ltb→lt, append_assoc, length-append, u64_mod,
}
use mathlib.Core.List.{map-append}
use edge_telemetry_daemon.Outbox.{
  Outbox, Event, DropPolicy, drop_newest, drop_oldest, Error, queue_full, Outcome, event, failed,
  waits, push, push_open, push_full, head_event, pop_enter, wake_closed, wake_token, store, evict,
  take_head, count_drop, offer_token, drain_token,
}
use edge_telemetry_daemon.Outbox.Inv.{IsValid, evict-IsValid, count_drop-IsValid}
use edge_telemetry_daemon.Outbox.Refine.{contents, contents-store, contents_of_pos, length-contents}

-- How an event left: returned by `Pop`, or pushed out by a newer one.
pub data Departure : Type 0 where
  delivered evicted : Event → Departure

abbrev pub event_of : Departure → Event
event_of (delivered e) = e
event_of (evicted e) = e

pub record Log : Type 0 where
  pub accepted : List Event
  pub departed : List Departure
  pub refused : ℕ

abbrev pub empty_log : Log
empty_log = record { accepted = []; departed = []; refused = 0 }

abbrev accept : Event → Log → Log
accept e l = record l { accepted = l.accepted ++ (e ∷ []) }

abbrev leave : Departure → Log → Log
leave d l = record l { departed = l.departed ++ (d ∷ []) }

abbrev pub oldest : List Event → Log → Log
oldest [] l = l
oldest (e ∷ es) l = leave (evicted e) l

-- What the answer of a `Push` says, on an outbox that held `before` with room for `limit`.
unfoldable pub note_push : List Event → ℕ → Event → Option Error → Log → Log
note_push before limit e none l = accept e (if length before == limit then oldest before l else l)
note_push before limit e (some queue_full) l = record l { refused = l.refused + 1 }
note_push before limit e (some _) l = l

unfoldable pub note_pop : Outcome → Log → Log
note_pop (event e) l = leave (delivered e) l
note_pop (failed _) l = l
note_pop waits l = l

abbrev pub deliveries : List Departure → ℕ
deliveries [] = 0
deliveries (delivered e ∷ ds) = suc (deliveries ds)
deliveries (evicted e ∷ ds) = deliveries ds

abbrev pub evictions : List Departure → ℕ
evictions [] = 0
evictions (delivered e ∷ ds) = evictions ds
evictions (evicted e ∷ ds) = suc (evictions ds)

-- Events leave in the order in which they were accepted, each once, and what has not left is the
-- contents; the counters count, modulo 2 ^ 64.
pub record Agrees (o : Outbox) (l : Log) : Type 0 where
  pub order : l.accepted ≡ map event_of l.departed ++ contents o
  pub enqueued : o.enqueued ≡ length l.accepted % u64_mod
  pub dequeued : o.dequeued ≡ deliveries l.departed % u64_mod
  pub dropped : o.dropped ≡ (l.refused + evictions l.departed) % u64_mod

deliveries-append :
    (ds : List Departure) (d : Departure)
    → deliveries (ds ++ (d ∷ [])) ≡ deliveries ds + deliveries (d ∷ [])
deliveries-append [] d = omega arith
deliveries-append (delivered e ∷ ds) d = omega (arith, deliveries-append ds d)
deliveries-append (evicted e ∷ ds) d = omega (arith, deliveries-append ds d)

evictions-append :
    (ds : List Departure) (d : Departure)
    → evictions (ds ++ (d ∷ [])) ≡ evictions ds + evictions (d ∷ [])
evictions-append [] d = omega arith
evictions-append (delivered e ∷ ds) d = omega (arith, evictions-append ds d)
evictions-append (evicted e ∷ ds) d = omega (arith, evictions-append ds d)

-- The head goes from the contents to the departed.
depart :
    (ds : List Departure) (d : Departure) {xs es rest : List Event}
    → xs ≡ map event_of ds ++ es
    → es ≡ event_of d ∷ rest
    → xs ≡ map event_of (ds ++ (d ∷ [])) ++ rest
depart ds d h k = simp (h, k, map-append, append_assoc)

module _ {o : Outbox} {l : Log} (v : IsValid o) (a : Agrees o l) where
  take_head-Agrees : 0 < o.count → Agrees (take_head o) (leave (delivered (head_event o)) l)
  take_head-Agrees p = record {
    order = depart l.departed (delivered (head_event o)) a.order (contents_of_pos v p);
    enqueued = a.enqueued;
    dequeued = omega (arith, a, deliveries-append l.departed (delivered (head_event o)));
    dropped = omega (arith, a, evictions-append l.departed (delivered (head_event o)));
  }

  evict-Agrees : 0 < o.count → Agrees (evict (count_drop o)) (leave (evicted (head_event o)) l)
  evict-Agrees p = record {
    order = depart l.departed (evicted (head_event o)) a.order (contents_of_pos v p);
    enqueued = a.enqueued;
    dequeued = omega (arith, a, deliveries-append l.departed (evicted (head_event o)));
    dropped = omega (arith, a, evictions-append l.departed (evicted (head_event o)));
  }

  store-Agrees : (e : Event) → o.count < o.capacity → Agrees (store o e) (accept e l)
  store-Agrees e p = record {
    order = simp (a.order, contents-store v e p, append_assoc);
    enqueued = omega (arith, a, length-append l.accepted (e ∷ []));
    dequeued = a.dequeued;
    dropped = a.dropped;
  }

  refuse-Agrees : Agrees (count_drop o) (record l { refused = l.refused + 1 })
  refuse-Agrees = record {
    order = a.order;
    enqueued = a.enqueued;
    dequeued = a.dequeued;
    dropped = omega (arith, a);
  }

-- `offer_token` and `drain_token` change the semaphore alone.
offer_token-Agrees : (o : Outbox) {l : Log} → Agrees o l → Agrees (offer_token o) l
offer_token-Agrees o {l} a =
    if_ind (λ r. Agrees r l) (ltb o.sem o.capacity) (λ _. ground (arith, a)) (λ _. a)

drain_token-Agrees : (o : Outbox) {l : Log} → Agrees o l → Agrees (drain_token o) l
drain_token-Agrees o {l} a =
    if_ind (λ r. Agrees r l) (ltb 0 o.sem) (λ _. ground (arith, a)) (λ _. a)

-- The log of a full outbox under each policy, and of one with room.
note_push_oldest :
    (before : List Event) (limit : ℕ) (e x : Event) {rest : List Event} (l : Log)
    → before ≡ x ∷ rest
    → length before ≡ limit
    → note_push before limit e none l ≡ accept e (leave (evicted x) l)
unfolding note_push
note_push_oldest before limit e x l h k =
    if_ind (λ r. accept e r ≡ accept e (leave (evicted x) l)) (length before == limit) (λ _. rw h)
      (λ t. absurd (ground arith))

note_push_room :
    (before : List Event) (limit : ℕ) (e : Event) (l : Log)
    → length before < limit
    → note_push before limit e none l ≡ accept e l
unfolding note_push
note_push_room before limit e l h =
    if_ind (λ r. accept e r ≡ accept e l) (length before == limit) (λ t. absurd (ground arith))
      (λ _. refl)

abbrev PushAgrees : Outbox → Event → Log → Outbox × Option Error → Type 0
PushAgrees o e l (o', err) = Agrees o' (note_push (contents o) o.capacity e err l)

module _ {o : Outbox} {l : Log} (v : IsValid o) (a : Agrees o l) (e : Event) where
  push_full-Agrees : (p : DropPolicy) → o.count ≡ o.capacity → PushAgrees o e l (push_full p o e)
  unfolding push_full
  push_full-Agrees drop_newest full = unfold note_push in refuse-Agrees v a
  push_full-Agrees drop_oldest full =
      let gone = evict-IsValid (count_drop-IsValid v) (omega arith) in
      rw
        (note_push_oldest (contents o) o.capacity e (head_event o) l
          (contents_of_pos v (omega arith)) (length-contents o ∙ full))
        (store-Agrees gone (evict-Agrees v a (omega arith)) e (omega arith))

  push_open-Agrees : PushAgrees o e l (push_open o e)
  unfolding push_open
  push_open-Agrees =
      if_ind (PushAgrees o e l) (o.count == o.capacity)
        (λ full. push_full-Agrees o.policy (ground arith))
        λ room.
          let p : o.count < o.capacity = ground arith in
          let stored = store-Agrees v a e p in
          let same =
            note_push_room (contents o) o.capacity e l (omega (arith, length-contents o)) in
          if_ind (PushAgrees o e l) (ltb o.count o.capacity)
            (λ _. rw same (offer_token-Agrees (store o e) stored)) (λ _. rw same stored)

  -- After a `Push` the outbox agrees with the log that its answer tells.
  pub push-Agrees : PushAgrees o e l (push o e)
  unfolding push
  push-Agrees =
      if_ind (PushAgrees o e l) o.closed (λ _. unfold note_push in a) (λ _. push_open-Agrees)

abbrev PopAgrees : Log → Outbox × Outcome → Type 0
PopAgrees l (o', out) = Agrees o' (note_pop out l)

module _ {o : Outbox} {l : Log} (v : IsValid o) (a : Agrees o l) where
  -- After a critical section of `Pop` the outbox agrees with the log that its result tells.
  pub pop_enter-Agrees : (done : Bool) → PopAgrees l (pop_enter done o)
  unfolding pop_enter note_pop
  pop_enter-Agrees done =
      if_ind (PopAgrees l) done (λ _. a)
        λ _.
          if_ind (PopAgrees l) (ltb 0 o.count)
            (λ left.
              drain_token-Agrees (take_head o) (take_head-Agrees v a (ltb→lt 0 o.count left)))
            λ _. if_ind (PopAgrees l) o.closed (λ _. a) (λ _. a)

  pub wake_closed-Agrees : PopAgrees l (wake_closed o)
  unfolding wake_closed note_pop
  wake_closed-Agrees =
      if_ind (PopAgrees l) (ltb 0 o.count)
        (λ left. drain_token-Agrees (take_head o) (take_head-Agrees v a (ltb→lt 0 o.count left)))
        (λ _. a)

  pub wake_token-Agrees : PopAgrees l (wake_token o)
  unfolding wake_token note_pop
  wake_token-Agrees =
      if_ind (PopAgrees l) (ltb 0 o.count) (λ left. take_head-Agrees v a (ltb→lt 0 o.count left))
        λ _. if_ind (PopAgrees l) o.closed (λ _. a) (λ _. a)
