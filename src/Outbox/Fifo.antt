-- ===== src/Outbox/Fifo.antt =====
-- What the outbox promises: a first-in first-out queue of at most `capacity` events, oldest first,
-- that a policy keeps from growing further and that can be closed.
use edge_telemetry_daemon.Shared.{
  ℕ, Bool, true, false, Option, none, some, List, [], ◌∷◌, ◌++◌, if◌then◌else◌, ltb, length, if_ind,
  refl, arith, ◌≡◌, ◌<◌, ltb→lt,
}
use edge_telemetry_daemon.Outbox.{
  Event, DropPolicy, drop_newest, drop_oldest, Error, queue_full, queue_closed, Outcome, event,
  failed, waits,
}

pub record Fifo : Type 0 where
  pub events : List Event
  pub limit : ℕ
  pub policy : DropPolicy
  pub closed : Bool

abbrev pub tail : List Event → List Event
tail [] = []
tail (e ∷ es) = es

abbrev pub push_full : DropPolicy → List Event → Event → List Event × Option Error
push_full drop_newest es e = (es, some queue_full)
push_full drop_oldest es e = (tail es ++ (e ∷ []), none)

pub push_open : Fifo → Event → List Event × Option Error
push_open q e =
    if ltb (length q.events) q.limit
    then (q.events ++ (e ∷ []), none)
    else push_full q.policy q.events e

unfoldable pub push : Fifo → Event → List Event × Option Error
unfolding push_open
push q e = if q.closed then (q.events, some queue_closed) else push_open q e

-- What a pop sees: the oldest event, else the end of a closed queue, else it waits.
unfoldable pub pop : Bool → List Event → List Event × Outcome
pop closed (e ∷ es) = (es, event e)
pop true [] = ([], failed queue_closed)
pop false [] = ([], waits)

pub push_open_full :
    (q : Fifo) (e : Event)
    → length q.events ≡ q.limit
    → push_open q e ≡ push_full q.policy q.events e
unfolding push_open
push_open_full q e h = rw h (
    if_ind (λ r. r ≡ push_full q.policy q.events e) (ltb q.limit q.limit)
      (λ t. absurd (omega (arith, ltb→lt q.limit q.limit t))) (λ _. refl))

pub push_open_room :
    (q : Fifo) (e : Event)
    → length q.events < q.limit
    → push_open q e ≡ (q.events ++ (e ∷ []), none)
unfolding push_open
push_open_room q e h =
    if_ind (λ r. r ≡ (q.events ++ (e ∷ []), none)) (ltb (length q.events) q.limit) (λ _. refl)
      (λ t. absurd (ground arith))
