-- ===== src/Outbox.antt =====
-- internal/outbox/queue.go: the bounded queue between the agent and the dispatcher. A method that
-- holds the mutex is one function from the state to the new state. `Pop` takes the mutex several
-- times, so it is several functions: `pop_enter` up to the select loop, and one for each case of it.
pub mod Fifo
pub mod Inv
pub mod Refine
pub mod Account
pub mod Workers
pub mod Stock
pub mod Open
mod Tests
use Prim.Native.String.{String}
use edge_telemetry_daemon.Shared.{
  ℕ, ◌+◌, ◌-◌, ◌*◌, ◌%◌, Bool, true, false, ◌&&◌, Option, none, some, List, if◌then◌else◌, ltb,
  ◌==◌, inc64, add64, replicate, get_or, set,
}
use edge_telemetry_daemon.Shared.Int.{ℤ, pos, negsuc, leb_ℤ, pos_part}
use edge_telemetry_daemon.Shared.Time.{Time, zero_time}
use edge_telemetry_daemon.Shared.Window.{next}

-- `EventType`; a zero `Event` has the empty string.
pub data EventType : Type 0 where
  no_type anomaly_alert heartbeat drift_alert : EventType

pub record Event : Type 0 where
  pub id : List ℕ
  pub type : EventType
  pub timestamp : Time
  pub payload : List ℕ

-- `Event{}`
abbrev pub zero_event : Event
zero_event = record { id = List.[]; type = no_type; timestamp = zero_time; payload = List.[] }

pub data DropPolicy : Type 0 where
  drop_newest drop_oldest : DropPolicy

pub record Config : Type 0 where
  pub capacity : ℤ
  pub drop_policy : DropPolicy

-- `ErrQueueFull`, `ErrQueueClosed` and what `ctx.Err()` returns
pub data Error : Type 0 where
  queue_full queue_closed context_done : Error

-- `sem` is the number of tokens in the channel `sem`, whose capacity is `capacity`; `closed_ch`
-- says that the channel `closedCh` is closed.
pub record Outbox : Type 0 where
  pub items : List Event
  pub head : ℕ
  pub tail : ℕ
  pub count : ℕ
  pub capacity : ℕ
  pub policy : DropPolicy
  pub closed : Bool
  pub closed_ch : Bool
  pub sem : ℕ
  pub enqueued : ℕ
  pub dequeued : ℕ
  pub dropped : ℕ

abbrev default_capacity : ℤ → ℕ
default_capacity c = if leb_ℤ c (pos 0) then 100 else pos_part c

pub new_outbox : Config → Outbox
new_outbox cfg =
    let n = default_capacity cfg.capacity in
    record {
      items = replicate n zero_event;
      head = 0;
      tail = 0;
      count = 0;
      capacity = n;
      policy = cfg.drop_policy;
      closed = false;
      closed_ch = false;
      sem = 0;
      enqueued = 0;
      dequeued = 0;
      dropped = 0;
    }

-- `select { case o.sem <- struct{}{}: default: }`
abbrev pub offer_token : Outbox → Outbox
offer_token o = if ltb o.sem o.capacity then record o { sem = o.sem + 1 } else o

-- `select { case <-o.sem: default: }`
abbrev pub drain_token : Outbox → Outbox
drain_token o = if ltb 0 o.sem then record o { sem = o.sem - 1 } else o

-- `DropOldest: advance head to evict oldest item`; it runs only at `count > 0`.
abbrev pub evict : Outbox → Outbox
evict o = record o {
  items = set o.items o.head zero_event;
  head = next o.capacity o.head;
  count = o.count - 1;
}

-- the write at the tail
abbrev pub store : Outbox → Event → Outbox
store o e = record o {
  items = set o.items o.tail e;
  tail = next o.capacity o.tail;
  count = add64 o.count 1;
  enqueued = inc64 o.enqueued;
}

abbrev pub count_drop : Outbox → Outbox
count_drop o = record o { dropped = inc64 o.dropped }

-- `count == capacity`: the policy decides. No token is offered.
pub push_full : DropPolicy → Outbox → Event → Outbox × Option Error
push_full drop_newest o e = (count_drop o, some queue_full)
push_full drop_oldest o e = (store (evict (count_drop o)) e, none)

-- `needsToken` is tested before the write and used after it.
pub push_open : Outbox → Event → Outbox × Option Error
push_open o e =
    if o.count == o.capacity
    then push_full o.policy o e
    else if ltb o.count o.capacity
    then (offer_token (store o e), none)
    else (store o e, none)

pub push : Outbox → Event → Outbox × Option Error
push o e = if o.closed then (o, some queue_closed) else push_open o e

-- What one critical section of `Pop` comes to: a return, or (back to) the select loop.
pub data Outcome : Type 0 where
  event : Event → Outcome
  failed : Error → Outcome
  waits : Outcome

-- Five lines that `Pop` has three times: the event at the head, and the state without it.
abbrev pub head_event : Outbox → Event
head_event o = get_or o.items o.head zero_event

abbrev pub take_head : Outbox → Outbox
take_head o = record o {
  items = set o.items o.head zero_event;
  head = next o.capacity o.head;
  count = o.count - 1;
  dequeued = inc64 o.dequeued;
}

-- `Pop` up to the select loop. The flag says that the context is done.
pub pop_enter : Bool → Outbox → Outbox × Outcome
pop_enter done o =
    if done
    then (o, failed context_done)
    else if ltb 0 o.count
    then (drain_token (take_head o), event (head_event o))
    else if o.closed
    then (o, failed queue_closed)
    else (o, waits)

-- `case <-o.closedCh:`
pub wake_closed : Outbox → Outbox × Outcome
wake_closed o =
    if ltb 0 o.count
    then (drain_token (take_head o), event (head_event o))
    else (o, failed queue_closed)

-- The receive of `case <-o.sem:`, outside the mutex; `none` blocks.
pub receive_token : Outbox → Option Outbox
receive_token o = if ltb 0 o.sem then some (record o { sem = o.sem - 1 }) else none

-- The body of `case <-o.sem:`
pub wake_token : Outbox → Outbox × Outcome
wake_token o =
    if ltb 0 o.count
    then (take_head o, event (head_event o))
    else if o.closed
    then (o, failed queue_closed)
    else (o, waits)

pub close : Outbox → Outbox
close o = if o.closed then o else record o { closed = true; closed_ch = true }

-- `Len`, `Capacity` and `Stats`
unfoldable pub len : Outbox → ℕ
len o = o.count

unfoldable pub capacity_of : Outbox → ℕ
capacity_of o = o.capacity

pub stats : Outbox → ℕ × ℕ × ℕ
stats o = (o.enqueued, o.dequeued, o.dropped)
