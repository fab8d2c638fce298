-- ===== src/Outbox/Tests.antt =====
-- Runs of the outbox, and its theorems at concrete inputs.
use edge_telemetry_daemon.Shared.{
  ℕ, ◌<◌, ◌≡◌, ◌≢◌, ◌⊎◌, refl, true, false, arith, none, some, [], ◌∷◌,
}
use edge_telemetry_daemon.Shared.Int.{pos}
use edge_telemetry_daemon.Outbox.{
  Outbox, Event, anomaly_alert, Config, drop_newest, drop_oldest, event, waits, queue_full,
  new_outbox, push, push_open, push_full, pop_enter, wake_closed, receive_token, wake_token, close,
  head_event,
}
use edge_telemetry_daemon.Outbox.Fifo
use edge_telemetry_daemon.Outbox.Inv.{IsValid}
use edge_telemetry_daemon.Outbox.Refine.{
  contents, view, push_refines, entered, pop_section, pop_refines,
}
use edge_telemetry_daemon.Outbox.Account.{note_pop}
use edge_telemetry_daemon.Outbox.Workers.{
  System, start, after_push, pushes, closes, enters, Reach, here, next, Inv, Reach-Inv,
  Reach-progress, closed-ne-waits,
}

abbrev two : Config
two = record { capacity = pos 2; drop_policy = drop_oldest }

abbrev alert : ℕ → Event
alert n = record { id = n ∷ []; type = anomaly_alert; timestamp = pos n; payload = [] }

-- Two alerts in a queue of two, the older at index 1.
abbrev full : Outbox
full = record {
  items = alert 2 ∷ alert 1 ∷ [];
  head = 1;
  tail = 1;
  count = 2;
  capacity = 2;
  policy = drop_oldest;
  closed = false;
  closed_ch = false;
  sem = 2;
  enqueued = 3;
  dequeued = 1;
  dropped = 0;
}

full-IsValid : IsValid full
full-IsValid = ground arith

push_evicts :
    (contents (push full (alert 3)).0 ≡ alert 2 ∷ alert 3 ∷ [])
    × ((push full (alert 3)).1 ≡ none)
    × ((push full (alert 3)).0.dropped ≡ 1)
unfolding push push_open push_full
push_evicts = (refl, refl, refl)

push_refuses : (push (record full { policy = drop_newest }) (alert 3)).1 ≡ some queue_full
unfolding push push_open push_full
push_refuses = refl

pop_order :
    (contents (pop_enter false full).0 ≡ alert 2 ∷ [])
    × ((pop_enter false full).1 ≡ event (alert 1))
    × ((pop_enter false full).0.sem ≡ 1)
unfolding pop_enter
pop_order = (refl, refl, refl)

push_refines_example :
    let (o, err) = push full (alert 3) in (contents o, err) ≡ Fifo.push (view full) (alert 3)
push_refines_example = push_refines (alert 3) full-IsValid

pop_refines_example :
    let (o, out) = pop_section {o = full} entered in
    (contents o, out) ≡ Fifo.pop false (contents full)
pop_refines_example = pop_refines full-IsValid entered

-- A worker waits, an alert is pushed, and the outbox is closed.
abbrev waited : System
waited = record (start two) { waiting = 1 }

abbrev pushed : System
pushed = after_push waited (alert 1)

abbrev shut : System
shut = record pushed { ob = close pushed.ob }

pushed-Reach : Reach two pushed
unfolding pop_enter new_outbox note_pop
pushed-Reach = next (next (here (start two) refl) (enters false refl)) (pushes (alert 1) refl)

shut-Reach : Reach two shut
shut-Reach = next pushed-Reach (closes refl)

Reach-Inv_example : Inv shut
Reach-Inv_example = Reach-Inv {cfg = two} (omega arith) shut-Reach

pushed-count : 0 < pushed.ob.count
unfolding push push_open new_outbox
pushed-count = omega arith

Reach-progress_example :
    ((o : Outbox) × (receive_token pushed.ob ≡ some o))
    ⊎ ((0 < 0) × ((wake_token pushed.ob).1 ≡ event (head_event pushed.ob)))
Reach-progress_example = Reach-progress (omega arith) pushed-Reach pushed-count

shut-closed : shut.ob.closed ≡ true
unfolding push push_open new_outbox close
shut-closed = refl

closed-ne-waits_example :
    (shut.ob.closed_ch ≡ true)
    × ((pop_enter false shut.ob).1 ≢ waits)
    × ((wake_token shut.ob).1 ≢ waits)
    × ((wake_closed shut.ob).1 ≢ waits)
closed-ne-waits_example = closed-ne-waits (omega arith) shut-Reach shut-closed
