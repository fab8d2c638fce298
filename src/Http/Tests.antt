-- ===== src/Http/Tests.antt =====
-- The handlers at concrete outboxes.
use edge_telemetry_daemon.Shared.{◌≡◌, ◌↔◌, refl, false, arith, [], ◌∷◌}
use edge_telemetry_daemon.Outbox
use edge_telemetry_daemon.Outbox.{Outbox, Event, zero_event, drop_oldest}
use edge_telemetry_daemon.Outbox.Inv.{IsValid}
use edge_telemetry_daemon.Http.{healthz}
use edge_telemetry_daemon.Http.Health.{Appends, healthz-Appends}

-- One event in a queue of two.
abbrev half_full : Outbox
half_full = record {
  items = zero_event ∷ zero_event ∷ [];
  head = 1;
  tail = 0;
  count = 1;
  capacity = 2;
  policy = drop_oldest;
  closed = false;
  closed_ch = false;
  sem = 1;
  enqueued = 2;
  dequeued = 1;
  dropped = 0;
}

half_full-IsValid : IsValid half_full
half_full-IsValid = ground arith

saturated : (healthz (record half_full { tail = 1; count = 2 })).0 ≡ 503
unfolding healthz Outbox.capacity_of Outbox.len
saturated = refl

healthz-Appends_example : ((healthz half_full).0 ≡ 200) ↔ Appends half_full zero_event
healthz-Appends_example = healthz-Appends half_full zero_event half_full-IsValid refl
