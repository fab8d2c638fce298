-- ===== src/Filter/RingBuffer/Tests.antt =====
-- Runs of the ring buffer, and its theorems at concrete inputs.
use edge_telemetry_daemon.Shared.{ℕ, ◌≡◌, refl, arith, false, [], ◌∷◌}
use edge_telemetry_daemon.Shared.Int.{pos}
use edge_telemetry_daemon.Filter.RingBuffer.{SnapshotEntry, RingBuffer, new_ring_buffer, snapshot}
use edge_telemetry_daemon.Filter.RingBuffer.Window.{IsValid}
use edge_telemetry_daemon.Filter.RingBuffer.Last.{push_all, last, snapshot-push_all}

abbrev at : ℕ → SnapshotEntry ℕ
at n = record { timestamp = pos n; value = n; z_score = 0; anomalous = false }

-- Four entries were pushed into three slots.
abbrev turned : RingBuffer (SnapshotEntry ℕ)
turned = record { buf = at 4 ∷ at 2 ∷ at 3 ∷ []; capacity = 3; head = 1; count = 3 }

turned-IsValid : IsValid turned
turned-IsValid = record {
  storage = refl;
  small = omega arith;
  head_in = omega arith;
  count_in = omega arith;
  filling = λ h. absurd (omega arith);
}

snapshot-turned : snapshot (at 0) turned ≡ at 2 ∷ at 3 ∷ at 4 ∷ []
unfolding snapshot
snapshot-turned = refl

snapshot-push_all_example :
    snapshot (at 0) (push_all (new_ring_buffer (at 0) (pos 2)) (at 1 ∷ at 2 ∷ at 3 ∷ []))
    ≡ last (new_ring_buffer (at 0) (pos 2)).capacity (at 1 ∷ at 2 ∷ at 3 ∷ [])
snapshot-push_all_example = snapshot-push_all (at 0) (pos 2) (at 1 ∷ at 2 ∷ at 3 ∷ []) (omega arith)
