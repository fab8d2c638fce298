-- ===== src/Http/Stream.antt =====
-- cmd/agent/main.go: what the handlers of `/events` and of the socket write for the events that they
-- receive from their channel. json.Marshal is an argument, and so is whether a write succeeds.
use edge_telemetry_daemon.Shared.{Bool, true, false, Option, none, some, List, [], ◌∷◌, ◌++◌}
use edge_telemetry_daemon.Shared.Text.{Bytes, codes}
use edge_telemetry_daemon.Outbox.{Event}

pub sse_frame : Bytes → Bytes
sse_frame bytes = codes "data: " ++ (bytes ++ codes "\n\n")

pub uds_frame : Bytes → Bytes
uds_frame bytes = bytes ++ codes "\n"

-- An event that cannot be encoded is passed over.
unfoldable pub frame_of : (Bytes → Bytes) → Option Bytes → List Bytes
frame_of frame none = []
frame_of frame (some bytes) = frame bytes ∷ []

-- `/events` ignores the errors of its writes.
unfoldable pub sse_frames : (Event → Option Bytes) → List Event → List Bytes
sse_frames marshal [] = []
sse_frames marshal (e ∷ es) = frame_of sse_frame (marshal e) ++ sse_frames marshal es

-- A write of a frame on the socket, and the rest unless it fails.
unfoldable pub after_write : Option Bytes → Bool → List Bytes → List Bytes
after_write none ok rest = rest
after_write (some bytes) true rest = uds_frame bytes ∷ rest
after_write (some bytes) false rest = []

-- The frames written whole, from the events and whether the write of each succeeds.
unfoldable pub uds_frames : (Event → Option Bytes) → List (Event × Bool) → List Bytes
uds_frames marshal [] = []
uds_frames marshal ((e, ok) ∷ es) =
    let rest = uds_frames marshal es in after_write (marshal e) ok rest
