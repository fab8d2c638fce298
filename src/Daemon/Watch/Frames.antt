-- ===== src/Daemon/Watch/Frames.antt =====
-- cmd/agent/main.go: what the handlers of the streams write of the events that are emitted.
use edge_telemetry_daemon.Shared.{
  ℕ, ◌+◌, false, ◌≤◌, ◌≡◌, refl, ap, ◌∙◌, Bool, true, Option, none, some, List, [], ◌∷◌, ◌++◌, map,
  length,
}
use edge_telemetry_daemon.Shared.Merge.{
  Merge, ends, left, right, Merge-append, Merge-left, Merge-right,
}
use edge_telemetry_daemon.Shared.Time.{Time}
use edge_telemetry_daemon.Shared.Text.{Bytes}
use edge_telemetry_daemon.Shared.Float.{Float}
use edge_telemetry_daemon.Outbox.{Event}
use edge_telemetry_daemon.Cgroup.Discover.{Files}
use edge_telemetry_daemon.Config.{Config}
use edge_telemetry_daemon.Agent.{Host}
use edge_telemetry_daemon.Http.Stream.{
  sse_frame, uds_frame, frame_of, sse_frames, after_write, uds_frames,
}
use edge_telemetry_daemon.Daemon.{Daemon, launch}
use edge_telemetry_daemon.Daemon.Watch.{queue_of, Watch}
use edge_telemetry_daemon.Daemon.Watch.Kept.{launch-IsFresh, Watch-Keeps}

-- The frames of events, one after another.
frames : (Bytes → Bytes) → (Event → Option Bytes) → List Event → List Bytes
frames frame marshal [] = []
frames frame marshal (e ∷ es) = frame_of frame (marshal e) ++ frames frame marshal es

frames-Merge :
    (frame : Bytes → Bytes) (marshal : Event → Option Bytes) {xs ys zs : List Event}
    → Merge xs ys zs
    → Merge (frames frame marshal xs) (frames frame marshal ys) (frames frame marshal zs)
unfolding frames
frames-Merge frame marshal ends = ends
frames-Merge frame marshal (left e m) =
    Merge-append (Merge-left (frame_of frame (marshal e))) (frames-Merge frame marshal m)
frames-Merge frame marshal (right e m) =
    Merge-append (Merge-right (frame_of frame (marshal e))) (frames-Merge frame marshal m)

sse_frames-frames :
    (marshal : Event → Option Bytes) (es : List Event)
    → sse_frames marshal es ≡ frames sse_frame marshal es
unfolding sse_frames frames
sse_frames-frames marshal [] = refl
sse_frames-frames marshal (e ∷ es) =
    ap (λ r. frame_of sse_frame (marshal e) ++ r) (sse_frames-frames marshal es)

-- Every write on the socket succeeds.
abbrev pub written : List Event → List (Event × Bool)
written es = map (λ e. (e, true)) es

after_write-frame :
    (bytes : Option Bytes) (rest : List Bytes)
    → after_write bytes true rest ≡ frame_of uds_frame bytes ++ rest
unfolding after_write frame_of
after_write-frame none rest = refl
after_write-frame (some bytes) rest = refl

uds_frames-frames :
    (marshal : Event → Option Bytes) (es : List Event)
    → uds_frames marshal (written es) ≡ frames uds_frame marshal es
unfolding uds_frames frames
uds_frames-frames marshal [] = refl
uds_frames-frames marshal (e ∷ es) =
    after_write-frame (marshal e) (uds_frames marshal (written es))
    ∙ ap (λ r. frame_of uds_frame (marshal e) ++ r) (uds_frames-frames marshal es)

sse_frames-Merge :
    (marshal : Event → Option Bytes) {xs ys zs : List Event}
    → Merge xs ys zs
    → Merge (sse_frames marshal xs) (sse_frames marshal ys) (sse_frames marshal zs)
sse_frames-Merge marshal {xs} {ys} {zs} m =
    rw (sse_frames-frames marshal xs, sse_frames-frames marshal ys, sse_frames-frames marshal zs)
      (frames-Merge sse_frame marshal m)

uds_frames-Merge :
    (marshal : Event → Option Bytes) {xs ys zs : List Event}
    → Merge xs ys zs
    → Merge
        (uds_frames marshal (written xs))
        (uds_frames marshal (written ys))
        (uds_frames marshal (written zs))
uds_frames-Merge marshal {xs} {ys} {zs} m =
    rw (uds_frames-frames marshal xs, uds_frames-frames marshal ys, uds_frames-frames marshal zs)
      (frames-Merge uds_frame marshal m)

-- Events with what `ok` says of their writes, in order.
pub tried : (ℕ → Bool) → List Event → List (Event × Bool)
tried ok [] = []
tried ok (e ∷ es) = (e, ok 0) ∷ tried (λ n. ok (n + 1)) es

-- The frames that are written before a write fails are the first ones.
abbrev pub IsStartOf : List Bytes → List Bytes → Type 0
IsStartOf xs ys = (rest : List Bytes) × (xs ++ rest ≡ ys)

after_write-IsStartOf :
    (bytes : Option Bytes) (ok : Bool) (xs ys : List Bytes)
    → IsStartOf xs ys
    → IsStartOf (after_write bytes ok xs) (after_write bytes true ys)
unfolding after_write
after_write-IsStartOf none ok xs ys h = h
after_write-IsStartOf (some bytes) true xs ys (rest, same) =
    (rest, ap (λ r. uds_frame bytes ∷ r) same)
after_write-IsStartOf (some bytes) false xs ys h = (uds_frame bytes ∷ ys, refl)

tried-IsStartOf :
    (marshal : Event → Option Bytes) (ok : ℕ → Bool) (es : List Event)
    → IsStartOf (uds_frames marshal (tried ok es)) (uds_frames marshal (written es))
unfolding uds_frames tried
tried-IsStartOf marshal ok [] = ([], refl)
tried-IsStartOf marshal ok (e ∷ es) =
    after_write-IsStartOf (marshal e) (ok 0) (uds_frames marshal (tried (λ n. ok (n + 1)) es))
      (uds_frames marshal (written es)) (tried-IsStartOf marshal (λ n. ok (n + 1)) es)

-- A channel that is open, and where the events and their frames go.
pub record Streams {ℓ} {F : Type ℓ} (marshal : Event → Option Bytes) (i : ℕ) (d : Daemon F)
    (offered received lost : List Event) : Type 0 where
  pub queue : List Event
  pub is_open : queue_of i d.agent.subs ≡ some queue
  pub room : length queue ≤ 64
  pub events : Merge (received ++ queue) lost offered
  pub sse :
      Merge
        (sse_frames marshal (received ++ queue))
        (sse_frames marshal lost)
        (sse_frames marshal offered)
  pub until_failure :
      (ok : ℕ → Bool)
      → IsStartOf (uds_frames marshal (tried ok received)) (uds_frames marshal (written received))
  pub socket :
      Merge
        (uds_frames marshal (written (received ++ queue)))
        (uds_frames marshal (written lost))
        (uds_frames marshal (written offered))

module _ {ℓ} {F : Type ℓ} ⦃f : Float F⦄ (h : Host F) where
  -- As long as a handler keeps its channel, whatever the daemon does beside: the channel is open and
  -- holds at most 64 events; the events that the handler received and then those in the channel, merged
  -- with those that were sent when the channel was full, are the events that ticks broadcast since it
  -- subscribed, each once and all in their order; and so are the frames that they are written as, on
  -- the socket up to the first write that fails.
  pub Watch-Streams :
      (marshal : Event → Option Bytes) (fs : Files) (cfg : Config F) (now : Time) (ok : Bool)
      (i : ℕ) {d : Daemon F} {offered received lost : List Event}
      → Watch h (launch h fs cfg now ok) i d offered received lost
      → Streams marshal i d offered received lost
  Watch-Streams marshal fs cfg now ok i {received = received} w =
      let (queue, found, le, m) =
        Watch-Keeps h (launch h fs cfg now ok) i (launch-IsFresh h fs cfg now ok) w in
      record {
        queue = queue;
        is_open = found;
        room = le;
        events = m;
        sse = sse_frames-Merge marshal m;
        until_failure = λ ok. tried-IsStartOf marshal ok received;
        socket = uds_frames-Merge marshal m;
      }
