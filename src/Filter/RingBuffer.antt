-- ===== src/Filter/RingBuffer.antt =====
-- internal/filter/ringbuffer.go: the last measurements before an alert, in a slice that is
-- overwritten in a circle. The mutex makes each method one step. A float is of the type `F`.
pub mod Window
pub mod Last
mod Tests
use edge_telemetry_daemon.Shared.{
  ℕ, zero, suc, ◌+◌, ◌%◌, Bool, List, [], ◌∷◌, if◌then◌else◌, ltb, leb, ◌==◌, add64, replicate,
  get_or, set,
}
use edge_telemetry_daemon.Shared.Int.{ℤ, pos, leb_ℤ, pos_part}
use edge_telemetry_daemon.Shared.Time.{Time}
use edge_telemetry_daemon.Shared.Window.{next}

pub record SnapshotEntry {ℓ} (F : Type ℓ) : Type ℓ where
  pub timestamp : Time
  pub value : F
  pub z_score : F
  pub anomalous : Bool

-- `A` is the type of the entries.
pub record RingBuffer {ℓ} (A : Type ℓ) : Type ℓ where
  pub buf : List A
  pub capacity : ℕ
  pub head : ℕ
  pub count : ℕ

-- The first argument is the zero entry, with which `make` fills a slice.
module _ {ℓ} {A : Type ℓ} (d : A) where
  pub new_ring_buffer : ℤ → RingBuffer A
  new_ring_buffer c =
      let n = if leb_ℤ c (pos 0) then 10 else pos_part c in
      record { buf = replicate n d; capacity = n; head = 0; count = 0 }

  -- `for i := 0; i < r.count; i++`, by the rounds left; `i` is the index of the round.
  copy_from : RingBuffer A → ℕ → ℕ → ℕ → List A
  copy_from r start i zero = []
  copy_from r start i (suc n) =
      get_or r.buf (add64 start i % r.capacity) d ∷ copy_from r start (i + 1) n

  -- What the returned slice holds. `dst` gives storage at most, and `dst[i]` is written before
  -- it is read, so the slice that is passed in does not show.
  pub snapshot : RingBuffer A → List A
  unfolding copy_from
  snapshot r =
      if r.count == 0
      then []
      else copy_from r (if r.count == r.capacity then r.head else 0) 0 r.count

module _ {ℓ} {A : Type ℓ} where
  pub push : RingBuffer A → A → RingBuffer A
  push r e = record r {
    buf = set r.buf r.head e;
    head = next r.capacity r.head;
    count = if ltb r.count r.capacity then add64 r.count 1 else r.count;
  }

  pub capacity_of : RingBuffer A → ℕ
  capacity_of r = r.capacity

  pub len : RingBuffer A → ℕ
  len r = r.count

  -- The slots keep what they held.
  pub reset : RingBuffer A → RingBuffer A
  reset r = record r { head = 0; count = 0 }
