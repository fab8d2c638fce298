-- ===== src/Filter/RingBuffer/Window.antt =====
-- The ring buffer holds the last entries that were pushed, at most `capacity` of them.
use native.Mathlib.Nat.{mod-add-mod, mod-eq_of_lt, add-zero}
use edge_telemetry_daemon.Shared.{
  ℕ, zero, suc, ◌+◌, ◌-◌, ◌%◌, ◌^◌, ◌≤◌, ◌<◌, ◌≡◌, refl, ap, sym, ◌∙◌, arith, List, [], ◌∷◌, ◌++◌,
  length, length-replicate, length-set, if◌then◌else◌, if_ind, ltb, ◌==◌, add64, get_or,
}
use edge_telemetry_daemon.Shared.Int.{ℤ, IsInt, pos, pos_part, leb_ℤ}
use edge_telemetry_daemon.Shared.Window.{
  next-eq, window, length-window, window_of_pos, window-set, add-mod_self,
}
use edge_telemetry_daemon.Filter.RingBuffer.{
  RingBuffer, new_ring_buffer, copy_from, snapshot, push, reset,
}

-- The storage has `capacity` slots, and until they are full the head counts the entries.
pub record IsValid {ℓ} {A : Type ℓ} (r : RingBuffer A) : Type ℓ where
  pub storage : length r.buf ≡ r.capacity
  pub small : r.capacity < 2 ^ 63
  pub head_in : r.head < r.capacity
  pub count_in : r.count ≤ r.capacity
  pub filling : r.count < r.capacity → r.head ≡ r.count

-- What the buffer is for: a list that forgets its oldest entry when it is full.
abbrev pub tail {ℓ} : {A : Type ℓ} → List A → List A
tail [] = []
tail (x ∷ xs) = xs

abbrev pub remember {ℓ} : {A : Type ℓ} → ℕ → List A → A → List A
remember limit es e = if ltb (length es) limit then es ++ (e ∷ []) else tail es ++ (e ∷ [])

-- Where the oldest entry stands.
abbrev oldest {ℓ} : {A : Type ℓ} → RingBuffer A → ℕ
oldest r = if r.count == r.capacity then r.head else 0

module _ {ℓ} {A : Type ℓ} where
  push-count :
      (r : RingBuffer A) (e : A)
      → IsValid r
      → (push r e).count ≡ (if ltb r.count r.capacity then r.count + 1 else r.capacity)
  unfolding push
  push-count r e v = ground (arith, v)

  pub push-capacity : (r : RingBuffer A) (e : A) → (push r e).capacity ≡ r.capacity
  unfolding push
  push-capacity r e = refl

  oldest-room : (r : RingBuffer A) → r.count < r.capacity → oldest r ≡ 0
  oldest-room r p = ground arith

  oldest-full : (r : RingBuffer A) → r.count ≡ r.capacity → oldest r ≡ r.head
  oldest-full r p = ground arith

  push-head : (r : RingBuffer A) (e : A) → IsValid r → (push r e).head ≡ (r.head + 1) % r.capacity
  unfolding push
  push-head r e v = next-eq r.capacity r.head v.head_in v.small

  push-filling :
      (r : RingBuffer A) (e : A)
      → IsValid r
      → (push r e).count < r.capacity
      → (push r e).head ≡ (push r e).count
  push-filling r e v p =
      let room : r.count < r.capacity = ground (arith, push-count r e v) in
      let more : (push r e).count ≡ r.count + 1 = ground (arith, push-count r e v) in
      rw (push-head r e v, more, v.filling room) (mod-eq_of_lt (omega arith))

  pub push-IsValid : {r : RingBuffer A} (e : A) → IsValid r → IsValid (push r e)
  unfolding push
  push-IsValid {r} e v = record {
    storage = length-set r.buf r.head e ∙ v.storage;
    small = v.small;
    head_in = omega (arith, v);
    count_in = ground (arith, push-count r e v, v);
    filling = push-filling r e v;
  }

  pub reset-IsValid : {r : RingBuffer A} → IsValid r → IsValid (reset r)
  unfolding reset
  reset-IsValid v = record {
    storage = v.storage;
    small = v.small;
    head_in = omega (arith, v);
    count_in = omega arith;
    filling = λ _. refl;
  }

  pub new_ring_buffer-IsValid : (d : A) (c : ℤ) → IsInt c → IsValid (new_ring_buffer d c)
  unfolding new_ring_buffer
  new_ring_buffer-IsValid d c h =
      let n = if leb_ℤ c (pos 0) then 10 else pos_part c in
      record {
        storage = length-replicate n d;
        small = ground arith;
        head_in = ground arith;
        count_in = omega arith;
        filling = λ _. refl;
      }

module _ {ℓ} {A : Type ℓ} (d : A) where
  copy_from-window :
      (r : RingBuffer A) (start i n : ℕ)
      → IsValid r
      → start < r.capacity
      → i + n ≤ r.capacity
      → copy_from d r start i n ≡ window d r.buf r.capacity ((start + i) % r.capacity) n
  unfolding copy_from
  copy_from-window r start i zero v hs hi = refl
  copy_from-window r start i (suc n) v hs hi =
      let sum : add64 start i ≡ start + i = omega (arith, v) in
      let step : (start + (i + 1)) % r.capacity ≡ ((start + i) % r.capacity + 1) % r.capacity =
        rw mod-add-mod (ap (λ k. k % r.capacity) (omega arith)) in
      rw sum (
        ap (λ es. get_or r.buf ((start + i) % r.capacity) d ∷ es)
          (copy_from-window r start (i + 1) n v hs (omega arith)
            ∙ ap (λ k. window d r.buf r.capacity k n) step))

  oldest-lt : (r : RingBuffer A) → IsValid r → oldest r < r.capacity
  oldest-lt r v = ground (arith, v)

  snapshot-window :
      (r : RingBuffer A) → IsValid r → snapshot d r ≡ window d r.buf r.capacity (oldest r) r.count
  unfolding snapshot
  snapshot-window r v =
      if_ind (λ es. es ≡ window d r.buf r.capacity (oldest r) r.count) (r.count == 0)
        (λ none_yet. let e : r.count ≡ 0 = ground arith in rw e refl)
        λ _.
          copy_from-window r (oldest r) 0 r.count v (oldest-lt r v) (omega (arith, v))
          ∙ ap (λ k. window d r.buf r.capacity k r.count)
              (ap (λ k. k % r.capacity) (add-zero (oldest r)) ∙ mod-eq_of_lt (oldest-lt r v))

  pub length-snapshot : (r : RingBuffer A) → IsValid r → length (snapshot d r) ≡ r.count
  length-snapshot r v =
      ap length (snapshot-window r v) ∙ length-window d r.buf r.capacity (oldest r) r.count

  -- A push into a buffer with room adds the entry behind the others.
  push-room :
      (r : RingBuffer A) (e : A)
      → IsValid r
      → r.count < r.capacity
      → window d (push r e).buf r.capacity (oldest (push r e)) (push r e).count
        ≡ window d r.buf r.capacity 0 r.count ++ (e ∷ [])
  push-room r e v p =
      rw (from, more)
        (unfold push in
          window-set d r.buf r.capacity e r.count 0 r.head (omega (arith, v)) (omega arith) p
            (v.filling p ∙ sym (mod-eq_of_lt p) ∙ ap (λ k. k % r.capacity) (omega arith)))
    where
      more : (push r e).count ≡ suc r.count
      more = ground (arith, push-count r e v)

      turn : suc r.count ≡ r.capacity → (push r e).head ≡ 0
      turn last =
          let whole : r.head + 1 ≡ 0 + r.capacity = omega (arith, v.filling p) in
          rw (push-head r e v, whole) (add-mod_self r.capacity 0 (omega arith))

      from : oldest (push r e) ≡ 0
      from =
          if_ind (λ k. k ≡ 0) ((push r e).count == (push r e).capacity)
            (λ now. turn (unfold push in ground (arith, more))) (λ _. refl)

  -- A push into a full buffer takes the place of the oldest entry.
  push-full :
      (r : RingBuffer A) (e : A)
      → IsValid r
      → r.count ≡ r.capacity
      → window d (push r e).buf r.capacity (oldest (push r e)) (push r e).count
        ≡ tail (window d r.buf r.capacity r.head r.count) ++ (e ∷ [])
  push-full r e v full =
      rw (from, still)
        (unfold push in
          window-set d r.buf r.capacity e (r.capacity - 1) ((r.head + 1) % r.capacity) r.head
            (omega (arith, v)) (omega (arith, v)) (omega (arith, v)) behind)
      ∙ ap (λ es. tail es ++ (e ∷ [])) (sym opened)
    where
      still : (push r e).count ≡ suc (r.capacity - 1)
      still = ground (arith, push-count r e v, v)

      from : oldest (push r e) ≡ (r.head + 1) % r.capacity
      from =
          if_ind (λ k. k ≡ (r.head + 1) % r.capacity) ((push r e).count == (push r e).capacity)
            (λ _. push-head r e v) (λ no. absurd (unfold push in ground (arith, still, v)))

      behind : r.head ≡ ((r.head + 1) % r.capacity + (r.capacity - 1)) % r.capacity
      behind = sym (
          rw mod-add-mod (
            ap (λ k. k % r.capacity) (omega (arith, v)) ∙ add-mod_self r.capacity r.head v.head_in))

      opened :
          window d r.buf r.capacity r.head r.count
          ≡ get_or r.buf r.head d
            ∷ window d r.buf r.capacity ((r.head + 1) % r.capacity) (r.capacity - 1)
      opened = rw full (window_of_pos d r.buf r.capacity r.head r.capacity (omega (arith, v)))

  -- `Push` into a valid buffer is `remember` on what `Snapshot` returns.
  pub snapshot-push :
      (r : RingBuffer A) (e : A)
      → IsValid r
      → snapshot d (push r e) ≡ remember r.capacity (snapshot d r) e
  snapshot-push r e v =
      snapshot-window (push r e) (push-IsValid e v)
      ∙ ap (λ m. window d (push r e).buf m (oldest (push r e)) (push r e).count) (push-capacity r e)
      ∙ if_ind (λ es. window d (push r e).buf r.capacity (oldest (push r e)) (push r e).count ≡ es)
          (ltb (length (snapshot d r)) r.capacity)
          (λ room.
            let p : r.count < r.capacity = ground (arith, length-snapshot r v) in
            push-room r e v p ∙ ap (λ es. es ++ (e ∷ [])) (sym (held 0 (oldest-room r p))))
          λ no.
            let full : r.count ≡ r.capacity = ground (arith, length-snapshot r v, v) in
            push-full r e v full
            ∙ ap (λ es. tail es ++ (e ∷ [])) (sym (held r.head (oldest-full r full)))
    where
      held : (k : ℕ) → oldest r ≡ k → snapshot d r ≡ window d r.buf r.capacity k r.count
      held k h = snapshot-window r v ∙ ap (λ j. window d r.buf r.capacity j r.count) h
