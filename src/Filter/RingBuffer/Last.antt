-- ===== src/Filter/RingBuffer/Last.antt =====
-- What `Snapshot` returns after any sequence of calls.
use edge_telemetry_daemon.Shared.{
  ℕ, zero, suc, ◌-◌, ◌≤◌, ◌<◌, ◌≡◌, refl, ap, sym, ◌∙◌, arith, List, [], ◌∷◌, ◌++◌, length, drop,
  length-append, length-drop, drop-append, if_ind, ltb, append_assoc, append-nil,
}
use edge_telemetry_daemon.Shared.Int.{ℤ, IsInt}
use edge_telemetry_daemon.Filter.RingBuffer.{RingBuffer, new_ring_buffer, snapshot, push, reset}
use edge_telemetry_daemon.Filter.RingBuffer.Window.{
  IsValid, new_ring_buffer-IsValid, push-IsValid, reset-IsValid, snapshot-push, tail, remember,
}

-- `n` pushes in order.
abbrev pub push_all {ℓ} : {A : Type ℓ} → RingBuffer A → List A → RingBuffer A
push_all r [] = r
push_all r (e ∷ es) = push_all (push r e) es

-- The last `n` elements of a list, or all of a shorter one.
abbrev pub last {ℓ} : {A : Type ℓ} → ℕ → List A → List A
last n xs = drop (length xs - n) xs

module _ {ℓ} {A : Type ℓ} where
  drop-nil : (n : ℕ) → drop {A = A} n [] ≡ []
  drop-nil zero = refl
  drop-nil (suc n) = refl

  tail-drop : (n : ℕ) (xs : List A) → tail (drop n xs) ≡ drop (suc n) xs
  tail-drop zero [] = refl
  tail-drop zero (x ∷ xs) = refl
  tail-drop (suc n) [] = refl
  tail-drop (suc n) (x ∷ xs) = tail-drop n xs

  -- `remember` keeps the last entries.
  remember-last :
      (limit : ℕ) (xs : List A) (e : A)
      → 0 < limit
      → remember limit (last limit xs) e ≡ last limit (xs ++ (e ∷ []))
  remember-last limit xs e p =
      if_ind (λ es. es ≡ last limit (xs ++ (e ∷ []))) (ltb (length (last limit xs)) limit)
        (λ room.
          let h : length xs < limit = ground (arith, length-drop (length xs - limit) xs) in
          let z : length xs - limit ≡ 0 = omega arith in
          let z' : length (xs ++ (e ∷ [])) - limit ≡ 0 = omega (arith, length-append xs (e ∷ [])) in
          rw (z, z') refl)
        λ no.
          let h : limit ≤ length xs = ground (arith, length-drop (length xs - limit) xs) in
          let more : length (xs ++ (e ∷ [])) - limit ≡ suc (length xs - limit) =
            omega (arith, length-append xs (e ∷ [])) in
          rw (more, tail-drop (length xs - limit) xs)
            (sym (drop-append (suc (length xs - limit)) xs (e ∷ []) (omega arith)))

  push_all-last :
      (d : A) (r : RingBuffer A) (seen es : List A)
      → IsValid r
      → snapshot d r ≡ last r.capacity seen
      → snapshot d (push_all r es) ≡ last r.capacity (seen ++ es)
  unfolding push
  push_all-last d r seen [] v h = rw append-nil h
  push_all-last d r seen (e ∷ es) v h =
      push_all-last d (push r e) (seen ++ (e ∷ [])) es (push-IsValid e v) (
        snapshot-push d r e v
        ∙ ap (λ xs. remember r.capacity xs e) h
        ∙ remember-last r.capacity seen e (omega (arith, v)))
      ∙ ap (last r.capacity) (append_assoc seen (e ∷ []) es)

  -- After any pushes into a new buffer, `Snapshot` returns the last entries pushed, oldest first: all
  -- of them up to the capacity, then the last `capacity`.
  pub snapshot-push_all :
      (d : A) (c : ℤ) (es : List A)
      → IsInt c
      → snapshot d (push_all (new_ring_buffer d c) es) ≡ last (new_ring_buffer d c).capacity es
  snapshot-push_all d c es h =
      push_all-last d (new_ring_buffer d c) [] es (new_ring_buffer-IsValid d c h)
        (unfold snapshot new_ring_buffer in sym (drop-nil (0 - (new_ring_buffer d c).capacity)))

  -- After `Reset` nothing of what was there before shows.
  snapshot-push_all-reset :
      (d : A) (r : RingBuffer A) (es : List A)
      → IsValid r
      → snapshot d (push_all (reset r) es) ≡ last r.capacity es
  unfolding reset
  snapshot-push_all-reset d r es v =
      push_all-last d (reset r) [] es (reset-IsValid v)
        (unfold snapshot reset in sym (drop-nil (0 - r.capacity)))
