-- ===== src/Agent/Channels.antt =====
-- What a subscriber's channel holds when events come and nobody reads.
use edge_telemetry_daemon.Shared.{
  ℕ, zero, suc, ◌+◌, ◌<◌, ◌≡◌, refl, sym, ap, ap₂, ◌∙◌, map, List, [], ◌∷◌, ◌++◌, arith, length,
  length-append, append_assoc, append-nil,
}
use edge_telemetry_daemon.Shared.Float.{Float}
use edge_telemetry_daemon.Outbox.{Event}
use edge_telemetry_daemon.Agent.State.{Agent, Channel, send}
use edge_telemetry_daemon.Agent.{emit_event, subscribe}

-- `broadcast` of several events, as one channel meets it.
unfoldable pub send_all : List Event → Channel → Channel
send_all [] c = c
send_all (e ∷ es) c = send_all es (send e c)

unfoldable pub take : ℕ → List Event → List Event
take zero es = []
take (suc n) [] = []
take (suc n) (e ∷ es) = e ∷ take n es

take-nil : (n : ℕ) → take n [] ≡ []
unfolding take
take-nil zero = refl
take-nil (suc n) = refl

send-room :
    (i : ℕ) (q : List Event) (e : Event) → length q < 64 → send e (i, q) ≡ (i, q ++ (e ∷ []))
unfolding send
send-room i q e room = ground arith

send-full : (i : ℕ) (q : List Event) (e : Event) → length q ≡ 64 → send e (i, q) ≡ (i, q)
unfolding send
send-full i q e full = ground arith

pub send_all-take :
    (i : ℕ) (q es : List Event) (room : ℕ)
    → length q + room ≡ 64
    → send_all es (i, q) ≡ (i, q ++ take room es)
unfolding send_all take
send_all-take i q [] room h =
    ap (λ x. (i, x)) (sym (append-nil q) ∙ ap (λ x. q ++ x) (sym (take-nil room)))
send_all-take i q (e ∷ es) zero h =
    ap (send_all es) (send-full i q e (omega arith)) ∙ send_all-take i q es 0 h
send_all-take i q (e ∷ es) (suc room) h =
    ap (send_all es) (send-room i q e (omega arith))
    ∙ send_all-take i (q ++ (e ∷ [])) es room (omega (arith, length-append q (e ∷ [])))
    ∙ ap (λ x. (i, x)) (append_assoc q (e ∷ []) (take room es))

pub map-send_all :
    (e : Event) (es : List Event) (cs : List Channel)
    → map (send_all es) (map (send e) cs) ≡ map (send_all (e ∷ es)) cs
unfolding send_all
map-send_all e es [] = refl
map-send_all e es (c ∷ cs) = ap (λ r. send_all es (send e c) ∷ r) (map-send_all e es cs)

pub map-send_all-nil : (cs : List Channel) → map (send_all []) cs ≡ cs
unfolding send_all
map-send_all-nil [] = refl
map-send_all-nil (c ∷ cs) = ap (λ r. c ∷ r) (map-send_all-nil cs)

map-append :
    (g : Channel → Channel) (xs ys : List Channel) → map g (xs ++ ys) ≡ map g xs ++ map g ys
map-append g [] ys = refl
map-append g (x ∷ xs) ys = ap (λ r. g x ∷ r) (map-append g xs ys)

module _ {ℓ} {F : Type ℓ} ⦃f : Float F⦄ where
  emit_all : Agent F → List Event → Agent F
  emit_all a [] = a
  emit_all a (e ∷ es) = emit_all (emit_event a e) es

  emit_all-subs : (a : Agent F) (es : List Event) → (emit_all a es).subs ≡ map (send_all es) a.subs
  unfolding emit_all emit_event
  emit_all-subs a [] = sym (map-send_all-nil a.subs)
  emit_all-subs a (e ∷ es) = emit_all-subs (emit_event a e) es ∙ map-send_all e es a.subs

  -- A subscriber that does not read finds in its channel the first 64 events that were emitted since
  -- it subscribed, in order; the channels of the others are as they would be without it.
  subscribe-emit_all :
      (a : Agent F) (es : List Event)
      → (emit_all (subscribe a).1 es).subs
        ≡ (emit_all a es).subs ++ ((a.next_channel, take 64 es) ∷ [])
  unfolding subscribe
  subscribe-emit_all a es =
      emit_all-subs (subscribe a).1 es
      ∙ map-append (send_all es) a.subs _
      ∙ ap₂ (λ (xs : List Channel) (c : Channel). xs ++ (c ∷ [])) (sym (emit_all-subs a es))
          (send_all-take a.next_channel [] es 64 refl)
