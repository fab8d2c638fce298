-- ===== src/Http/Health.antt =====
-- What a healthy answer promises of the outbox.
use edge_telemetry_daemon.Shared.{
  ℕ, ◌≤◌, ◌<◌, ◌≡◌, ◌↔◌, refl, sym, ap, ◌∙◌, false, none, List, [], ◌∷◌, ◌++◌, arith, length,
  length-append, leb, if_ind, Option,
}
use edge_telemetry_daemon.Outbox
use edge_telemetry_daemon.Outbox.{Outbox, Event, Error, drop_newest, drop_oldest, DropPolicy}
use edge_telemetry_daemon.Outbox.Fifo
use edge_telemetry_daemon.Outbox.Inv.{IsValid}
use edge_telemetry_daemon.Outbox.Refine.{contents, view, length-contents, push_refines}
use edge_telemetry_daemon.Shared.Text.{Bytes}
use edge_telemetry_daemon.Http.{healthz}

-- The event goes behind what is there, and nothing is lost.
abbrev pub Appends : Outbox → Event → Type 0
Appends o e = ((Outbox.push o e).1 ≡ none) × (contents (Outbox.push o e).0 ≡ contents o ++ (e ∷ []))

full_loses :
    (p : DropPolicy) (es : List Event) (e : Event)
    → (Fifo.push_full p es e).1 ≡ none
    → (Fifo.push_full p es e).0 ≡ es ++ (e ∷ [])
    → es ≡ []
full_loses drop_newest es e ok same = cc
full_loses drop_oldest [] e ok same = refl
full_loses drop_oldest (x ∷ es) e ok same = absurd (
    omega
      (arith, ap (λ l. length l) same, length-append es (e ∷ []), length-append (x ∷ es) (e ∷ [])))

module _ (o : Outbox) (e : Event) (v : IsValid o) (live : o.closed ≡ false) where
  -- The push as the specification has it.
  open_push : (contents (Outbox.push o e).0, (Outbox.push o e).1) ≡ Fifo.push_open (view o) e
  unfolding Fifo.push
  open_push = push_refines e v ∙ ground (arith, live)

  open_room : o.count < o.capacity → Appends o e
  open_room room =
      let same = open_push ∙ Fifo.push_open_room (view o) e (omega (arith, length-contents o)) in
      (
        ap (λ (r : List Event × Option Error). r.1) same,
        ap (λ (r : List Event × Option Error). r.0) same,
      )

  open_full : o.capacity ≤ o.count → Appends o e → ⊥
  open_full full (ok, same) =
      let at_limit : length (contents o) ≡ o.capacity =
        omega (arith, length-contents o, v.count_in) in
      let sent = open_push ∙ Fifo.push_open_full (view o) e at_limit in
      let err = sym (ap (λ (r : List Event × Option Error). r.1) sent) ∙ ok in
      let events = sym (ap (λ (r : List Event × Option Error). r.0) sent) ∙ same in
      let empty : contents o ≡ [] = full_loses o.policy (contents o) e err events in
      absurd (omega (arith, v.head_in, at_limit, ap (λ l. length l) empty))

  -- On a well-formed outbox that is open, `/healthz` answers 200 exactly when a push of any one event
  -- puts it behind what is there, refusing nothing and evicting nothing.
  pub healthz-Appends : ((healthz o).0 ≡ 200) ↔ Appends o e
  unfolding healthz Outbox.len Outbox.capacity_of
  healthz-Appends =
      if_ind (λ (r : ℕ × Bytes). (r.0 ≡ 200) ↔ Appends o e) (leb o.capacity o.count)
        (λ full. (λ h. absurd (omega (arith, h)), λ h. absurd (open_full (ground arith) h)))
        (λ room. (λ _. open_room (ground arith), λ _. refl))
