-- ===== src/Daemon/Watch/Kept.antt =====
-- cmd/agent/main.go: where the events go that are emitted while a subscriber's channel is open.
use mathlib.Core.Path.{subst}
use edge_telemetry_daemon.Shared.{
  ℕ, ◌+◌, ◌-◌, ◌<◌, ◌≤◌, ◌≡◌, refl, sym, ◌∙◌, Bool, some, List, [], ◌∷◌, ◌++◌, map, arith, length,
  length-append, append_assoc, if_ind, ◌==◌,
}
use edge_telemetry_daemon.Shared.Merge.{Merge, ends, Merge-append}
use edge_telemetry_daemon.Shared.Time.{Time}
use edge_telemetry_daemon.Shared.Float.{Float}
use edge_telemetry_daemon.Outbox.{Event}
use edge_telemetry_daemon.Cgroup.Discover.{Files}
use edge_telemetry_daemon.Config.{Config}
use edge_telemetry_daemon.Agent.Usage.{inject_anomaly}
use edge_telemetry_daemon.Agent.Channels.{take}
use edge_telemetry_daemon.Agent.Events.Ticks.{tick-Delivered}
use edge_telemetry_daemon.Agent.{Channel, Host, new_agent, send, remove, subscribe, unsubscribe}
use edge_telemetry_daemon.Daemon.{
  Daemon, launch, build, receive, begin_tick, push_event, broadcast_event, reset_ticker, Step,
  ticks, pushes, broadcasts, resets, subscribes, receives, leaves, injects, works, cancels, stops,
  finishes, panics, returns, Reach, here, next,
}
use edge_telemetry_daemon.Daemon.Watch.Queue.{
  queue_of-append, queue_of-receive, queue_of-take, queue_of-remove, queue_of-send, send-identity,
  take-drop, take-le, queue_of-miss, queue_of-hit, some-same,
}
use edge_telemetry_daemon.Daemon.Watch.{queue_of, drop, IsOther, Watch, opens, offers, gets, others}

-- The channels have identities below `n`.
abbrev pub AllBelow : ℕ → List Channel → Type 0
AllBelow n [] = Unit
AllBelow n ((j, q) ∷ cs) = (j < n) × AllBelow n cs

queue_of-new :
    (n : ℕ) (cs : List Channel) → AllBelow n cs → queue_of n (cs ++ ((n, []) ∷ [])) ≡ some []
queue_of-new n [] b = queue_of-hit n n [] [] refl
queue_of-new n ((j, q) ∷ cs) (lt, b) =
    queue_of-miss n j q (cs ++ ((n, []) ∷ [])) (λ e. omega (arith, e)) ∙ queue_of-new n cs b

AllBelow-subscribe :
    (n : ℕ) (cs : List Channel) → AllBelow n cs → AllBelow (n + 1) (cs ++ ((n, []) ∷ []))
AllBelow-subscribe n [] b = (omega arith, tt)
AllBelow-subscribe n (c ∷ cs) (lt, b) = (omega (arith, lt), AllBelow-subscribe n cs b)

AllBelow-receive : (n i : ℕ) (cs : List Channel) → AllBelow n cs → AllBelow n (receive i cs)
unfolding receive
AllBelow-receive n i [] b = tt
AllBelow-receive n i ((j, q) ∷ cs) (lt, b) =
    if_ind (λ (xs : List Channel). AllBelow n xs) (i == j) (λ _. (lt, b))
      (λ _. (lt, AllBelow-receive n i cs b))

AllBelow-remove : (n i : ℕ) (cs : List Channel) → AllBelow n cs → AllBelow n (remove i cs)
unfolding remove
AllBelow-remove n i [] b = tt
AllBelow-remove n i ((j, q) ∷ cs) (lt, b) =
    if_ind (λ (xs : List Channel). AllBelow n xs) (i == j) (λ _. b)
      (λ _. (lt, AllBelow-remove n i cs b))

AllBelow-send :
    (n : ℕ) (e : Event) (cs : List Channel) → AllBelow n cs → AllBelow n (map (send e) cs)
AllBelow-send n e [] b = tt
AllBelow-send n e ((j, q) ∷ cs) (lt, b) =
    (subst (λ k. k < n) (sym (send-identity e (j, q))) lt, AllBelow-send n e cs b)

module _ {ℓ} {F : Type ℓ} ⦃f : Float F⦄ (h : Host F) where
  -- A new channel's identity is not one of an open channel.
  abbrev pub IsFresh : Daemon F → Type 0
  IsFresh d = AllBelow d.agent.next_channel d.agent.subs

  Step-IsFresh : {d e : Daemon F} → Step h d e → IsFresh d → IsFresh e
  unfolding subscribe unsubscribe inject_anomaly begin_tick push_event broadcast_event reset_ticker
  Step-IsFresh {d} (ticks s now p) b =
      subst (λ n. AllBelow n d.agent.subs) (sym (tick-Delivered h s now d.agent).2) b
  Step-IsFresh (pushes e es p) b = b
  Step-IsFresh {d} (broadcasts e es p) b = AllBelow-send d.agent.next_channel e d.agent.subs b
  Step-IsFresh (resets p) b = b
  Step-IsFresh {d} subscribes b = AllBelow-subscribe d.agent.next_channel d.agent.subs b
  Step-IsFresh {d} (receives j) b = AllBelow-receive d.agent.next_channel j d.agent.subs b
  Step-IsFresh {d} (leaves j) b = AllBelow-remove d.agent.next_channel j d.agent.subs b
  Step-IsFresh (injects p) b = b
  Step-IsFresh (works ps qs p mv) b = b
  Step-IsFresh cancels b = b
  Step-IsFresh (stops p looped) b = b
  Step-IsFresh (finishes p all) b = b
  Step-IsFresh (panics p) b = b
  Step-IsFresh (returns p rests) b = b

  Reach-IsFresh : {d e : Daemon F} → Reach h d e → IsFresh d → IsFresh e
  Reach-IsFresh here b = b
  Reach-IsFresh (next r st) b = Step-IsFresh st (Reach-IsFresh r b)

  pub launch-IsFresh :
      (fs : Files) (cfg : Config F) (now : Time) (ok : Bool) → IsFresh (launch h fs cfg now ok)
  unfolding launch build new_agent
  launch-IsFresh fs cfg now ok = tt

  -- The channel is open with at most 64 events in it; they and those received, with those that came
  -- when it was full, are the events offered, each once and in their order.
  abbrev pub Keeps : ℕ → Daemon F → List Event → List Event → List Event → Type 0
  Keeps i e offered received lost =
      (q : List Event) × (queue_of i e.agent.subs ≡ some q)
      × (length q ≤ 64)
      × Merge (received ++ q) lost offered

  Other-queue :
      (i : ℕ) {d e : Daemon F} (q : List Event) (st : Step h d e)
      → IsOther h i st
      → queue_of i d.agent.subs ≡ some q
      → queue_of i e.agent.subs ≡ some q
  unfolding subscribe unsubscribe inject_anomaly begin_tick push_event broadcast_event reset_ticker
  Other-queue i q (ticks s now looped) o p = p
  Other-queue i q (pushes e es at_push) o p = p
  Other-queue i q (broadcasts e es at_send) o p = absurd o
  Other-queue i q (resets done) o p = p
  Other-queue i {d} q subscribes o p = queue_of-append i d.agent.subs _ q p
  Other-queue i {d} q (receives j) o p = queue_of-receive i j d.agent.subs o ∙ p
  Other-queue i {d} q (leaves j) o p = queue_of-remove i j d.agent.subs o ∙ p
  Other-queue i q (injects flag) o p = p
  Other-queue i q (works ps qs same mv) o p = p
  Other-queue i q cancels o p = p
  Other-queue i q (stops done looped) o p = p
  Other-queue i q (finishes runs all) o p = p
  Other-queue i q (panics gone) o p = p
  Other-queue i q (returns drained rests) o p = p

  offers-Keeps :
      (i : ℕ) (e : Daemon F) (offered received lost q : List Event) (x : Event) (xs : List Event)
      → queue_of i e.agent.subs ≡ some q
      → Keeps i e offered received lost
      → Keeps i
          (broadcast_event h x xs e)
          (offered ++ (x ∷ []))
          received
          (lost ++ drop (64 - length q) (x ∷ []))
  unfolding broadcast_event
  offers-Keeps i e offered received lost q x xs found (r, open_now, le, m) =
      let es = x ∷ [] in
      let room = 64 - length q in
      let same : r ≡ q = some-same (sym open_now ∙ found) in
      let fits : length q ≤ 64 = subst (λ x. length x ≤ 64) same le in
      let merged : Merge (received ++ q) lost offered =
        subst (λ x. Merge (received ++ x) lost offered) same m in
      (
        q ++ take room es,
        queue_of-send i e.agent.subs x q room (omega (arith, fits)) found,
        omega (arith, fits, length-append q (take room es), take-le room es),
        subst (λ xs. Merge xs (lost ++ drop room es) (offered ++ es))
            (append_assoc received q (take room es)) (Merge-append merged (take-drop room es)),
      )

  gets-Keeps :
      (i : ℕ) (e : Daemon F) (offered received lost q : List Event) (x : Event)
      → queue_of i e.agent.subs ≡ some (x ∷ q)
      → Keeps i e offered received lost
      → Keeps i
          (record e { agent = record (e.agent) { subs = receive i e.agent.subs } })
          offered
          (received ++ (x ∷ []))
          lost
  gets-Keeps i e offered received lost q x found (r, open_now, le, m) =
      let same : r ≡ x ∷ q = some-same (sym open_now ∙ found) in
      let fits : length (x ∷ q) ≤ 64 = subst (λ (y : List Event). length y ≤ 64) same le in
      (
        q,
        queue_of-take i e.agent.subs x q found,
        omega (arith, fits),
        subst (λ xs. Merge xs lost offered) (sym (append_assoc received (x ∷ []) q))
            (subst (λ y. Merge (received ++ y) lost offered) same m),
      )

  pub Watch-Keeps :
      (d : Daemon F) (i : ℕ) {e : Daemon F} {offered received lost : List Event}
      → IsFresh d
      → Watch h d i e offered received lost
      → Keeps i e offered received lost
  unfolding subscribe
  Watch-Keeps d i fresh (opens {e} r same) = (
    [],
    subst (λ n. queue_of n (e.agent.subs ++ ((e.agent.next_channel, []) ∷ [])) ≡ some []) same
        (queue_of-new e.agent.next_channel e.agent.subs (Reach-IsFresh r fresh)),
    omega arith,
    ends,
  )
  Watch-Keeps d i fresh (offers {e} {offered} {received} {lost} q w found x xs at_send) =
      offers-Keeps i e offered received lost q x xs found (Watch-Keeps d i fresh w)
  Watch-Keeps d i fresh (gets {e} {offered} {received} {lost} x q w found) =
      gets-Keeps i e offered received lost q x found (Watch-Keeps d i fresh w)
  Watch-Keeps d i fresh (others w st o) =
      let (q, found, le, m) = Watch-Keeps d i fresh w in (q, Other-queue i q st o found, le, m)
