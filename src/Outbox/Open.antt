-- ===== src/Outbox/Open.antt =====
-- An open outbox that drops its oldest events refuses nothing; Pop leaves the flag and the policy alone.
use edge_telemetry_daemon.Shared.{
  ℕ, ◌≡◌, refl, ap, Bool, true, false, Option, none, some, List, [], ◌∷◌, ◌++◌, length, if_ind, ltb,
  ◌==◌, arith,
}
use edge_telemetry_daemon.Outbox.{
  Outbox, Event, Error, Outcome, event, failed, waits, Config, new_outbox, close, DropPolicy,
  drop_newest, drop_oldest, push, push_open, push_full, pop_enter, wake_closed, receive_token,
  wake_token, take_head, drain_token,
}
use edge_telemetry_daemon.Outbox.Account.{Log, note_push, oldest}

-- The outbox is open and drops its oldest events; the push returned nil.
abbrev pub IsLossy : Outbox → Type 0
IsLossy o = (o.closed ≡ false) × (o.policy ≡ drop_oldest)

abbrev Pushed : Outbox × Option Error → Type 0
Pushed (o, err) = IsLossy o × (err ≡ none)

push_full-Pushed :
    (p : DropPolicy) (o : Outbox) (e : Event)
    → p ≡ drop_oldest
    → IsLossy o
    → Pushed (push_full p o e)
unfolding push_full
push_full-Pushed drop_newest o e h l = absurd cc
push_full-Pushed drop_oldest o e h l = (l, refl)

pub push-Pushed : (o : Outbox) (e : Event) → IsLossy o → Pushed (push o e)
unfolding push push_open
push-Pushed o e (opened, drops) =
    if_ind Pushed o.closed (λ yes. absurd cc)
      λ _.
        if_ind Pushed (o.count == o.capacity)
          (λ _. push_full-Pushed o.policy o e drops (opened, drops))
          λ _.
            if_ind Pushed (ltb o.count o.capacity)
              (λ _.
                if_ind (λ (r : Outbox). Pushed (r, none)) (ltb o.sem o.capacity)
                  (λ _. ((opened, drops), refl)) (λ _. ((opened, drops), refl)))
              (λ _. ((opened, drops), refl))

oldest-accepted : (es : List Event) (l : Log) → (oldest es l).accepted ≡ l.accepted
oldest-accepted [] l = refl
oldest-accepted (e ∷ es) l = refl

-- A push that returned nil is logged as accepted.
pub note_push-accepted :
    (before : List Event) (limit : ℕ) (e : Event) (l : Log)
    → (note_push before limit e none l).accepted ≡ l.accepted ++ (e ∷ [])
unfolding note_push
note_push-accepted before limit e l =
    if_ind (λ (r : Log). r.accepted ++ (e ∷ []) ≡ l.accepted ++ (e ∷ [])) (length before == limit)
      (λ _. ap (λ xs. xs ++ (e ∷ [])) (oldest-accepted before l)) (λ _. refl)

pub new_outbox-closed :
    (cfg : Config) → ((new_outbox cfg).closed ≡ false) × ((new_outbox cfg).policy ≡ cfg.drop_policy)
unfolding new_outbox
new_outbox-closed cfg = (refl, refl)

pub close-closed : (o : Outbox) → ((close o).closed ≡ true) × ((close o).policy ≡ o.policy)
unfolding close
close-closed o =
    if_ind (λ (r : Outbox). (r.closed ≡ true) × (r.policy ≡ o.policy)) o.closed (λ yes. (yes, refl))
      (λ _. (refl, refl))

-- The flag and the policy are those of the outbox before.
abbrev pub IsLike : Outbox → Outbox → Type 0
IsLike o r = (r.closed ≡ o.closed) × (r.policy ≡ o.policy)

abbrev Pops : {A : Type 0} → Outbox → Outbox × A → Type 0
Pops o r = IsLike o r.0

drained : (o : Outbox) (r : Outbox) → IsLike o r → IsLike o (drain_token r)
drained o r l = if_ind (IsLike o) (ltb 0 r.sem) (λ _. l) (λ _. l)

pub pop_enter-IsLike : (done : Bool) (o : Outbox) → Pops o (pop_enter done o)
unfolding pop_enter
pop_enter-IsLike done o =
    if_ind (Pops o) done (λ _. (refl, refl))
      λ _.
        if_ind (Pops o) (ltb 0 o.count) (λ _. drained o (take_head o) (refl, refl))
          λ _. if_ind (Pops o) o.closed (λ _. (refl, refl)) (λ _. (refl, refl))

pub wake_closed-IsLike : (o : Outbox) → Pops o (wake_closed o)
unfolding wake_closed
wake_closed-IsLike o =
    if_ind (Pops o) (ltb 0 o.count) (λ _. drained o (take_head o) (refl, refl)) (λ _. (refl, refl))

pub wake_token-IsLike : (o : Outbox) → Pops o (wake_token o)
unfolding wake_token
wake_token-IsLike o =
    if_ind (Pops o) (ltb 0 o.count) (λ _. (refl, refl))
      λ _. if_ind (Pops o) o.closed (λ _. (refl, refl)) (λ _. (refl, refl))

pub receive_token-IsLike : (o r : Outbox) → receive_token o ≡ some r → IsLike o r
unfolding receive_token
receive_token-IsLike o r e = ground arith

-- A section of Pop that does not end in an error.
abbrev pub IsLive : Outcome → Type 0
IsLive (event e) = Unit
IsLive (failed err) = ⊥
IsLive waits = Unit

abbrev Lives : Outbox × Outcome → Type 0
Lives (o, out) = IsLive out

-- While the outbox is open and the context is live, Pop returns no error.
pub pop_enter-IsLive : (o : Outbox) → o.closed ≡ false → Lives (pop_enter false o)
unfolding pop_enter
pop_enter-IsLive o opened =
    if_ind Lives (ltb 0 o.count) (λ _. tt)
      λ _. if_ind Lives o.closed (λ closed_now. absurd cc) (λ _. tt)

pub wake_token-IsLive : (o : Outbox) → o.closed ≡ false → Lives (wake_token o)
unfolding wake_token
wake_token-IsLive o opened =
    if_ind Lives (ltb 0 o.count) (λ _. tt)
      λ _. if_ind Lives o.closed (λ closed_now. absurd cc) (λ _. tt)
