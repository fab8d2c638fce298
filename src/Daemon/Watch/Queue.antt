-- ===== src/Daemon/Watch/Queue.antt =====
-- cmd/agent/main.go: what the operations on the subscribers do to the channel of one of them.
use edge_telemetry_daemon.Shared.{
  ℕ, zero, suc, ◌+◌, ◌≤◌, ◌≡◌, ◌≢◌, ◌⊎◌, inl, inr, refl, sym, ap, ◌∙◌, some, List, [], ◌∷◌, ◌++◌,
  map, arith, length, if_ind, Bool-cases, if◌then◌else◌, ◌==◌, ltb,
}
use edge_telemetry_daemon.Shared.Merge.{Merge, ends, left, Merge-right}
use edge_telemetry_daemon.Outbox.{Event}
use edge_telemetry_daemon.Agent.Channels.{take, send_all, send_all-take}
use edge_telemetry_daemon.Agent.{Channel, send, remove}
use edge_telemetry_daemon.Daemon.{receive, drop_first}
use edge_telemetry_daemon.Daemon.Watch.{queue_of, drop}

same_channel : (i k : ℕ) → (i ≡ k) ⊎ (i ≢ k)
same_channel i k = elim (Bool-cases (i == k)) [
  | inl hit ↦ inl (ground arith)
  | inr miss ↦ inr (λ e. ground (arith, e))
]

pub some-same : {xs ys : List Event} → some xs ≡ some ys → xs ≡ ys
some-same h = cc

drop_first-head : (p : List Event) (x : Event) (q : List Event) → p ≡ x ∷ q → drop_first p ≡ q
unfolding drop_first
drop_first-head [] x q h = absurd cc
drop_first-head (y ∷ p) x q h = cc

pub queue_of-hit :
    (i k : ℕ) (p : List Event) (cs : List Channel) → i ≡ k → queue_of i ((k, p) ∷ cs) ≡ some p
unfolding queue_of
queue_of-hit i k p cs e = ground (arith, e)

pub queue_of-miss :
    (i k : ℕ) (p : List Event) (cs : List Channel)
    → i ≢ k
    → queue_of i ((k, p) ∷ cs) ≡ queue_of i cs
unfolding queue_of
queue_of-miss i k p cs n =
    if_ind (λ r. r ≡ queue_of i cs) (i == k) (λ yes. absurd (n (ground arith))) (λ _. refl)

queue_of-skip :
    (i k : ℕ) (p : List Event) (xs ys : List Channel)
    → queue_of i xs ≡ queue_of i ys
    → queue_of i ((k, p) ∷ xs) ≡ queue_of i ((k, p) ∷ ys)
unfolding queue_of
queue_of-skip i k p xs ys h = ap (λ r. if i == k then some p else r) h

pub queue_of-append :
    (i : ℕ) (cs : List Channel) (c : Channel) (q : List Event)
    → queue_of i cs ≡ some q
    → queue_of i (cs ++ (c ∷ [])) ≡ some q
queue_of-append i [] c q h = unfold queue_of in absurd cc
queue_of-append i ((k, p) ∷ cs) c q h = elim (same_channel i k) [
  | inl e ↦ queue_of-hit i k p (cs ++ (c ∷ [])) e ∙ sym (queue_of-hit i k p cs e) ∙ h
  | inr n ↦
      queue_of-miss i k p (cs ++ (c ∷ [])) n
      ∙ queue_of-append i cs c q (sym (queue_of-miss i k p cs n) ∙ h)
]

pub queue_of-receive :
    (i j : ℕ) (cs : List Channel) → i ≢ j → queue_of i (receive j cs) ≡ queue_of i cs
unfolding receive
queue_of-receive i j [] n = refl
queue_of-receive i j ((k, p) ∷ cs) n =
    if_ind (λ (r : List Channel). queue_of i r ≡ queue_of i ((k, p) ∷ cs)) (j == k)
      (λ yes.
        let other : i ≢ k = λ e. n (ground (arith, e)) in
        queue_of-miss i k (drop_first p) cs other ∙ sym (queue_of-miss i k p cs other))
      (λ _. queue_of-skip i k p (receive j cs) cs (queue_of-receive i j cs n))

pub queue_of-take :
    (i : ℕ) (cs : List Channel) (x : Event) (q : List Event)
    → queue_of i cs ≡ some (x ∷ q)
    → queue_of i (receive i cs) ≡ some q
unfolding receive
queue_of-take i [] x q h = unfold queue_of in absurd cc
queue_of-take i ((k, p) ∷ cs) x q h =
    if_ind (λ (r : List Channel). queue_of i r ≡ some q) (i == k)
      (λ yes.
        let e : i ≡ k = ground arith in
        queue_of-hit i k (drop_first p) cs e
        ∙ ap some (drop_first-head p x q (some-same (sym (queue_of-hit i k p cs e) ∙ h))))
      (λ no.
        let n : i ≢ k = λ e. ground (arith, e) in
        queue_of-miss i k p (receive i cs) n
        ∙ queue_of-take i cs x q (sym (queue_of-miss i k p cs n) ∙ h))

pub queue_of-remove :
    (i j : ℕ) (cs : List Channel) → i ≢ j → queue_of i (remove j cs) ≡ queue_of i cs
unfolding remove
queue_of-remove i j [] n = refl
queue_of-remove i j ((k, p) ∷ cs) n =
    if_ind (λ (r : List Channel). queue_of i r ≡ queue_of i ((k, p) ∷ cs)) (j == k)
      (λ yes. sym (queue_of-miss i k p cs (λ e. n (ground (arith, e)))))
      (λ _. queue_of-skip i k p (remove j cs) cs (queue_of-remove i j cs n))

pub send-identity : (e : Event) (c : Channel) → (send e c).0 ≡ c.0
unfolding send
send-identity e (k, p) =
    if_ind (λ (c : Channel). c.0 ≡ k) (ltb (length p) 64) (λ _. refl) (λ _. refl)

send-take :
    (i : ℕ) (q : List Event) (e : Event) (room : ℕ)
    → length q + room ≡ 64
    → send e (i, q) ≡ (i, q ++ take room (e ∷ []))
unfolding send_all
send-take i q e room le = send_all-take i q (e ∷ []) room le

-- A broadcast sends its event to the channel.
pub queue_of-send :
    (i : ℕ) (cs : List Channel) (e : Event) (q : List Event) (room : ℕ)
    → length q + room ≡ 64
    → queue_of i cs ≡ some q
    → queue_of i (map (send e) cs) ≡ some (q ++ take room (e ∷ []))
queue_of-send i [] e q room le h = unfold queue_of in absurd cc
queue_of-send i ((k, p) ∷ cs) e q room le h =
    let (j, r) = send e (k, p) in
    let id : j ≡ k = send-identity e (k, p) in
    elim (same_channel i k) [
      | inl hit ↦
          let same : p ≡ q = some-same (sym (queue_of-hit i k p cs hit) ∙ h) in
          queue_of-hit i j r (map (send e) cs) (hit ∙ sym id)
          ∙ ap (λ (c : Channel). some c.1) (ap (λ x. send e (k, x)) same ∙ send-take k q e room le)
      | inr n ↦
          queue_of-miss i j r (map (send e) cs) (λ hit. n (hit ∙ id))
          ∙ queue_of-send i cs e q room le (sym (queue_of-miss i k p cs n) ∙ h)
    ]

pub take-drop : (n : ℕ) (es : List Event) → Merge (take n es) (drop n es) es
unfolding take drop
take-drop zero es = Merge-right es
take-drop (suc n) [] = ends
take-drop (suc n) (e ∷ es) = left e (take-drop n es)

pub take-le : (n : ℕ) (es : List Event) → length (take n es) ≤ n
unfolding take
take-le zero es = omega arith
take-le (suc n) [] = omega arith
take-le (suc n) (e ∷ es) = omega (arith, take-le n es)
