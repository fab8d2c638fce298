-- ===== src/Transport/Worker.antt =====
-- What a worker's counters say of the events that it popped.
use mathlib.Core.Option
use mathlib.Core.Path.{subst}
use edge_telemetry_daemon.Shared.{
  ℕ, zero, suc, none, Option, Bool-cases, refl, ◌+◌, ◌-◌, ◌^◌, ◌<◌, ◌≡◌, ap, sym, ◌∙◌, false, arith,
  some, List, [], ◌∷◌, length, inl, inr, inc64,
}
use edge_telemetry_daemon.Shared.Float.{Float}
use edge_telemetry_daemon.Transport.{
  DispatcherConfig, Counters, Job, Outcome, delivered, cancelled, exhausted, dispatch_with_retry,
  settle, work, worker_loop, PostError, Attempt, Work, is_interrupted, result, retry_from,
  rounds_of,
}
use edge_telemetry_daemon.Outbox.{Event}
use edge_telemetry_daemon.Transport.Retry.{
  retry_from-cancelled, retry_from-good, retry_from-bad, retry_from-done,
}

-- The counters show `d` events dispatched and `n` failed.
abbrev pub Show : Counters → ℕ → ℕ → Type 0
Show m d n = (m.dispatched ≡ some d) × (m.failures ≡ some n)

-- The context was done at the end of none of the events.
abbrev pub Live {ℓ} : {F : Type ℓ} → List (Job F) → Type 0
Live [] = Unit
Live (job ∷ jobs) = (job.done ≡ false) × Live jobs

-- One for an event that was delivered, and one for any other.
abbrev pub delivers : Outcome → ℕ
delivers delivered = 1
delivers cancelled = 0
delivers (exhausted e) = 0

abbrev pub fails : Outcome → ℕ
fails delivered = 0
fails cancelled = 1
fails (exhausted e) = 1

delivers-fails : (out : Outcome) → delivers out + fails out ≡ 1
delivers-fails delivered = refl
delivers-fails cancelled = refl
delivers-fails (exhausted e) = refl

settle-Show :
    (out : Outcome) (m : Counters) (d n : ℕ)
    → Show m d n
    → d + n < 2 ^ 64 - 1
    → Show (settle false out m) (d + delivers out) (n + fails out)
unfolding settle
settle-Show delivered m d n (p, q) small =
    (ap (Option.map inc64) p ∙ ap some (omega arith), q ∙ ap some (omega arith))
settle-Show cancelled m d n (p, q) small =
    (p ∙ ap some (omega arith), ap (Option.map inc64) q ∙ ap some (omega arith))
settle-Show (exhausted e) m d n (p, q) small =
    (p ∙ ap some (omega arith), ap (Option.map inc64) q ∙ ap some (omega arith))

module _ {ℓ} {F : Type ℓ} ⦃f : Float F⦄ (c : DispatcherConfig) where
  retry_from-round :
      (evt : Event) (env : ℕ → Attempt F) (r a : ℕ) (last : Option PostError) (w v : Work)
      → is_interrupted c evt env a ≡ false
      → (x : Option PostError) → result c evt env a ≡ x
      → ((err : PostError) (y z : Work)
          → (retry_from c evt env r (suc a) (some err) y).0
            ≡ (retry_from c evt env r (suc a) (some err) z).0)
      → (retry_from c evt env (suc r) a last w).0 ≡ (retry_from c evt env (suc r) a last v).0
  retry_from-round evt env r a last w v clear none good rest =
      ap (λ (x : Outcome × Work). x.0) (retry_from-good c evt env r a last w clear good)
      ∙ sym (ap (λ (x : Outcome × Work). x.0) (retry_from-good c evt env r a last v clear good))
  retry_from-round evt env r a last w v clear (some err) bad rest =
      ap (λ (x : Outcome × Work). x.0) (retry_from-bad c evt env r a last w err clear bad)
      ∙ rest err _ _
      ∙ sym (ap (λ (x : Outcome × Work). x.0) (retry_from-bad c evt env r a last v err clear bad))

  retry_from-outcome :
      (evt : Event) (env : ℕ → Attempt F) (r a : ℕ) (last : Option PostError) (w v : Work)
      → (retry_from c evt env r a last w).0 ≡ (retry_from c evt env r a last v).0
  retry_from-outcome evt env zero a last w v =
      ap (λ (x : Outcome × Work). x.0) (retry_from-done c evt env a last w)
      ∙ sym (ap (λ (x : Outcome × Work). x.0) (retry_from-done c evt env a last v))
  retry_from-outcome evt env (suc r) a last w v = elim (Bool-cases (is_interrupted c evt env a)) [
    | inl stop ↦
        ap (λ (x : Outcome × Work). x.0) (retry_from-cancelled c evt env r a last w stop)
        ∙ sym (ap (λ (x : Outcome × Work). x.0) (retry_from-cancelled c evt env r a last v stop))
    | inr clear ↦
        retry_from-round evt env r a last w v clear (result c evt env a) refl
          (λ err x y. retry_from-outcome evt env r (suc a) (some err) x y)
  ]

  -- How the dispatch of an event ends, where no counter is given.
  abbrev pub outcome : Job F → Outcome
  outcome job = (dispatch_with_retry c job.event job.env none).0

  outcome-any :
      (job : Job F) (k : Option ℕ) → (dispatch_with_retry c job.event job.env k).0 ≡ outcome job
  unfolding dispatch_with_retry
  outcome-any job k = retry_from-outcome job.event job.env (rounds_of c.max_retries) 0 none _ _

  -- Of some events, those that the dispatcher delivers, and the others.
  abbrev pub deliveries : List (Job F) → ℕ
  deliveries [] = 0
  deliveries (job ∷ jobs) = delivers (outcome job) + deliveries jobs

  abbrev pub losses : List (Job F) → ℕ
  losses [] = 0
  losses (job ∷ jobs) = fails (outcome job) + losses jobs

  work-Show :
      (job : Job F) (m : Counters) (d n : ℕ)
      → job.done ≡ false
      → Show m d n
      → d + n < 2 ^ 64 - 1
      → Show (work c job m) (d + delivers (outcome job)) (n + fails (outcome job))
  unfolding work
  work-Show job m d n live shown small =
      let r = dispatch_with_retry c job.event job.env m.retries in
      let m' : Counters = record m { retries = r.1.retries } in
      subst (λ (out : Outcome). Show (settle job.done r.0 m') (d + delivers out) (n + fails out))
        (outcome-any job m.retries)
        (subst (λ b. Show (settle b r.0 m') (d + delivers r.0) (n + fails r.0)) (sym live)
          (settle-Show r.0 m' d n shown small))

  -- While the context is live and fewer than 2^64 events came, the counter of dispatched alerts grows by
  -- the number of the events that the worker popped and the dispatcher delivered, and the counter of
  -- failed alerts by the number of the others: each event is counted once.
  pub worker_loop-counts :
      (jobs : List (Job F)) (m : Counters) (d n : ℕ)
      → Live jobs
      → Show m d n
      → d + n + length jobs < 2 ^ 64
      → Show (worker_loop c jobs m) (d + deliveries jobs) (n + losses jobs)
        × (deliveries jobs + losses jobs ≡ length jobs)
  unfolding worker_loop
  worker_loop-counts [] m d n live (p, q) small =
      ((p ∙ ap some (omega arith), q ∙ ap some (omega arith)), omega arith)
  worker_loop-counts (job ∷ jobs) m d n (now, later) shown small =
      let out = outcome job in
      let once = delivers-fails out in
      let ((p, q), whole) =
        worker_loop-counts jobs (work c job m) (d + delivers out) (n + fails out) later
          (work-Show job m d n now shown (omega arith)) (omega (arith, once)) in
      ((p ∙ ap some (omega arith), q ∙ ap some (omega arith)), omega (arith, once, whole))
