-- ===== src/Transport/Retry.antt =====
-- How the retry loop ends, and how much it does.

use mathlib.Core.Path.{subst}
use edge_telemetry_daemon.Shared.{
  ℕ, zero, suc, ◌+◌, ◌-◌, ◌≤◌, ◌≡◌, refl, sym, ap, ◌∙◌, true, false, arith, Option, none, ◌⊎◌, inl,
  inr, Bool-cases, some, [], length, length-append,
}
use edge_telemetry_daemon.Shared.Int.{pos}
use edge_telemetry_daemon.Shared.Float.{Float}
use edge_telemetry_daemon.Outbox.{Event}
use edge_telemetry_daemon.Transport.{
  DispatcherConfig, PostError, Attempt, Outcome, delivered, cancelled, exhausted, Work, result,
  before, is_interrupted, retry_from, rounds_of, dispatch_with_retry,
}

-- `k` more rounds than `r`, counted so that the loop computes.
abbrev more : ℕ → ℕ → ℕ
more zero r = r
more (suc k) r = suc (more k r)

more-eq : (k r : ℕ) → more k r ≡ k + r
more-eq zero r = omega arith
more-eq (suc k) r = omega (arith, more-eq k r)

module _ {ℓ} {F : Type ℓ} ⦃f : Float F⦄ (c : DispatcherConfig) (evt : Event)
    (env : ℕ → Attempt F) where
  -- Round `k` is not interrupted and its request fails.
  abbrev pub Fails : ℕ → Type 0
  Fails k = (is_interrupted c evt env k ≡ false) × ((e : PostError) × (result c evt env k ≡ some e))

  -- Rounds `a` up to `a + k` fail.
  abbrev pub FailFrom : ℕ → ℕ → Type 0
  FailFrom a zero = Unit
  FailFrom a (suc k) = Fails a × FailFrom (suc a) k

  before-posts : (k : ℕ) (w : Work) → (before c evt env k w).posts ≡ w.posts
  unfolding before
  before-posts zero w = refl
  before-posts (suc k) w = refl

  before-sleeps : (k : ℕ) (w : Work) → length (before c evt env k w).sleeps ≤ length w.sleeps + 1
  unfolding before
  before-sleeps zero w = omega arith
  before-sleeps (suc k) w = omega (arith, length-append w.sleeps)

  pub after_post : ℕ → Work → Work
  after_post a w = let w' = before c evt env a w in record w' { posts = w'.posts + 1 }

  pub retry_from-cancelled :
      (r a : ℕ) (last : Option PostError) (w : Work)
      → is_interrupted c evt env a ≡ true
      → retry_from c evt env (suc r) a last w ≡ (cancelled, before c evt env a w)
  unfolding retry_from
  retry_from-cancelled r a last w stop = simp (retry_from, stop)

  pub retry_from-good :
      (r a : ℕ) (last : Option PostError) (w : Work)
      → is_interrupted c evt env a ≡ false
      → result c evt env a ≡ none
      → retry_from c evt env (suc r) a last w ≡ (delivered, after_post a w)
  unfolding retry_from after_post
  retry_from-good r a last w clear good = simp (retry_from, clear, good)

  pub retry_from-bad :
      (r a : ℕ) (last : Option PostError) (w : Work) (err : PostError)
      → is_interrupted c evt env a ≡ false
      → result c evt env a ≡ some err
      → retry_from c evt env (suc r) a last w
        ≡ retry_from c evt env r (suc a) (some err) (after_post a w)
  unfolding retry_from after_post
  retry_from-bad r a last w err clear bad = simp (retry_from, clear, bad)

  pub retry_from-done :
      (a : ℕ) (last : Option PostError) (w : Work)
      → retry_from c evt env 0 a last w ≡ (exhausted last, w)
  unfolding retry_from
  retry_from-done a last w = refl

  after_post-posts : (a : ℕ) (w : Work) → (after_post a w).posts ≡ w.posts + 1
  unfolding after_post
  after_post-posts a w = omega (arith, before-posts a w)

  after_post-sleeps :
      (a : ℕ) (w : Work) → length (after_post a w).sleeps ≡ length (before c evt env a w).sleeps
  unfolding after_post
  after_post-sleeps a w = refl

  retry_from-delivered :
      (k r a b : ℕ) (last : Option PostError) (w : Work)
      → FailFrom a k
      → a + k ≡ b
      → is_interrupted c evt env b ≡ false
      → result c evt env b ≡ none
      → let (out, w') = retry_from c evt env (more k (suc r)) a last w in
        (out ≡ delivered) × (w'.posts ≡ w.posts + k + 1)
  retry_from-delivered zero r a b last w fails e clear good =
      let a-b : a ≡ b = omega arith in
      let eq =
        retry_from-good r a last w (subst (λ x. is_interrupted c evt env x ≡ false) (sym a-b) clear)
          (subst (λ x. result c evt env x ≡ none) (sym a-b) good) in
      (
        ap (λ (p : Outcome × Work). p.0) eq,
        ap (λ (p : Outcome × Work). p.1.posts) eq ∙ omega (arith, after_post-posts a w),
      )
  retry_from-delivered (suc k) r a b last w ((clear_a, (err, bad)), fails) e clear good =
      let eq = retry_from-bad (more k (suc r)) a last w err clear_a bad in
      let rest =
        retry_from-delivered k r (suc a) b (some err) (after_post a w) fails (omega arith) clear
          good in
      (
        ap (λ (p : Outcome × Work). p.0) eq ∙ rest.0,
        ap (λ (p : Outcome × Work). p.1.posts) eq ∙ rest.1 ∙ omega (arith, after_post-posts a w),
      )

  retry_from-exhausted :
      (k a b : ℕ) (last : Option PostError) (w : Work)
      → FailFrom a (suc k)
      → a + k ≡ b
      → let (out, w') = retry_from c evt env (suc k) a last w in
        (out ≡ exhausted (result c evt env b)) × (w'.posts ≡ w.posts + suc k)
  retry_from-exhausted zero a b last w ((clear, (err, bad)), fails) e =
      let a-b : a ≡ b = omega arith in
      let eq = retry_from-bad 0 a last w err clear bad ∙ retry_from-done (suc a) (some err) _ in
      (
        ap (λ (p : Outcome × Work). p.0) eq
            ∙ ap exhausted (sym bad ∙ ap (λ x. result c evt env x) a-b),
        ap (λ (p : Outcome × Work). p.1.posts) eq ∙ omega (arith, after_post-posts a w),
      )
  retry_from-exhausted (suc k) a b last w ((clear_a, (err, bad)), fails) e =
      let eq = retry_from-bad (suc k) a last w err clear_a bad in
      let rest = retry_from-exhausted k (suc a) b (some err) (after_post a w) fails (omega arith) in
      (
        ap (λ (p : Outcome × Work). p.0) eq ∙ rest.0,
        ap (λ (p : Outcome × Work). p.1.posts) eq ∙ rest.1 ∙ omega (arith, after_post-posts a w),
      )

  -- How an option's two cases are split with the equation.
  option_ind : (o : Option PostError) → (o ≡ none) ⊎ ((e : PostError) × (o ≡ some e))
  option_ind none = inl refl
  option_ind (some e) = inr (e, refl)

  -- Bounds on what a round and `r` further ones leave, from bounds on those.
  round-bounds :
      (r a : ℕ) (last : Option PostError) (w : Work)
      → ((err : PostError)
          → let w' = (retry_from c evt env r (suc a) (some err) (after_post a w)).1 in
            (w'.posts ≤ w.posts + suc r)
            × (length w'.sleeps ≤ length (before c evt env a w).sleeps + r))
      → let w' = (retry_from c evt env (suc r) a last w).1 in
        (w'.posts ≤ w.posts + suc r) × (length w'.sleeps ≤ length (before c evt env a w).sleeps + r)
  round-bounds r a last w further = elim (Bool-cases (is_interrupted c evt env a)) [
    | inl stop ↦
        rw (retry_from-cancelled r a last w stop) (omega (arith, before-posts a w), omega arith)
    | inr clear ↦ elim (option_ind (result c evt env a)) [
      | inl good ↦
          rw (retry_from-good r a last w clear good)
            (omega (arith, after_post-posts a w), omega (arith, after_post-sleeps a w))
      | inr (err, bad) ↦ rw (retry_from-bad r a last w err clear bad) (further err)
    ]
  ]

  retry_from-bounds :
      (r a : ℕ) (last : Option PostError) (w : Work)
      → let w' = (retry_from c evt env (suc r) a last w).1 in
        (w'.posts ≤ w.posts + suc r) × (length w'.sleeps ≤ length (before c evt env a w).sleeps + r)
  retry_from-bounds zero a last w = round-bounds 0 a last w (λ err.
      rw (retry_from-done (suc a) (some err) (after_post a w))
        (omega (arith, after_post-posts a w), omega (arith, after_post-sleeps a w)))
  retry_from-bounds (suc r) a last w = round-bounds (suc r) a last w (λ err.
      let rest = retry_from-bounds r (suc a) (some err) (after_post a w) in
      (
        omega (arith, rest.0, after_post-posts a w),
        omega (arith, rest.1, after_post-sleeps a w, before-sleeps (suc a) (after_post a w)),
      ))

  -- When the first `k` rounds fail without being interrupted and the next one succeeds within
  -- the retries allowed, dispatchWithRetry delivers the event and has made `k + 1` requests.
  pub dispatch-delivered :
      (n k : ℕ) (retries : Option ℕ)
      → c.max_retries ≡ pos n
      → k ≤ n
      → FailFrom 0 k
      → is_interrupted c evt env k ≡ false
      → result c evt env k ≡ none
      → let (out, w) = dispatch_with_retry c evt env retries in
        (out ≡ delivered) × (w.posts ≡ k + 1)
  unfolding dispatch_with_retry
  dispatch-delivered n k retries allowed within fails clear good =
      let rounds : rounds_of c.max_retries ≡ more k (suc (n - k)) =
        rw allowed (omega (arith, more-eq k (suc (n - k)))) in
      let rest =
        retry_from-delivered k (n - k) 0 k none
          (record { posts = 0; sleeps = []; retries = retries }) fails (omega arith) clear good in
      rw rounds (rest.0, omega (arith, rest.1))

  -- When every round that the retries allow fails without being interrupted, dispatchWithRetry
  -- returns the last round's error and has made a request in each.
  pub dispatch-exhausted :
      (n : ℕ) (retries : Option ℕ)
      → c.max_retries ≡ pos n
      → FailFrom 0 (suc n)
      → let (out, w) = dispatch_with_retry c evt env retries in
        (out ≡ exhausted (result c evt env n)) × (w.posts ≡ n + 1)
  unfolding dispatch_with_retry
  dispatch-exhausted n retries allowed fails =
      let rounds : rounds_of c.max_retries ≡ suc n = rw allowed (omega arith) in
      let rest =
        retry_from-exhausted n 0 n none (record { posts = 0; sleeps = []; retries = retries }) fails
          (omega arith) in
      rw rounds (rest.0, omega (arith, rest.1))

  -- However the rounds end, dispatchWithRetry makes at most one request more than the retries
  -- allowed, and sleeps at most as often as they allow.
  pub dispatch-bounds :
      (n : ℕ) (retries : Option ℕ)
      → c.max_retries ≡ pos n
      → let w = (dispatch_with_retry c evt env retries).1 in
        (w.posts ≤ n + 1) × (length w.sleeps ≤ n)
  unfolding dispatch_with_retry before
  dispatch-bounds n retries allowed =
      let rounds : rounds_of c.max_retries ≡ suc n = rw allowed (omega arith) in
      let bounds =
        retry_from-bounds n 0 none (record { posts = 0; sleeps = []; retries = retries }) in
      rw rounds (omega (arith, bounds.0), omega (arith, bounds.1))
