-- ===== src/Filter/Heartbeat/Extremes.antt =====
-- The least and the greatest value of a summary.
use edge_telemetry_daemon.Shared.{
  ◌≡◌, refl, ap, sym, ◌∙◌, Bool, true, false, not, arith, List, [], ◌∷◌, if◌then◌else◌,
}
use mathlib.Core.Path.{subst}
use edge_telemetry_daemon.Shared.Time.{Time}
use edge_telemetry_daemon.Shared.Float.{Float, IsOrdered}
use edge_telemetry_daemon.Filter.Heartbeat.{HeartbeatAggregator, lower, raise, observe, flush}
use edge_telemetry_daemon.Filter.Heartbeat.Window.{Sample, vals, observe_all, IsFresh}

abbrev pub All {ℓ κ} : {A : Type ℓ} → (A → Type κ) → List A → Type κ
All P [] = Unit
All P (x ∷ xs) = P x × All P xs

-- `x` is an element of the list.
pub data Has {ℓ} {A : Type ℓ} (x : A) : List A → Type ℓ where
  first : {y : A} {ys : List A} → x ≡ y → Has x (y ∷ ys)
  later : {y : A} {ys : List A} → Has x ys → Has x (y ∷ ys)

-- One of two heads is an element of the list with both.
widen {ℓ} :
    {A : Type ℓ} (b : Bool) (y z : A) {x : A} {ys : List A}
    → Has x ((if b then z else y) ∷ ys)
    → Has x (y ∷ z ∷ ys)
widen true y z (first e) = later (first e)
widen true y z (later h) = later (later h)
widen false y z (first e) = first e
widen false y z (later h) = later (later h)

module _ {ℓ} {F : Type ℓ} ⦃f : Float F⦄ where
  abbrev lower_all : F → List F → F
  lower_all m [] = m
  lower_all m (x ∷ xs) = lower_all (lower m x) xs

  abbrev raise_all : F → List F → F
  raise_all m [] = m
  raise_all m (x ∷ xs) = raise_all (raise m x) xs

  observe_all-extremes :
      (h : HeartbeatAggregator F) (xs : List (Sample F))
      → h.has_val ≡ true
      → ((observe_all h xs).min_val ≡ lower_all h.min_val (vals xs))
        × ((observe_all h xs).max_val ≡ raise_all h.max_val (vals xs))
  unfolding observe
  observe_all-extremes h [] e = (refl, refl)
  observe_all-extremes h (x ∷ xs) e =
      let rest = observe_all-extremes (observe h x.val x.anomalous x.suppressed) xs refl in
      (
        rest.0 ∙ ap (λ b. lower_all (if not b then x.val else lower h.min_val x.val) (vals xs)) e,
        rest.1 ∙ ap (λ b. raise_all (if not b then x.val else raise h.max_val x.val) (vals xs)) e,
      )

  module _ (laws : IsOrdered f) where
    abbrev IsNumber : F → Type 0
    IsNumber x = f.is_nan x ≡ false

    lower-lem :
        (m x : F)
        → IsNumber m
        → IsNumber x
        → (f.le (lower m x) m ≡ true) × (f.le (lower m x) x ≡ true) × IsNumber (lower m x)
    lower-lem m x hm hx = ground (
      arith,
      laws.lt-eq-not-le x m hx hm,
      laws.le_total m x hm hx,
      laws.le_refl m hm,
      laws.le_refl x hx,
    )

    raise-lem :
        (m x : F)
        → IsNumber m
        → IsNumber x
        → (f.le m (raise m x) ≡ true) × (f.le x (raise m x) ≡ true) × IsNumber (raise m x)
    raise-lem m x hm hx = ground (
      arith,
      laws.lt-eq-not-le m x hm hx,
      laws.le_total m x hm hx,
      laws.le_refl m hm,
      laws.le_refl x hx,
    )

    lower_all-le :
        (m : F) (xs : List F)
        → IsNumber m
        → All IsNumber xs
        → (f.le (lower_all m xs) m ≡ true) × All (λ x. f.le (lower_all m xs) x ≡ true) xs
    lower_all-le m [] hm h = (laws.le_refl m hm, tt)
    lower_all-le m (x ∷ xs) hm h =
        let (le_m, le_x, number) = lower-lem m x hm h.0 in
        let (up, rest) = lower_all-le (lower m x) xs number h.1 in
        (laws.le_trans _ _ _ up le_m, (laws.le_trans _ _ _ up le_x, rest))

    raise_all-le :
        (m : F) (xs : List F)
        → IsNumber m
        → All IsNumber xs
        → (f.le m (raise_all m xs) ≡ true) × All (λ x. f.le x (raise_all m xs) ≡ true) xs
    raise_all-le m [] hm h = (laws.le_refl m hm, tt)
    raise_all-le m (x ∷ xs) hm h =
        let (le_m, le_x, number) = raise-lem m x hm h.0 in
        let (up, rest) = raise_all-le (raise m x) xs number h.1 in
        (laws.le_trans _ _ _ le_m up, (laws.le_trans _ _ _ le_x up, rest))

  lower_all-Has : (m : F) (xs : List F) → Has (lower_all m xs) (m ∷ xs)
  lower_all-Has m [] = first refl
  lower_all-Has m (x ∷ xs) = widen (f.lt x m) m x (lower_all-Has (lower m x) xs)

  raise_all-Has : (m : F) (xs : List F) → Has (raise_all m xs) (m ∷ xs)
  raise_all-Has m [] = first refl
  raise_all-Has m (x ∷ xs) = widen (f.lt m x) m x (raise_all-Has (raise m x) xs)

  -- The first sample of a fresh window is its least and its greatest value.
  fresh-extremes :
      (h : HeartbeatAggregator F) (x : Sample F) (xs : List (Sample F))
      → IsFresh h
      → ((observe_all h (x ∷ xs)).min_val ≡ lower_all x.val (vals xs))
        × ((observe_all h (x ∷ xs)).max_val ≡ raise_all x.val (vals xs))
  unfolding observe
  fresh-extremes h x xs fresh =
      let rest = observe_all-extremes (observe h x.val x.anomalous x.suppressed) xs refl in
      (
        rest.0
            ∙ ap (λ b. lower_all (if not b then x.val else lower h.min_val x.val) (vals xs))
                fresh.no_val,
        rest.1
            ∙ ap (λ b. raise_all (if not b then x.val else raise h.max_val x.val) (vals xs))
                fresh.no_val,
      )

  -- Over samples with no NaN among them, at least one, the least value of the summary is one of them
  -- and not above any, and the greatest is one of them and not below any.
  pub flush-extremes :
      (laws : IsOrdered f) (h : HeartbeatAggregator F) (x : Sample F) (xs : List (Sample F))
      (now : Time)
      → IsFresh h
      → All (λ y. f.is_nan y ≡ false) (vals (x ∷ xs))
      → let s = (flush (observe_all h (x ∷ xs)) now).0 in
        Has s.min_val (vals (x ∷ xs))
        × All (λ y. f.le s.min_val y ≡ true) (vals (x ∷ xs))
        × Has s.max_val (vals (x ∷ xs))
        × All (λ y. f.le y s.max_val ≡ true) (vals (x ∷ xs))
  unfolding flush
  flush-extremes laws h x xs now fresh numbers =
      let (least, greatest) = fresh-extremes h x xs fresh in
      (
        rw least (lower_all-Has x.val (vals xs)),
        subst (λ z. All (λ y. f.le z y ≡ true) (vals (x ∷ xs))) (sym least)
            (lower_all-le laws x.val (vals xs) numbers.0 numbers.1),
        rw greatest (raise_all-Has x.val (vals xs)),
        subst (λ z. All (λ y. f.le y z ≡ true) (vals (x ∷ xs))) (sym greatest)
            (raise_all-le laws x.val (vals xs) numbers.0 numbers.1),
      )
