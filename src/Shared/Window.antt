-- ===== src/Shared/Window.antt =====
-- The two ring buffers of the program (internal/outbox/queue.go, internal/filter/ringbuffer.go)
-- keep a slice, and walk it modulo its length. This is what such a walk reads.
use Prim.Native.Nat.{ℕ, zero, suc, ◌+◌, ◌-◌, ◌%◌, ◌^◌, ◌≤◌, ◌<◌}
use mathlib.Core.Path.{◌≡◌, refl, ◌∙◌, ap, ap₂}
use mathlib.Core.Logic.{◌≢◌}
use mathlib.Core.List.{List, [], ◌∷◌, ◌++◌}
use native.Mathlib.Nat.{mod-add-mod, mod-eq_of_lt, mod-eq-sub-mod, add-zero}
use native.Mathlib.Decide.{dec_lt}
use native.Mathlib.Omega.{arith}
use edge_telemetry_daemon.Shared.Tests.{inc64}
use edge_telemetry_daemon.Shared.Lists.{length, get_or, set, get_or-set_self, get_or-set_ne}

-- `(i + 1) % capacity` on Go's `int`: both are below 2 ^ 63, where an `int` is its bit pattern.
abbrev pub next : ℕ → ℕ → ℕ
next m i = inc64 i % m

pub next-eq : (m i : ℕ) → i < m → m < 2 ^ 63 → next m i ≡ (i + 1) % m
next-eq m i h k = let e : inc64 i ≡ i + 1 = omega arith in rw e refl

-- Fewer than `m` steps round the ring do not come back to the start.
pub add-mod-ne : {m h k : ℕ} → h < m → suc k < m → (h + suc k) % m ≢ h
add-mod-ne {m} {h} {k} hh hk = elim (dec_lt (h + suc k) m) [
  | yes p ↦ omega (arith, mod-eq_of_lt p)
  | no p ↦ omega (
    arith,
    mod-eq-sub-mod {n = h + suc k} {m = m} (omega arith),
    mod-eq_of_lt {n = h + suc k - m} {m = m} (omega arith),
  )
]

-- A whole turn comes back to the start.
pub add-mod_self : (m h : ℕ) → h < m → (h + m) % m ≡ h
add-mod_self m h p = grind arith

module _ {ℓ} {A : Type ℓ} (d : A) where
  -- the `n` elements from index `h` on, going round at `m`
  abbrev pub window : List A → ℕ → ℕ → ℕ → List A
  window buf m h zero = []
  window buf m h (suc n) = get_or buf h d ∷ window buf m ((h + 1) % m) n

  pub length-window : (buf : List A) (m h n : ℕ) → length (window buf m h n) ≡ n
  length-window buf m h zero = refl
  length-window buf m h (suc n) = ap suc (length-window buf m ((h + 1) % m) n)

  -- `window` matches on `suc`, the code tests for 0.
  pub window_of_pos :
      (buf : List A) (m h n : ℕ)
      → 0 < n
      → window buf m h n ≡ get_or buf h d ∷ window buf m ((h + 1) % m) (n - 1)
  window_of_pos buf m h zero p = absurd (omega arith)
  window_of_pos buf m h (suc n) p = ap (λ k. window buf m h (suc k)) (omega arith)

  shift : (m h n : ℕ) → (h + suc n) % m ≡ ((h + 1) % m + n) % m
  shift m h n = rw mod-add-mod (ap (λ k. k % m) (omega arith))

  -- Writing just past a window extends it by that element.
  pub window-set :
      (buf : List A) (m : ℕ) (x : A) (n h i : ℕ)
      → m ≤ length buf
      → h < m
      → n < m
      → i ≡ (h + n) % m
      → window (set buf i x) m h (suc n) ≡ window buf m h n ++ (x ∷ [])
  window-set buf m x zero h i hs hh hn e =
      rw (e, add-zero, mod-eq_of_lt hh, get_or-set_self buf h x d (omega arith))
  window-set buf m x (suc n) h i hs hh hn e =
      ap₂ ◌∷◌ (get_or-set_ne buf x d (rw e (add-mod-ne hh hn)))
        (window-set buf m x n ((h + 1) % m) i hs (omega arith) (omega arith) (e ∙ shift m h n))

  -- Writing at `h` leaves a window that starts `j + 1` steps behind it and ends before it.
  window-set_behind :
      (buf : List A) (m : ℕ) (x : A) (h n j s : ℕ)
      → h < m
      → suc j + n ≤ m
      → s ≡ (h + suc j) % m
      → window (set buf h x) m s n ≡ window buf m s n
  window-set_behind buf m x h zero j s hh hn e = refl
  window-set_behind buf m x h (suc n) j s hh hn e =
      ap₂ ◌∷◌
        (get_or-set_ne buf x d
          (λ p. add-mod-ne {m = m} {h = h} {k = j} hh (omega arith) (omega (arith, p, e))))
        (window-set_behind buf m x h n (suc j) ((s + 1) % m) hh (omega arith)
          (rw (e, mod-add-mod) (ap (λ k. k % m) (omega arith))))

  -- Clearing the slot at the head leaves the rest of the window.
  pub window-set_head :
      (buf : List A) (m : ℕ) (x : A) (h n : ℕ)
      → h < m
      → n < m
      → window (set buf h x) m ((h + 1) % m) n ≡ window buf m ((h + 1) % m) n
  window-set_head buf m x h n hh hn =
      window-set_behind buf m x h n 0 ((h + 1) % m) hh (omega arith) refl
