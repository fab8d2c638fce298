-- ===== src/Cgroup/Quota.antt =====
-- The mode that the controller remembers is the one whose quota it wrote.

use edge_telemetry_daemon.Shared.{
  ◌≡◌, refl, sym, ap, ◌∙◌, Bool, true, false, ◌&&◌, ◌||◌, none, some, List, [], ◌∷◌, arith, if_ind,
}
use edge_telemetry_daemon.Shared.Text.{Bytes}
use edge_telemetry_daemon.Cgroup.Discover.{Files}
use edge_telemetry_daemon.Cgroup.{
  Controller, Mode, mode_quiescent, mode_burst, is_mode, new_controller, burst_quota, set_mode,
  set_burst, set_quiescent,
}

-- What cpu.max holds for a mode, from the quiescent quota.
abbrev pub quota_of : Bytes → Mode → Bytes
quota_of q mode_quiescent = q
quota_of q mode_burst = burst_quota

-- A controller has a mode exactly when it has written cpu.max, the quota is then the mode's, and
-- where cpu.max is read-only nothing was written.
pub record Holds (q : Bytes) (c : Controller) : Type 0 where
  pub with_mode : c.has_mode ≡ true → c.cpu_max ≡ some (quota_of q c.mode)
  pub without_mode : c.has_mode ≡ false → c.cpu_max ≡ none
  pub untouched : c.read_only ≡ true → c.has_mode ≡ false

-- Calls of the setters, each with whether its write succeeds.
pub apply : Bytes → Mode → Bool → Controller → Controller
apply q mode_quiescent ok c = (set_quiescent q ok c).0
apply q mode_burst ok c = (set_burst ok c).0

pub apply_all : Bytes → List (Mode × Bool) → Controller → Controller
apply_all q [] c = c
apply_all q ((m, ok) ∷ calls) c = apply_all q calls (apply q m ok c)

set_mode-Holds :
    (q : Bytes) (m : Mode) (ok : Bool) (c : Controller)
    → Holds q c
    → Holds q (set_mode m (quota_of q m) ok c).0
unfolding set_mode
set_mode-Holds q m ok c holds =
    if_ind (λ (r : Controller × Bool). Holds q r.0)
      (c.read_only || (c.has_mode && is_mode c.mode m)) (λ _. holds)
      (λ not_done.
        if_ind (λ (r : Controller × Bool). Holds q r.0) ok
          (λ _. record {
            with_mode = λ _. refl;
            without_mode = λ e. cc;
            untouched = λ e. ground arith;
          })
          (λ _. holds))

apply-Holds :
    (q : Bytes) (m : Mode) (ok : Bool) (c : Controller) → Holds q c → Holds q (apply q m ok c)
unfolding apply set_quiescent set_burst
apply-Holds q mode_quiescent ok c holds = set_mode-Holds q mode_quiescent ok c holds
apply-Holds q mode_burst ok c holds = set_mode-Holds q mode_burst ok c holds

pub new-Holds : (q : Bytes) (fs : Files) (provided : Bytes) → Holds q (new_controller fs provided)
unfolding new_controller
new-Holds q fs provided = record {
  with_mode = λ e. cc;
  without_mode = λ _. refl;
  untouched = λ _. refl;
}

-- From a new controller, after any calls of SetBurst and SetQuiescent, with any of their writes
-- failing: the controller has a mode exactly when some write succeeded, cpu.max then holds the
-- quota of that mode, and where cpu.max is read-only it was never written.
pub apply_all-Holds :
    (q : Bytes) (fs : Files) (provided : Bytes) (calls : List (Mode × Bool))
    → Holds q (apply_all q calls (new_controller fs provided))
unfolding apply_all
apply_all-Holds q fs provided calls =
    all calls (new_controller fs provided) (new-Holds q fs provided)
  where
    all : (calls : List (Mode × Bool)) (c : Controller) → Holds q c → Holds q (apply_all q calls c)
    all [] c holds = holds
    all ((m, ok) ∷ calls) c holds = all calls (apply q m ok c) (apply-Holds q m ok c holds)

-- Where writing succeeds, a setter leaves its mode, with that mode's quota in cpu.max.
pub record InMode (q : Bytes) (m : Mode) (c : Controller) : Type 0 where
  pub mode : c.mode ≡ m
  pub has_mode : c.has_mode ≡ true
  pub writable : c.read_only ≡ false
  pub cpu_max : c.cpu_max ≡ some (quota_of q m)

is_mode-eq : (a b : Mode) → is_mode a b ≡ true → a ≡ b
unfolding is_mode
is_mode-eq mode_quiescent mode_quiescent e = refl
is_mode-eq mode_quiescent mode_burst e = cc
is_mode-eq mode_burst mode_quiescent e = cc
is_mode-eq mode_burst mode_burst e = refl

set_mode-InMode :
    (q : Bytes) (m : Mode) (c : Controller)
    → c.read_only ≡ false
    → Holds q c
    → InMode q m (set_mode m (quota_of q m) true c).0
unfolding set_mode
set_mode-InMode q m c writable holds =
    if_ind (λ (r : Controller × Bool). InMode q m r.0)
      (c.read_only || (c.has_mode && is_mode c.mode m))
      (λ done.
        let has : c.has_mode ≡ true = ground arith in
        let same : c.mode ≡ m = is_mode-eq c.mode m (ground arith) in
        record {
          mode = same;
          has_mode = has;
          writable = writable;
          cpu_max = holds.with_mode has ∙ ap (λ x. some (quota_of q x)) same;
        })
      (λ _. record { mode = refl; has_mode = refl; writable = writable; cpu_max = refl })

pub InMode-Holds : (q : Bytes) (m : Mode) (c : Controller) → InMode q m c → Holds q c
InMode-Holds q m c i = record {
  with_mode = λ _. i.cpu_max ∙ ap (λ x. some (quota_of q x)) (sym i.mode);
  without_mode = λ e. cc (i.has_mode);
  untouched = λ e. cc (i.writable);
}

pub set_burst-InMode :
    (q : Bytes) (c : Controller)
    → c.read_only ≡ false
    → Holds q c
    → InMode q mode_burst (set_burst true c).0
unfolding set_burst
set_burst-InMode q c writable holds = set_mode-InMode q mode_burst c writable holds

pub set_quiescent-InMode :
    (q : Bytes) (c : Controller)
    → c.read_only ≡ false
    → Holds q c
    → InMode q mode_quiescent (set_quiescent q true c).0
unfolding set_quiescent
set_quiescent-InMode q c writable holds = set_mode-InMode q mode_quiescent c writable holds
