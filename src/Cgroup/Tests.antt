-- ===== src/Cgroup/Tests.antt =====
-- Calls of the setters, and the theorem at a concrete input.
use edge_telemetry_daemon.Shared.{◌≡◌, refl, Bool, true, false, some, List, [], ◌∷◌, ◌++◌}
use edge_telemetry_daemon.Shared.Text.{Bytes, codes}
use edge_telemetry_daemon.Cgroup.Discover.{Files}
use edge_telemetry_daemon.Cgroup.{
  Mode, mode_quiescent, mode_burst, new_controller, burst_quota, set_mode, set_burst, set_quiescent,
  quiescent_quota, is_mode,
}
use edge_telemetry_daemon.Cgroup.Quota.{Holds, apply_all, apply_all-Holds}

-- Eight CPUs.
eight : quiescent_quota 8 (λ _. codes "40000") ≡ codes "40000 100000\n"
unfolding quiescent_quota
eight = refl

abbrev q : Bytes
q = codes "40000 100000\n"

-- The second write fails.
abbrev calls : List (Mode × Bool)
calls = (mode_quiescent, true) ∷ (mode_burst, false) ∷ (mode_burst, true) ∷ []

abbrev files : Files
files = record {
  self_cgroup = some (codes "0::/etd\n");
  join = λ a b. a ++ b;
  cannot_write = λ _. false;
}

retried :
    (set_burst true
      (set_burst false (set_quiescent q true (new_controller files [])).0).0).0.cpu_max
    ≡ some burst_quota
unfolding set_burst set_quiescent set_mode is_mode new_controller
retried = refl

apply_all-Holds_example : Holds q (apply_all q calls (new_controller files []))
apply_all-Holds_example = apply_all-Holds q files [] calls
