-- ===== src/Cgroup/Discover/Tests.antt =====
-- The search at a concrete /proc/self/cgroup.
use edge_telemetry_daemon.Shared.{◌≡◌, refl, true, some, [], ◌∷◌, ◌++◌}
use edge_telemetry_daemon.Shared.Text.{codes}
use edge_telemetry_daemon.Shared.Scan.Lines.{unlines}
use edge_telemetry_daemon.Cgroup.Discover.{
  Files, discover_cgroup_path, cut_prefix, discover-unified,
}

-- A line of a version 1 hierarchy comes first.
abbrev files : Files
files = record {
  self_cgroup = some (codes "1:cpu:/\n0::/etd\n");
  join = λ a b. a ++ b;
  cannot_write = λ _. true;
}

discover-unified_example : discover_cgroup_path files [] ≡ codes "/sys/fs/cgroup/etd"
unfolding unlines cut_prefix
discover-unified_example =
    discover-unified files [] (codes "1:cpu:/" ∷ []) (codes "/etd") [] refl refl
      ((refl, (refl, (refl, (refl, (refl, (refl, (refl, tt))))))), tt) (refl, tt)
      (refl, (refl, (refl, (refl, tt))))
