-- ===== src/KernelFile/Tests.antt =====
-- Paths in small buffers, and the theorem there.
use edge_telemetry_daemon.Shared.{◌≡◌, refl, arith}
use edge_telemetry_daemon.Shared.Text.{codes}
use edge_telemetry_daemon.KernelFile.{too_long, write_path}
use edge_telemetry_daemon.KernelFile.Bounds.{Holds, join, write_path-Holds}

no_room : write_path 10 (codes "/proc") (codes "stat") ≡ too_long
unfolding write_path
no_room = refl

write_path-Holds_example :
    Holds 11 (join (codes "/proc") (codes "stat")) (write_path 11 (codes "/proc") (codes "stat"))
write_path-Holds_example =
    write_path-Holds 11 (codes "/proc") (codes "stat") (refl, (refl, (refl, (refl, (refl, tt)))))
      (refl, (refl, (refl, (refl, tt)))) (omega arith)
