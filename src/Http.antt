-- ===== src/Http.antt =====
-- cmd/agent/main.go: the handlers of newMux that answer from the daemon's state, as status and body.
pub mod Health
pub mod Mux
pub mod Stream
mod Tests
use edge_telemetry_daemon.Shared.{ℕ, ◌+◌, Bool, if◌then◌else◌, leb, Option, none, some}
use edge_telemetry_daemon.Shared.Int.{ℤ, pos}
use edge_telemetry_daemon.Shared.Text.{Bytes, codes}
use edge_telemetry_daemon.Agent.{Agent}
use edge_telemetry_daemon.Agent.Usage.{inject_anomaly}
use edge_telemetry_daemon.Outbox
use edge_telemetry_daemon.Outbox.{Outbox}

abbrev pub Response : Type 0
Response = ℕ × Bytes

-- `/healthz`; `http.Error` adds the newline.
pub healthz : Outbox → Response
healthz ob =
    if leb (Outbox.capacity_of ob) (Outbox.len ob)
    then (503, codes "queue saturated\n")
    else (200, codes "OK")

-- `/livez` and `/version`
pub livez : Response
livez = (200, codes "OK")

pub version_page : Bytes → Response
version_page version = (200, version)

-- `/inject/anomaly`
unfoldable pub inject_page {ℓ} : {F : Type ℓ} → Agent F → Agent F × Response
inject_page a = (inject_anomaly a, (200, codes "anomaly burst scheduled (3 cycles)"))
