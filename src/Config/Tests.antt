-- ===== src/Config/Tests.antt =====
-- Loading from an environment that is empty but for one value.

use edge_telemetry_daemon.Shared.{◌≡◌, ◌↔◌, none, [], inl}
use edge_telemetry_daemon.Shared.Fixed.{Fixed, fixed}
use edge_telemetry_daemon.Config.{Host, load, read}
use edge_telemetry_daemon.Config.Valid.{Valid, load-Valid}

abbrev empty_host : Host Fixed
empty_host = record {
  get = λ _. [];
  trim_space = λ x. x;
  parse_duration = λ _. none;
  atoi = λ _. none;
  parse_float = λ _. none;
  parse_bool = λ _. none;
}

load-Valid_example :
    (load empty_host ≡ inl (read empty_host))
    ↔ ((read empty_host ≡ read empty_host) × Valid (read empty_host))
load-Valid_example = load-Valid empty_host (read empty_host)
