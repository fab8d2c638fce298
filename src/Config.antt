-- ===== src/Config.antt =====
-- internal/config/config.go: the configuration read from the environment. `os.Getenv`,
-- `strings.TrimSpace` and the parsers of strconv and time are arguments; a parser's error is `none`.
pub mod Valid
mod Tests
use mathlib.Core.Option
use edge_telemetry_daemon.Shared.{
  ℕ, ◌+◌, ◌*◌, ◌%◌, Bool, true, false, not, ◌&&◌, ◌||◌, ◌⊎◌, inl, inr, Option, none, some, List, [],
  ◌∷◌, if◌then◌else◌, u64_mod,
}
use edge_telemetry_daemon.Shared.Int.{ℤ, pos, leb_ℤ, ltb_ℤ, pos_part}
use edge_telemetry_daemon.Shared.Time.{Duration, second, millisecond}
use edge_telemetry_daemon.Shared.Float.{Float, nought}
use edge_telemetry_daemon.Shared.Text.{Bytes, codes, is_empty, equal}

pub record Config {ℓ} (F : Type ℓ) : Type ℓ where
  pub listen_addr : Bytes
  pub scrape_interval : Duration
  pub cpu_report_mode : Bytes
  pub log_level : Bytes
  pub target_url : Bytes
  pub target_auth_token : Bytes
  pub detector_min_samples : ℕ
  pub procfs_path : Bytes
  pub rate_tau_min : Duration
  pub rate_tau_max : Duration
  pub rate_theta : F
  pub cgroup_root : Bytes
  pub socket_path : Bytes
  pub enable_synthetic_workload : Bool
  pub enable_debug_endpoints : Bool

-- What `validate` refuses.
pub data ConfigError : Type 0 where
  empty_address bad_interval bad_report_mode bad_log_level bad_tau bad_theta : ConfigError

-- The environment and the library's parsers.
pub record Host {ℓ} (F : Type ℓ) : Type ℓ where
  pub get : Bytes → Bytes
  pub trim_space : Bytes → Bytes
  pub parse_duration : Bytes → Option Duration
  pub atoi : Bytes → Option ℤ
  pub parse_float : Bytes → Option F
  pub parse_bool : Bytes → Option Bool

pub is_one_of : Bytes → List Bytes → Bool
is_one_of s [] = false
is_one_of s (x ∷ xs) = equal s x || is_one_of s xs

pub report_modes : List Bytes
report_modes = codes "percent" ∷ codes "ticks" ∷ codes "hertz" ∷ []

pub log_levels : List Bytes
log_levels = codes "debug" ∷ codes "info" ∷ codes "warn" ∷ codes "error" ∷ []

module _ {ℓ} {F : Type ℓ} ⦃f : Float F⦄ where
  open f use {le, of_ratio}

  pub validate : Config F → Option ConfigError
  validate c =
      if is_empty c.listen_addr
      then some empty_address
      else if leb_ℤ c.scrape_interval (pos 0)
      then some bad_interval
      else if not (is_one_of c.cpu_report_mode report_modes)
      then some bad_report_mode
      else if not (is_one_of c.log_level log_levels)
      then some bad_log_level
      else if leb_ℤ c.rate_tau_max c.rate_tau_min
      then some bad_tau
      else if le c.rate_theta nought
      then some bad_theta
      else none

module _ {ℓ} {F : Type ℓ} (h : Host F) where
  unfoldable pub getenv : Bytes → Bytes → Bytes
  getenv key default = if is_empty (h.get key) then default else h.get key

  -- The shape that the getters for other types share: an unset or unreadable value is the default.
  unfoldable pub parsed {κ} : {A : Type κ} → (Bytes → Option A) → Bytes → A → A
  parsed parse key default =
      if is_empty (h.get key)
      then default
      else elim (parse (h.get key)) [ none ↦ default | some v ↦ v ]

  -- `err == nil && i > 0`
  pub positive : Bytes → Option ℤ
  positive v = elim (h.atoi v) [ none ↦ none | some i ↦ if leb_ℤ i (pos 0) then none else some i ]

  unfoldable pub getenv_duration : Bytes → Duration → Duration
  getenv_duration = parsed h.parse_duration

  unfoldable pub getenv_int : Bytes → ℤ → ℤ
  getenv_int = parsed positive

  unfoldable pub getenv_float : Bytes → F → F
  getenv_float = parsed h.parse_float

  unfoldable pub getenv_bool : Bytes → Bool → Bool
  getenv_bool = parsed h.parse_bool

-- The end of `Load`.
pub accept {ℓ} : {F : Type ℓ} → Config F → Option ConfigError → Config F ⊎ ConfigError
accept c none = inl c
accept c (some e) = inr e

-- `Load` up to its validation. What `getenvInt` gives is positive, so `uint64` keeps it.
module _ {ℓ} {F : Type ℓ} ⦃f : Float F⦄ (h : Host F) where
  unfoldable pub read : Config F
  read = record {
    listen_addr = h.trim_space (getenv h (codes "ETD_LISTEN_ADDR") (codes ":8080"));
    scrape_interval = getenv_duration h (codes "ETD_SCRAPE_INTERVAL") (pos (5 * second));
    cpu_report_mode = getenv h (codes "ETD_CPU_REPORT_MODE") (codes "percent");
    log_level = getenv h (codes "ETD_LOG_LEVEL") (codes "info");
    target_url = getenv h (codes "ETD_TARGET_URL") (codes "http://localhost:8080/ingest/dummy");
    target_auth_token = getenv h (codes "ETD_TARGET_AUTH_TOKEN") [];
    detector_min_samples = pos_part (getenv_int h (codes "ETD_DETECTOR_MIN_SAMPLES") (pos 30));
    procfs_path = getenv h (codes "ETD_PROCFS_PATH") (codes "/proc");
    rate_tau_min = getenv_duration h (codes "ETD_RATE_TAU_MIN") (pos (50 * millisecond));
    rate_tau_max = getenv_duration h (codes "ETD_RATE_TAU_MAX") (pos (5 * second));
    rate_theta = getenv_float h (codes "ETD_RATE_THETA") (f.of_ratio 7 2);
    cgroup_root = getenv h (codes "ETD_CGROUP_ROOT") [];
    socket_path = getenv h (codes "ETD_SOCKET_PATH") (codes "/tmp/etd.sock");
    enable_synthetic_workload = getenv_bool h (codes "ETD_ENABLE_SYNTHETIC_WORKLOAD") false;
    enable_debug_endpoints = getenv_bool h (codes "ETD_ENABLE_DEBUG_ENDPOINTS") false;
  }

  pub load : Config F ⊎ ConfigError
  load = accept read (validate read)
