-- ===== src/Filter/Heartbeat.antt =====
-- internal/filter/heartbeat_aggregator.go: the summary of a window of samples. The mutex makes each
-- method one step; `time.Now()` of the constructor is an argument.
pub mod Window
pub mod Extremes
mod Tests
use edge_telemetry_daemon.Shared.{ℕ, Bool, true, false, not, ◌&&◌, if◌then◌else◌, inc64, ◌*◌}
use edge_telemetry_daemon.Shared.Int.{pos, leb_ℤ}
use edge_telemetry_daemon.Shared.Time.{Time, Duration, is_zero, time_sub, second}
use edge_telemetry_daemon.Shared.Float.{Float, nought}

pub record HeartbeatSummary {ℓ} (F : Type ℓ) : Type ℓ where
  pub start_time : Time
  pub end_time : Time
  pub total_samples : ℕ
  pub anomalous_count : ℕ
  pub suppressed_count : ℕ
  pub min_val : F
  pub max_val : F
  pub sum_val : F

pub record HeartbeatAggregator {ℓ} (F : Type ℓ) : Type ℓ where
  pub interval : Duration
  pub window_start : Time
  pub total_samples : ℕ
  pub anomalous_count : ℕ
  pub suppressed_count : ℕ
  pub min_val : F
  pub max_val : F
  pub sum_val : F
  pub has_val : Bool

module _ {ℓ} {F : Type ℓ} ⦃f : Float F⦄ where
  open f use {add, lt}

  unfoldable pub new_aggregator : Duration → Time → HeartbeatAggregator F
  new_aggregator interval now = record {
    interval = if leb_ℤ interval (pos 0) then pos (10 * second) else interval;
    window_start = now;
    total_samples = 0;
    anomalous_count = 0;
    suppressed_count = 0;
    min_val = nought;
    max_val = nought;
    sum_val = nought;
    has_val = false;
  }

  -- `if val < h.minVal`, and `if val > h.maxVal`
  abbrev pub lower : F → F → F
  lower m val = if lt val m then val else m

  abbrev pub raise : F → F → F
  raise m val = if lt m val then val else m

  unfoldable pub observe : HeartbeatAggregator F → F → Bool → Bool → HeartbeatAggregator F
  observe h val is_anomalous is_suppressed = record h {
    total_samples = inc64 h.total_samples;
    anomalous_count = if is_anomalous then inc64 h.anomalous_count else h.anomalous_count;
    suppressed_count = if is_suppressed then inc64 h.suppressed_count else h.suppressed_count;
    min_val = if not h.has_val then val else lower h.min_val val;
    max_val = if not h.has_val then val else raise h.max_val val;
    sum_val = add h.sum_val val;
    has_val = true;
  }

  unfoldable pub should_flush : HeartbeatAggregator F → Time → Bool
  should_flush h now =
      not (is_zero h.window_start) && leb_ℤ h.interval (time_sub now h.window_start)

  pub reset : HeartbeatAggregator F → Time → HeartbeatAggregator F
  reset h now = record h {
    window_start = now;
    total_samples = 0;
    anomalous_count = 0;
    suppressed_count = 0;
    min_val = nought;
    max_val = nought;
    sum_val = nought;
    has_val = false;
  }

  -- The summary and the next window. What is written through `out` is the summary too.
  unfoldable pub flush : HeartbeatAggregator F → Time → HeartbeatSummary F × HeartbeatAggregator F
  flush h now = (
    record {
      start_time = h.window_start;
      end_time = now;
      total_samples = h.total_samples;
      anomalous_count = h.anomalous_count;
      suppressed_count = h.suppressed_count;
      min_val = h.min_val;
      max_val = h.max_val;
      sum_val = h.sum_val;
    },
    record h {
      window_start = now;
      total_samples = 0;
      anomalous_count = 0;
      suppressed_count = 0;
      min_val = nought;
      max_val = nought;
      sum_val = nought;
      has_val = false;
    },
  )
