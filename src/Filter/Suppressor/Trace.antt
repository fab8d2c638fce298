-- ===== src/Filter/Suppressor/Trace.antt =====
-- Every run of the suppressor, with what it answered, and what the answers mean for the readings.
use edge_telemetry_daemon.Shared.{
  ℕ, ◌+◌, ◌%◌, ◌^◌, ◌≤◌, ◌<◌, ◌≡◌, ◌≢◌, ◌⊎◌, inl, inr, refl, Bool, true, false, arith, Option, none,
  some, List, [], ◌∷◌, length, if◌then◌else◌, if_ind, inc64, u64_mod,
}
use edge_telemetry_daemon.Shared.Int.{ℤ, pos, ◌≤ℤ◌, leb_ℤ, inc_int, inc_int_pos}
use edge_telemetry_daemon.Shared.Time.{Time}
use edge_telemetry_daemon.Filter.Suppressor.{
  SuppressorState, normal, alerting, suppressed, SuppressorConfig, Suppressor, new_suppressor, fire,
  process, on_anomaly, on_active, on_normal, held_off, count_anomaly, count_normal,
}

-- A reading, its time, and what `Process` returned for it.
pub record Entry : Type 0 where
  pub anomalous : Bool
  pub at : Time
  pub alerted : Bool
  pub state : SuppressorState

-- The readings so far, newest first.
abbrev pub Readings : Type 0
Readings = List Entry

abbrev pub entry : Suppressor → Bool → Time → Entry
entry s b now =
    let (s', alert) = process s b now in
    record { anomalous = b; at = now; alerted = alert; state = s'.state }

-- The suppressor after some readings.
pub data Trace (cfg : SuppressorConfig) : Suppressor → Readings → Type 0 where
  begin : (s : Suppressor) → s ≡ new_suppressor cfg → Trace cfg s []
  observe :
      {s : Suppressor} {es : Readings}
      → Trace cfg s es
      → (b : Bool) (now : Time) (s' : Suppressor) → s' ≡ (process s b now).0
      → Trace cfg s' (entry s b now ∷ es)

-- How many of the newest readings in a row were anomalous, or were normal.
abbrev pub anomalous_streak : Readings → ℕ
anomalous_streak [] = 0
anomalous_streak (e ∷ es) = if e.anomalous then anomalous_streak es + 1 else 0

abbrev pub normal_streak : Readings → ℕ
normal_streak [] = 0
normal_streak (e ∷ es) = if e.anomalous then 0 else normal_streak es + 1

-- The time of the newest alert.
abbrev pub newest_alert : Readings → Option Time
newest_alert [] = none
newest_alert (e ∷ es) = if e.alerted then some e.at else newest_alert es

-- Since the newest alert, `limit` readings in a row were normal at some point.
abbrev pub Recovered : ℤ → Readings → Type 0
Recovered limit [] = ⊥
Recovered limit (e ∷ es) =
    (e.alerted ≡ false) × ((limit ≤ℤ pos (normal_streak (e ∷ es))) ⊎ Recovered limit es)

abbrev pub alerts : Readings → ℕ
alerts [] = 0
alerts (e ∷ es) = (if e.alerted then 1 else 0) + alerts es

abbrev pub anomalies : Readings → ℕ
anomalies [] = 0
anomalies (e ∷ es) = (if e.anomalous then 1 else 0) + anomalies es

abbrev is_suppressed : SuppressorState → Bool
is_suppressed suppressed = true
is_suppressed _ = false

-- The anomalies that were answered by the suppressed state.
abbrev pub holdoffs : Readings → ℕ
holdoffs [] = 0
holdoffs (e ∷ es) =
    (if e.anomalous then if is_suppressed e.state then 1 else 0 else 0) + holdoffs es

-- What the suppressor remembers of the readings.
pub record Remembers (s : Suppressor) (es : Readings) : Type 0 where
  pub anoms : s.consecutive_anoms ≡ pos (anomalous_streak es)
  pub norms : s.consecutive_norms ≡ pos (normal_streak es)
  pub anomalies_counted : s.total_anomalies ≡ anomalies es % u64_mod
  pub alerts_counted : s.total_alerts_fired ≡ alerts es % u64_mod
  pub suppressed_counted : s.total_suppressed ≡ holdoffs es % u64_mod
  pub active : s.state ≢ normal → newest_alert es ≡ some s.last_alert_time
  pub calm :
      s.state ≡ normal → (newest_alert es ≡ none) ⊎ Recovered s.cfg.min_consecutive_normals es

anomalous_streak-le : (es : Readings) → anomalous_streak es ≤ length es
anomalous_streak-le [] = omega arith
anomalous_streak-le (e ∷ es) = ground (arith, anomalous_streak-le es)

normal_streak-le : (es : Readings) → normal_streak es ≤ length es
normal_streak-le [] = omega arith
normal_streak-le (e ∷ es) = ground (arith, normal_streak-le es)

pub new-Remembers : (cfg : SuppressorConfig) → Remembers (new_suppressor cfg) []
unfolding new_suppressor
new-Remembers cfg = record {
  anoms = refl;
  norms = refl;
  anomalies_counted = omega arith;
  alerts_counted = omega arith;
  suppressed_counted = omega arith;
  active = λ ne. absurd (ne refl);
  calm = λ _. inl refl;
}

-- The entry of an answer.
abbrev made : Bool → Time → Suppressor × Bool → Entry
made b now (s, alert) = record { anomalous = b; at = now; alerted = alert; state = s.state }

abbrev Keeps : Readings → Bool → Time → Suppressor × Bool → Type 0
Keeps es b now r = Remembers r.0 (made b now r ∷ es)

module _ {s : Suppressor} {es : Readings} (now : Time) (h : length es + 1 < 2 ^ 63)
    (r : Remembers s es) where
  pub more_anoms : inc_int s.consecutive_anoms ≡ pos (anomalous_streak es + 1)
  more_anoms =
      rw r.anoms (inc_int_pos (anomalous_streak es) (omega (arith, anomalous_streak-le es)))

  pub more_norms : inc_int s.consecutive_norms ≡ pos (normal_streak es + 1)
  more_norms = rw r.norms (inc_int_pos (normal_streak es) (omega (arith, normal_streak-le es)))

  fire-Remembers : Keeps es true now (fire (count_anomaly s) now, true)
  fire-Remembers = record {
    anoms = more_anoms;
    norms = refl;
    anomalies_counted = omega (arith, r.anomalies_counted);
    alerts_counted = omega (arith, r.alerts_counted);
    suppressed_counted = omega (arith, r.suppressed_counted);
    active = λ _. refl;
    calm = λ e. cc;
  }

  below-Remembers : s.state ≡ normal → Keeps es true now (count_anomaly s, false)
  below-Remembers e = record {
    anoms = more_anoms;
    norms = refl;
    anomalies_counted = omega (arith, r.anomalies_counted);
    alerts_counted = omega (arith, r.alerts_counted);
    suppressed_counted = ground (arith, r.suppressed_counted, e);
    active = λ ne. absurd (ne e);
    calm = λ _. ground (arith, r.calm e);
  }

  suppress-Remembers :
      s.state ≢ normal
      → Keeps es true now (
        record (count_anomaly s) {
          state = suppressed;
          total_suppressed = inc64 s.total_suppressed;
        },
        false,
      )
  suppress-Remembers ne = record {
    anoms = more_anoms;
    norms = refl;
    anomalies_counted = omega (arith, r.anomalies_counted);
    alerts_counted = omega (arith, r.alerts_counted);
    suppressed_counted = omega (arith, r.suppressed_counted);
    active = λ _. r.active ne;
    calm = λ e. cc;
  }

  on_active-Remembers : s.state ≢ normal → Keeps es true now (on_active (count_anomaly s) now)
  unfolding on_active
  on_active-Remembers ne =
      if_ind (Keeps es true now) (held_off (count_anomaly s) now) (λ _. fire-Remembers)
        (λ _. suppress-Remembers ne)

  on_anomaly-Remembers :
      (m : SuppressorState) → s.state ≡ m → Keeps es true now (on_anomaly m (count_anomaly s) now)
  unfolding on_anomaly
  on_anomaly-Remembers normal e =
      if_ind (Keeps es true now)
        (leb_ℤ s.cfg.min_consecutive_anomalies (inc_int s.consecutive_anoms)) (λ _. fire-Remembers)
        (λ _. below-Remembers e)
  on_anomaly-Remembers alerting e = on_active-Remembers (λ n. cc)
  on_anomaly-Remembers suppressed e = on_active-Remembers (λ n. cc)

  on_normal-Remembers : Keeps es false now (on_normal (count_normal s))
  unfolding on_normal
  on_normal-Remembers =
      if_ind (λ s'. Keeps es false now (s', false))
        (leb_ℤ s.cfg.min_consecutive_normals (inc_int s.consecutive_norms))
        (λ enough. record {
          anoms = refl;
          norms = more_norms;
          anomalies_counted = omega (arith, r.anomalies_counted);
          alerts_counted = omega (arith, r.alerts_counted);
          suppressed_counted = omega (arith, r.suppressed_counted);
          active = λ ne. absurd (ne refl);
          calm = λ _. inr (refl, inl (ground (arith, more_norms)));
        })
        (λ few. record {
          anoms = refl;
          norms = more_norms;
          anomalies_counted = omega (arith, r.anomalies_counted);
          alerts_counted = omega (arith, r.alerts_counted);
          suppressed_counted = omega (arith, r.suppressed_counted);
          active = λ ne. r.active ne;
          calm = λ e. ground (arith, r.calm e);
        })

pub process-Remembers :
    {s : Suppressor} {es : Readings} (b : Bool) (now : Time)
    → length es + 1 < 2 ^ 63
    → Remembers s es
    → Remembers (process s b now).0 (entry s b now ∷ es)
unfolding process
process-Remembers {s} {es} true now h r = on_anomaly-Remembers now h r s.state refl
process-Remembers {s} {es} false now h r = on_normal-Remembers now h r
