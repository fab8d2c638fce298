-- ===== src/Filter/Suppressor/Tests.antt =====
-- Runs of the suppressor, and its theorems at concrete inputs.
use edge_telemetry_daemon.Shared.{◌≡◌, ◌⊎◌, refl, arith, Bool, true, false, [], ◌∷◌}
use edge_telemetry_daemon.Shared.Int.{pos, ◌≤ℤ◌, add_int}
use edge_telemetry_daemon.Shared.Time.{time_sub}
use edge_telemetry_daemon.Filter.Suppressor.{
  normal, suppressed, SuppressorConfig, Suppressor, new_suppressor, process, held_off,
}
use edge_telemetry_daemon.Filter.Suppressor.Trace.{
  Readings, Trace, begin, observe, entry, normal_streak, Remembers,
}
use edge_telemetry_daemon.Filter.Suppressor.Alerts.{
  Trace-Remembers, NewIncident, OldIncident, alert-cause, TooShort, InHoldoff, silence-cause,
  enough_normals,
}

-- Two anomalies in a row alert, one normal reading calms, and an alert holds off ten ticks.
abbrev cfg : SuppressorConfig
cfg = record {
  holdoff_duration = pos 10;
  min_consecutive_anomalies = pos 2;
  min_consecutive_normals = pos 1;
}

abbrev s0 : Suppressor
s0 = new_suppressor cfg

abbrev s1 : Suppressor
s1 = (process s0 true (pos 1)).0

abbrev s2 : Suppressor
s2 = (process s1 true (pos 2)).0

abbrev s3 : Suppressor
s3 = (process s2 false (pos 3)).0

abbrev es1 : Readings
es1 = entry s0 true (pos 1) ∷ []

abbrev es2 : Readings
es2 = entry s1 true (pos 2) ∷ es1

abbrev es3 : Readings
es3 = entry s2 false (pos 3) ∷ es2

trace1 : Trace cfg s1 es1
trace1 = observe (begin s0 refl) true (pos 1) s1 refl

trace2 : Trace cfg s2 es2
trace2 = observe trace1 true (pos 2) s2 refl

trace3 : Trace cfg s3 es3
trace3 = observe trace2 false (pos 3) s3 refl

-- The second anomaly alerts, the one inside the holdoff does not, and the normal reading calms.
answers :
    ((process s1 true (pos 2)).1 ≡ true)
    × ((process s2 true (pos 3)).1 ≡ false)
    × (s3.state ≡ normal)
unfolding process new_suppressor held_off time_sub add_int
answers = (refl, refl, refl)

-- After the calm reading two anomalies alert again, inside the holdoff of the alert at 2.
alerts_inside_holdoff : (process (process s3 true (pos 4)).0 true (pos 5)).1 ≡ true
unfolding process new_suppressor add_int
alerts_inside_holdoff = refl

Trace-Remembers_example : Remembers s3 es3
Trace-Remembers_example = Trace-Remembers trace3 (omega arith)

alert-cause_example :
    (◌≡◌ {A = Bool} true true) × (NewIncident s1.cfg es1 ⊎ OldIncident s1.cfg es1 (pos 2))
alert-cause_example = alert-cause trace1 true (pos 2) (omega arith) answers.0

silence-cause_example :
    (((process s2 true (pos 3)).0.state ≡ normal) × TooShort s2.cfg es2)
    ⊎ (((process s2 true (pos 3)).0.state ≡ suppressed) × InHoldoff s2.cfg es2 (pos 3))
silence-cause_example = silence-cause trace2 (pos 3) (omega arith) answers.1

enough : s3.cfg.min_consecutive_normals ≤ℤ pos (normal_streak es3)
unfolding process new_suppressor add_int
enough = omega arith

enough_normals_example : s3.state ≡ normal
enough_normals_example = enough_normals trace3 (omega arith) enough
