-- ===== src/Filter/Suppressor/Alerts.antt =====
-- When an alert fires, and when an anomaly stays silent, in terms of the readings so far.
use edge_telemetry_daemon.Shared.{
  ◌+◌, ◌^◌, ◌<◌, ◌≡◌, ◌≢◌, ◌⊎◌, inl, inr, refl, ap, ◌∙◌, Bool, true, false, arith, none, some,
  length, if_ind,
}
use edge_telemetry_daemon.Shared.Int.{pos, ◌≤ℤ◌, ◌<ℤ◌, leb_ℤ, inc_int}
use edge_telemetry_daemon.Shared.Time.{Time, Duration, zero_time, time_sub}
use edge_telemetry_daemon.Filter.Suppressor.{
  SuppressorState, normal, alerting, suppressed, SuppressorConfig, Suppressor, new_suppressor,
  process, on_anomaly, on_active, on_normal, held_off, count_anomaly, count_normal,
}
use edge_telemetry_daemon.Filter.Suppressor.Trace.{
  Readings, Trace, begin, observe, anomalous_streak, normal_streak, newest_alert, Recovered,
  Remembers, new-Remembers, process-Remembers, more_anoms, more_norms,
}

on_anomaly-cfg :
    (m : SuppressorState) (s : Suppressor) (now : Time) → (on_anomaly m s now).0.cfg ≡ s.cfg
unfolding on_anomaly
on_anomaly-cfg normal s now = ground arith
on_anomaly-cfg alerting s now = ground arith
on_anomaly-cfg suppressed s now = ground arith

process-cfg : (s : Suppressor) (b : Bool) (now : Time) → (process s b now).0.cfg ≡ s.cfg
unfolding process
process-cfg s true now = on_anomaly-cfg s.state (count_anomaly s) now
process-cfg s false now = ground arith

Trace-cfg :
    {cfg : SuppressorConfig} {s : Suppressor} {es : Readings}
    → Trace cfg s es
    → s.cfg ≡ (new_suppressor cfg).cfg
Trace-cfg (begin s e) = ap (λ (x : Suppressor). x.cfg) e
Trace-cfg (observe {s} tr b now s' e) =
    ap (λ (x : Suppressor). x.cfg) e ∙ process-cfg s b now ∙ Trace-cfg tr

-- In every run of fewer than 2 ^ 63 readings the suppressor remembers of the readings what it
-- should.
pub Trace-Remembers :
    {cfg : SuppressorConfig} {s : Suppressor} {es : Readings}
    → Trace cfg s es
    → length es < 2 ^ 63
    → Remembers s es
Trace-Remembers {cfg} (begin s e) h = rw e (new-Remembers cfg)
Trace-Remembers (observe {s} {es} tr b now s' e) h =
    rw e (process-Remembers b now (omega arith) (Trace-Remembers tr (omega arith)))

-- The holdoff has passed since an alert at `last`. An alert at the zero time counts as none.
abbrev pub HeldOff : Duration → Time → Time → Type 0
HeldOff holdoff last now = (holdoff ≡ pos 0) ⊎ ((last ≢ zero_time) × (holdoff ≤ℤ time_sub now last))

held_off_sound :
    (s : Suppressor) (now : Time)
    → held_off s now ≡ true
    → HeldOff s.cfg.holdoff_duration s.last_alert_time now
unfolding held_off
held_off_sound s now h = ground arith

-- And it has not.
held_off_complete :
    (s : Suppressor) (now : Time)
    → held_off s now ≡ false
    → ¬ HeldOff s.cfg.holdoff_duration s.last_alert_time now
unfolding held_off
held_off_complete s now h (inl e) = ground arith
held_off_complete s now h (inr (ne, le)) = ground (arith, ne, le)

-- The anomaly makes a streak of the wanted length, with no alert before it or with as many normal
-- readings as are wanted since the newest alert.
abbrev pub NewIncident : SuppressorConfig → Readings → Type 0
NewIncident cfg es =
    (cfg.min_consecutive_anomalies ≤ℤ pos (anomalous_streak es + 1))
    × ((newest_alert es ≡ none) ⊎ Recovered cfg.min_consecutive_normals es)

-- The newest alert is of the same incident, and its holdoff has passed.
abbrev pub OldIncident : SuppressorConfig → Readings → Time → Type 0
OldIncident cfg es now =
    (last : Time) × (newest_alert es ≡ some last) × HeldOff cfg.holdoff_duration last now

abbrev Causes : Suppressor → Readings → Time → Suppressor × Bool → Type 0
Causes s es now r = r.1 ≡ true → NewIncident s.cfg es ⊎ OldIncident s.cfg es now

module _ {s : Suppressor} {es : Readings} (now : Time) (h : length es + 1 < 2 ^ 63)
    (r : Remembers s es) where
  on_active-cause : s.state ≢ normal → Causes s es now (on_active (count_anomaly s) now)
  unfolding on_active
  on_active-cause ne =
      if_ind (Causes s es now) (held_off (count_anomaly s) now)
        (λ t _. inr (s.last_alert_time, r.active ne, held_off_sound (count_anomaly s) now t))
        (λ _ t. cc)

  on_anomaly-cause :
      (m : SuppressorState) → s.state ≡ m → Causes s es now (on_anomaly m (count_anomaly s) now)
  unfolding on_anomaly
  on_anomaly-cause normal e =
      if_ind (Causes s es now) (leb_ℤ s.cfg.min_consecutive_anomalies (inc_int s.consecutive_anoms))
        (λ enough _. inl (ground (arith, more_anoms now h r), r.calm e)) (λ _ t. cc)
  on_anomaly-cause alerting e = on_active-cause (λ n. cc)
  on_anomaly-cause suppressed e = on_active-cause (λ n. cc)

-- An alert fires only for an anomaly. Either it makes the streak of anomalies long enough, and no
-- alert came before it or at some point since the newest alert enough readings in a row were
-- normal; or the holdoff has passed since the newest alert.
pub alert-cause :
    {cfg : SuppressorConfig} {s : Suppressor} {es : Readings}
    → Trace cfg s es
    → (b : Bool) (now : Time) → length es + 1 < 2 ^ 63
    → (process s b now).1 ≡ true
    → (b ≡ true) × (NewIncident s.cfg es ⊎ OldIncident s.cfg es now)
unfolding process
alert-cause {s = s} {es = es} tr true now h fires =
    (refl, on_anomaly-cause now h (Trace-Remembers tr (omega arith)) s.state refl fires)
alert-cause {s = s} {es = es} tr false now h fires = cc

-- Why an anomaly stays silent.
abbrev pub TooShort : SuppressorConfig → Readings → Type 0
TooShort cfg es = pos (anomalous_streak es + 1) <ℤ cfg.min_consecutive_anomalies

abbrev pub InHoldoff : SuppressorConfig → Readings → Time → Type 0
InHoldoff cfg es now =
    (last : Time) × (newest_alert es ≡ some last) × (¬ HeldOff cfg.holdoff_duration last now)

abbrev Silences : Suppressor → Readings → Time → Suppressor × Bool → Type 0
Silences s es now r =
    r.1 ≡ false
    → ((r.0.state ≡ normal) × TooShort s.cfg es)
      ⊎ ((r.0.state ≡ suppressed) × InHoldoff s.cfg es now)

module _ {s : Suppressor} {es : Readings} (now : Time) (h : length es + 1 < 2 ^ 63)
    (r : Remembers s es) where
  on_active-silence : s.state ≢ normal → Silences s es now (on_active (count_anomaly s) now)
  unfolding on_active
  on_active-silence ne =
      if_ind (Silences s es now) (held_off (count_anomaly s) now) (λ _ t. cc)
        (λ t _.
          inr (refl, (s.last_alert_time, r.active ne, held_off_complete (count_anomaly s) now t)))

  on_anomaly-silence :
      (m : SuppressorState) → s.state ≡ m → Silences s es now (on_anomaly m (count_anomaly s) now)
  unfolding on_anomaly
  on_anomaly-silence normal e =
      if_ind (Silences s es now)
        (leb_ℤ s.cfg.min_consecutive_anomalies (inc_int s.consecutive_anoms)) (λ _ t. cc)
        (λ few _. inl (e, ground (arith, more_anoms now h r)))
  on_anomaly-silence alerting e = on_active-silence (λ n. cc)
  on_anomaly-silence suppressed e = on_active-silence (λ n. cc)

-- An anomaly fires no alert only where its streak is too short, and then the state is `normal`, or
-- where the holdoff of the newest alert has not passed, and then it is `suppressed`.
pub silence-cause :
    {cfg : SuppressorConfig} {s : Suppressor} {es : Readings}
    → Trace cfg s es
    → (now : Time) → length es + 1 < 2 ^ 63
    → (process s true now).1 ≡ false
    → (((process s true now).0.state ≡ normal) × TooShort s.cfg es)
      ⊎ (((process s true now).0.state ≡ suppressed) × InHoldoff s.cfg es now)
unfolding process
silence-cause {s = s} tr now h quiet =
    on_anomaly-silence now h (Trace-Remembers tr (omega arith)) s.state refl quiet

normals_pos : (cfg : SuppressorConfig) → pos 1 ≤ℤ (new_suppressor cfg).cfg.min_consecutive_normals
unfolding new_suppressor
normals_pos cfg = ground arith

on_normal-enough :
    (s : Suppressor)
    → s.cfg.min_consecutive_normals ≤ℤ inc_int s.consecutive_norms
    → (on_normal (count_normal s)).0.state ≡ normal
unfolding on_normal
on_normal-enough s h =
    if_ind (λ (s' : Suppressor). s'.state ≡ normal)
      (leb_ℤ s.cfg.min_consecutive_normals (inc_int s.consecutive_norms)) (λ _. refl)
      (λ few. absurd (ground arith))

-- Once the newest readings are normal, as many in a row as the configuration wants, the state is
-- `normal`, whatever came before.
pub enough_normals :
    {cfg : SuppressorConfig} {s : Suppressor} {es : Readings}
    → Trace cfg s es
    → length es < 2 ^ 63
    → s.cfg.min_consecutive_normals ≤ℤ pos (normal_streak es)
    → s.state ≡ normal
unfolding process
enough_normals {cfg} {s} (begin _ e) h enough = rw e (unfold new_suppressor in refl)
enough_normals {cfg} {s} (observe {s = s0} {es = es0} tr true now _ e) h enough =
    let wanted : pos 1 ≤ℤ s.cfg.min_consecutive_normals =
      rw (Trace-cfg (observe tr true now s e)) (normals_pos cfg) in
    absurd (omega arith)
enough_normals {cfg} {s} (observe {s = s0} {es = es0} tr false now _ e) h enough =
    let same : s.cfg ≡ s0.cfg = ap (λ (x : Suppressor). x.cfg) e ∙ process-cfg s0 false now in
    let counted = more_norms now (omega arith) (Trace-Remembers tr (omega arith)) in
    rw e (on_normal-enough s0 (rw counted (rw same at enough)))

on_anomaly-awake :
    (m : SuppressorState) (s : Suppressor) (now : Time)
    → m ≡ normal
    → s.state ≡ normal
    → (on_anomaly m s now).0.state ≢ suppressed
unfolding on_anomaly
on_anomaly-awake normal s now e n =
    if_ind (λ (r : Suppressor × Bool). r.0.state ≢ suppressed)
      (leb_ℤ s.cfg.min_consecutive_anomalies s.consecutive_anoms) (λ _ e'. cc) (λ _ e'. cc)
on_anomaly-awake alerting s now e n = cc
on_anomaly-awake suppressed s now e n = cc

-- No reading takes a normal state to the suppressed one.
pub process-awake :
    (s : Suppressor) (b : Bool) (now : Time)
    → s.state ≡ normal
    → (process s b now).0.state ≢ suppressed
unfolding process
process-awake s true now n = on_anomaly-awake s.state (count_anomaly s) now n n
process-awake s false now n =
    if_ind (λ (t : Suppressor). t.state ≢ suppressed)
      (leb_ℤ s.cfg.min_consecutive_normals (count_normal s).consecutive_norms) (λ _ e. cc)
      (λ _ e. cc)
