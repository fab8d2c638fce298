-- ===== src/Agent/Usage.antt =====
-- cmd/agent/main.go: `collectUsage`, what a tick reads.
pub mod Gaps
pub mod Spikes
pub mod Untouched
use mathlib.Core.Option
use edge_telemetry_daemon.Shared.{
  ℕ, ◌+◌, ◌-◌, ◌%◌, ◌^◌, Bool, true, false, not, ◌&&◌, Option, none, some, if◌then◌else◌, ltb, leb,
  add64, u64_mod,
}
use edge_telemetry_daemon.Shared.Int.{ℤ, pos, leb_ℤ, ◌-ℤ◌}
use edge_telemetry_daemon.Shared.Float.{Float, nought, one}
use edge_telemetry_daemon.Collector.{CpuStats, collect_cpu}
use edge_telemetry_daemon.Collector.Mem.{MemStats, collect_mem}
use edge_telemetry_daemon.Collector.Generator.{AiGen, Draws, next_sample}
use edge_telemetry_daemon.Agent.State.{Agent, Sources, Reading}

-- `User + Nice + System`
pub work_of : CpuStats → ℕ
work_of s = add64 (add64 s.user s.nice) s.system

-- Subtraction of uint64.
pub sub64 : ℕ → ℕ → ℕ
sub64 a b = (a + 2 ^ 64 - b) % 2 ^ 64

module _ {ℓ} {F : Type ℓ} ⦃f : Float F⦄ where
  open f use {add, sub, mul, div, le, is_nan, of_ratio, of_uint, to_uint}

  -- `==` of floats
  pub equals : F → F → Bool
  equals x y = le x y && le y x

  -- The percentage of the time between two samples, where the total grew.
  unfoldable pub cpu_percent : CpuStats → CpuStats → F
  cpu_percent prev cur =
      mul
        (div (of_uint (sub64 (work_of cur) (work_of prev))) (of_uint (sub64 cur.total prev.total)))
        (of_ratio 100 1)

  unfoldable pub take_sample : CpuStats → Agent F → Agent F × F
  take_sample cur a =
      let kept : Agent F = record a { prev_cpu = cur; has_prev_cpu = true } in
      if a.has_prev_cpu && ltb a.prev_cpu.total cur.total
      then (
        record kept { metrics = record (a.metrics) { cpu = cpu_percent a.prev_cpu cur } },
        cpu_percent a.prev_cpu cur,
      )
      else (kept, a.metrics.cpu)

  -- A failed read repeats the gauge's value.
  unfoldable pub read_sample : Option CpuStats → Agent F → Agent F × F
  read_sample none a = (a, a.metrics.cpu)
  read_sample (some cur) a = take_sample cur a

  unfoldable pub cpu_usage : Sources F → Agent F → Agent F × F
  cpu_usage s a = read_sample (collect_cpu s.os a.cfg.procfs_path) a

  unfoldable pub mem_percent : MemStats → F
  mem_percent m =
      mul (sub one (div (of_uint m.mem_available) (of_uint m.mem_total))) (of_ratio 100 1)

  unfoldable pub mem_usage : Sources F → Agent F → Agent F × F
  mem_usage s a =
      let (m, ok) = collect_mem s.os a.cfg.procfs_path a.mem_stats in
      let kept : Agent F = record a { mem_stats = m } in
      if ok && (ltb 0 m.mem_total && leb m.mem_available m.mem_total)
      then (record kept { metrics = record (a.metrics) { mem = mem_percent m } }, mem_percent m)
      else (kept, a.metrics.mem)

  pub inferences : Option (AiGen F) → Draws F → F
  inferences none d = nought
  inferences (some g) d = (next_sample g d).inferences_per_sec

  -- What a spike makes of a reading.
  unfoldable pub amplify : Reading F → Reading F
  amplify r = record {
    cpu_pct = add r.cpu_pct (of_ratio 90 1);
    mem_pct = add r.mem_pct (of_ratio 90 1);
    inferences_per_sec =
        if equals r.inferences_per_sec nought
        then of_ratio 500 1
        else mul r.inferences_per_sec (of_ratio 50 1);
  }

  -- The loop over the scheduled spikes, where nothing else stores to them meanwhile.
  unfoldable pub take_spike : Agent F → Reading F → Agent F × Reading F
  take_spike a r =
      if leb_ℤ a.inject_spikes (pos 0)
      then (a, r)
      else (record a { inject_spikes = a.inject_spikes -ℤ pos 1 }, amplify r)

  unfoldable pub show_throughput : Agent F × Reading F → Agent F × Reading F
  show_throughput (a, r) = (
    record a {
      metrics = record (a.metrics) { throughput = of_uint (to_uint r.inferences_per_sec) };
    },
    r,
  )

  unfoldable pub collect_usage : Sources F → Agent F → Agent F × Reading F
  collect_usage s a =
      let (a', cpu) = cpu_usage s a in
      let (a'', mem) = mem_usage s a' in
      show_throughput (
        take_spike a'' (record {
          cpu_pct = cpu;
          mem_pct = mem;
          inferences_per_sec = inferences a.ai_gen s.draws;
        }))

-- `/inject/anomaly`
unfoldable pub inject_anomaly {ℓ} : {F : Type ℓ} → Agent F → Agent F
inject_anomaly a = record a { inject_spikes = pos 3 }
