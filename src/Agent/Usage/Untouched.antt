-- ===== src/Agent/Usage/Untouched.antt =====
-- What `collectUsage` leaves alone.
use edge_telemetry_daemon.Shared.{◌≡◌, refl, ap, ◌∙◌, ◌&&◌, ltb, leb, Option, none, some, if_ind}
use edge_telemetry_daemon.Shared.Int.{pos, leb_ℤ}
use edge_telemetry_daemon.Shared.Float.{Float}
use edge_telemetry_daemon.Collector.{CpuStats, collect_cpu}
use edge_telemetry_daemon.Collector.Mem.{collect_mem}
use edge_telemetry_daemon.Agent.State.{Agent, Sources, Reading}
use edge_telemetry_daemon.Agent.Usage.{
  collect_usage, cpu_usage, read_sample, take_sample, mem_usage, take_spike, show_throughput,
}

-- The second agent is the first but for the samples, the gauges, the spikes and the last tick.
abbrev pub Untouched {ℓ} : {F : Type ℓ} → Agent F → Agent F → Type ℓ
Untouched a b = b ≡ record a {
  prev_tick = b.prev_tick;
  inject_spikes = b.inject_spikes;
  metrics = b.metrics;
  prev_cpu = b.prev_cpu;
  has_prev_cpu = b.has_prev_cpu;
  mem_stats = b.mem_stats;
}

module _ {ℓ} {F : Type ℓ} ⦃f : Float F⦄ where
  pub Untouched-trans : (a b c : Agent F) → Untouched a b → Untouched b c → Untouched a c
  Untouched-trans a b c p q =
      q
      ∙ ap
          (λ (x : Agent F). record x {
            prev_tick = c.prev_tick;
            inject_spikes = c.inject_spikes;
            metrics = c.metrics;
            prev_cpu = c.prev_cpu;
            has_prev_cpu = c.has_prev_cpu;
            mem_stats = c.mem_stats;
          })
          p

  take_sample-Untouched : (cur : CpuStats) (a : Agent F) → Untouched a (take_sample cur a).0
  unfolding take_sample
  take_sample-Untouched cur a =
      if_ind (λ (r : Agent F × F). Untouched a r.0)
        (a.has_prev_cpu && ltb a.prev_cpu.total cur.total) (λ _. refl) (λ _. refl)

  read_sample-Untouched : (c : Option CpuStats) (a : Agent F) → Untouched a (read_sample c a).0
  unfolding read_sample
  read_sample-Untouched none a = refl
  read_sample-Untouched (some cur) a = take_sample-Untouched cur a

  mem_usage-Untouched : (s : Sources F) (a : Agent F) → Untouched a (mem_usage s a).0
  unfolding mem_usage
  mem_usage-Untouched s a =
      let m = (collect_mem s.os a.cfg.procfs_path a.mem_stats).0 in
      let ok = (collect_mem s.os a.cfg.procfs_path a.mem_stats).1 in
      if_ind (λ (r : Agent F × F). Untouched a r.0)
        (ok && (ltb 0 m.mem_total && leb m.mem_available m.mem_total)) (λ _. refl) (λ _. refl)

  take_spike-Untouched : (a : Agent F) (r : Reading F) → Untouched a (take_spike a r).0
  unfolding take_spike
  take_spike-Untouched a r =
      if_ind (λ (x : Agent F × Reading F). Untouched a x.0) (leb_ℤ a.inject_spikes (pos 0))
        (λ _. refl) (λ _. refl)

  show_throughput-Untouched : (x : Agent F × Reading F) → Untouched x.0 (show_throughput x).0
  unfolding show_throughput
  show_throughput-Untouched (a, r) = refl

  pub collect_usage-Untouched : (s : Sources F) (a : Agent F) → Untouched a (collect_usage s a).0
  unfolding collect_usage cpu_usage
  collect_usage-Untouched s a =
      let b = (cpu_usage s a).0 in
      let c = (mem_usage s b).0 in
      let spiked = take_spike c _ in
      Untouched-trans a b _ (read_sample-Untouched (collect_cpu s.os a.cfg.procfs_path) a) (
        Untouched-trans b c _ (mem_usage-Untouched s b) (
          Untouched-trans c spiked.0 _ (take_spike-Untouched c _)
            (show_throughput-Untouched spiked)))
