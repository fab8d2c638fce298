-- ===== src/Cgroup/Stat/Tests.antt =====
-- A file of one known key, and the theorem there.
use edge_telemetry_daemon.Shared.{◌≡◌, refl, arith, true, false, some, List, [], ◌∷◌, map}
use edge_telemetry_daemon.Shared.Text.{codes}
use edge_telemetry_daemon.Shared.Scan.{is_digit, is_white}
use edge_telemetry_daemon.Shared.Scan.Trim.{is_loose}
use edge_telemetry_daemon.Shared.Scan.Lines.{unlines}
use edge_telemetry_daemon.Shared.Scan.Entries.{Entry, IsEntry, line_of}
use edge_telemetry_daemon.Shared.Decimal.{decimal_from}
use edge_telemetry_daemon.KernelFile.{Os}
use edge_telemetry_daemon.Cgroup.Stat.{
  CpuStat, of_usage_usec, of_nr_periods, of_nr_throttled, of_throttled_usec, read_cpu_stat,
}
use edge_telemetry_daemon.Cgroup.Stat.RoundTrip.{latest, read_cpu_stat-unlines}

-- `nr_periods 12`
abbrev periods : Entry
periods = record {
  first = b'n';
  others = codes "r_periods";
  spaces = 0;
  number = (b'1', codes "2");
  in_kb = false;
}

abbrev entries : List Entry
entries = periods ∷ []

abbrev os : Os
os = record { open_file = λ _. true; read_file = λ _ _. some (unlines (map (line_of 32) entries)) }

periods-IsEntry : IsEntry 32 periods
unfolding is_loose is_white is_digit decimal_from
periods-IsEntry = record {
  starts = refl;
  whole = (refl, (refl, (refl, (refl, (refl, (refl, (refl, (refl, (refl, (refl, tt))))))))));
  one_line = (refl, (refl, (refl, (refl, (refl, (refl, (refl, (refl, (refl, (refl, tt))))))))));
  number = ((refl, (refl, tt)), omega arith);
}

read_cpu_stat-unlines_example :
    (stat : CpuStat) × (read_cpu_stat os (codes "/c") ≡ some stat)
    × (stat.usage_usec ≡ latest of_usage_usec entries 0)
    × (stat.nr_periods ≡ latest of_nr_periods entries 0)
    × (stat.nr_throttled ≡ latest of_nr_throttled entries 0)
    × (stat.throttled_usec ≡ latest of_throttled_usec entries 0)
read_cpu_stat-unlines_example =
    read_cpu_stat-unlines os (codes "/c") entries (refl, (refl, tt)) (omega arith)
      (periods-IsEntry, tt) refl refl
