-- ===== src/Collector/Mem/Tests.antt =====
-- A file of two fields and an unknown key, and the theorem there.
use edge_telemetry_daemon.Shared.{
  ◌≡◌, ◌<◌, refl, arith, true, false, some, List, [], ◌∷◌, map, length,
}
use edge_telemetry_daemon.Shared.Text.{codes}
use edge_telemetry_daemon.Shared.Scan.{is_digit, is_white}
use edge_telemetry_daemon.Shared.Scan.Trim.{is_loose}
use edge_telemetry_daemon.Shared.Scan.Lines.{unlines}
use edge_telemetry_daemon.Shared.Scan.Entries.{Entry, IsEntry, line_of}
use edge_telemetry_daemon.Shared.Decimal.{decimal_from}
use edge_telemetry_daemon.KernelFile.{Os}
use edge_telemetry_daemon.Collector.Mem.{MemStats, of_mem_available, collect_mem}
use edge_telemetry_daemon.Collector.Mem.RoundTrip.{get, latest, recognises, collect_mem-unlines}

-- `MemTotal:  90 kB`
abbrev total : Entry
total = record {
  first = b'M';
  others = codes "emTotal";
  spaces = 2;
  number = (b'9', codes "0");
  in_kb = true;
}

-- `MemAvailable: 7 kB`
abbrev available : Entry
available = record {
  first = b'M';
  others = codes "emAvailable";
  spaces = 1;
  number = (b'7', []);
  in_kb = true;
}

-- `Huge:0`
abbrev huge : Entry
huge = record { first = b'H'; others = codes "uge"; spaces = 0; number = (b'0', []); in_kb = false }

abbrev entries : List Entry
entries = total ∷ available ∷ huge ∷ []

abbrev os : Os
os = record { open_file = λ _. true; read_file = λ _ _. some (unlines (map (line_of 58) entries)) }

abbrev before : MemStats
before = record {
  mem_total = 0;
  mem_free = 3;
  mem_available = 0;
  buffers = 0;
  cached = 0;
  swap_total = 0;
  swap_free = 0;
}

total-IsEntry : IsEntry 58 total
unfolding is_loose is_white is_digit decimal_from
total-IsEntry = record {
  starts = refl;
  whole = (refl, (refl, (refl, (refl, (refl, (refl, (refl, (refl, tt))))))));
  one_line = (refl, (refl, (refl, (refl, (refl, (refl, (refl, (refl, tt))))))));
  number = ((refl, (refl, tt)), omega arith);
}

available-IsEntry : IsEntry 58 available
unfolding is_loose is_white is_digit decimal_from
available-IsEntry = record {
  starts = refl;
  whole = (
    refl,
    (refl, (refl, (refl, (refl, (refl, (refl, (refl, (refl, (refl, (refl, (refl, tt))))))))))),
  );
  one_line = (
    refl,
    (refl, (refl, (refl, (refl, (refl, (refl, (refl, (refl, (refl, (refl, (refl, tt))))))))))),
  );
  number = ((refl, tt), omega arith);
}

huge-IsEntry : IsEntry 58 huge
unfolding is_loose is_white is_digit decimal_from
huge-IsEntry = record {
  starts = refl;
  whole = (refl, (refl, (refl, (refl, tt))));
  one_line = (refl, (refl, (refl, (refl, tt))));
  number = ((refl, tt), omega arith);
}

short : length (unlines (map (line_of 58) entries)) < 4096
unfolding unlines
short = omega arith

collect_mem-unlines_example :
    let (out', fine) = collect_mem os (codes "/proc") before in
    (get of_mem_available out' ≡ latest of_mem_available entries (get of_mem_available before))
    × (fine ≡ recognises entries)
collect_mem-unlines_example =
    collect_mem-unlines os (codes "/proc") entries before of_mem_available
      (refl, (refl, (refl, (refl, (refl, tt))))) (omega arith)
      (total-IsEntry, (available-IsEntry, (huge-IsEntry, tt))) refl refl short
