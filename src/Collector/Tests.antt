-- ===== src/Collector/Tests.antt =====
-- The parser on a line of /proc/stat, and its theorem there.

use edge_telemetry_daemon.Shared.{◌≡◌, refl, arith, none, some, [], ◌∷◌, ◌++◌}
use edge_telemetry_daemon.Shared.Text.{codes}
use edge_telemetry_daemon.Collector.{skip_token, skip_word, rest_or_none, parse_cpu_line}
use edge_telemetry_daemon.Shared.Scan.{is_digit, is_blank, skip_while}
use edge_telemetry_daemon.Shared.Decimal.{decimal_from}
use edge_telemetry_daemon.Collector.Fields.{row, parse_cpu_line-row}

label_only : skip_token (codes "cpu") ≡ none
unfolding skip_token skip_word is_blank rest_or_none skip_while
label_only = refl

-- 10 20 3 4 5 6 7 8 9 0
parse_cpu_line-row_example :
    parse_cpu_line (
      codes "cpu  "
      ++ row
          (49, codes "0")
          ((50, codes "0")
            ∷ (51, [])
            ∷ (52, [])
            ∷ (53, [])
            ∷ (54, [])
            ∷ (55, [])
            ∷ (56, [])
            ∷ (57, [])
            ∷ (48, [])
            ∷ [])
          (codes "cpu0 1"))
    ≡ some (record {
      user = 10;
      nice = 20;
      system = 3;
      idle = 4;
      iowait = 5;
      irq = 6;
      softirq = 7;
      steal = 8;
      guest = 9;
      guest_n = 0;
      total = 72;
    })
unfolding is_digit decimal_from
parse_cpu_line-row_example =
    parse_cpu_line-row (49, codes "0") (50, codes "0") (51, []) (52, []) (53, []) (54, []) (55, [])
      (56, []) (57, []) (48, []) (codes "cpu0 1")
      (
        ((refl, (refl, tt)), omega arith),
        (
          ((refl, (refl, tt)), omega arith),
          (
            ((refl, tt), omega arith),
            (
              ((refl, tt), omega arith),
              (
                ((refl, tt), omega arith),
                (
                  ((refl, tt), omega arith),
                  (
                    ((refl, tt), omega arith),
                    (
                      ((refl, tt), omega arith),
                      (((refl, tt), omega arith), (((refl, tt), omega arith), tt)),
                    ),
                  ),
                ),
              ),
            ),
          ),
        ),
      )
