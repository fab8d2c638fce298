-- ===== src/Metrics/Registry.antt =====
-- The registry, and the text that it writes to a scraper.

use edge_telemetry_daemon.Shared.{ℕ, Bool, true, false, if◌then◌else◌, List, [], ◌∷◌, ◌++◌}
use edge_telemetry_daemon.Shared.Float.{Float}
use edge_telemetry_daemon.Shared.Text.{Bytes, codes}
use edge_telemetry_daemon.Metrics.{
  MetricType, counter, gauge, Metric, FloatBits, float64_value, value,
}

abbrev pub Registry : Type 0
Registry = List Metric

abbrev pub new_registry : Registry
new_registry = []

-- The metric that NewCounter or NewGauge makes, and the registry with it.
pub new_metric : MetricType → Bytes → Bytes → Registry → Metric × Registry
new_metric type name help r =
    let m : Metric = record { name = name; help = help; type = type; val_bits = 0 } in
    (m, r ++ (m ∷ []))

pub new_counter : Bytes → Bytes → Registry → Metric × Registry
new_counter = new_metric counter

pub new_gauge : Bytes → Bytes → Registry → Metric × Registry
new_gauge = new_metric gauge

pub type_name : MetricType → Bytes
type_name counter = codes "counter"
type_name gauge = codes "gauge"

-- fmt's `%f` and `%d`.
pub record Show {ℓ} (F : Type ℓ) : Type ℓ where
  pub show_float : F → Bytes
  pub show_uint : ℕ → Bytes

module _ {ℓ} {F : Type ℓ} ⦃f : Float F⦄ (w : FloatBits F) (sh : Show F) where
  pub value_text : Metric → Bytes
  value_text m = elim m.type [
    | gauge ↦ sh.show_float (float64_value w m)
    | counter ↦ sh.show_uint (value w m)
  ]

  -- `"# HELP %s %s\n# TYPE %s %s\n%s %f\n"`, or with `%d`.
  pub metric_text : Metric → Bytes
  metric_text m =
      codes "# HELP "
      ++ (m.name
          ++ (codes " "
              ++ (m.help
                  ++ (codes "\n# TYPE "
                      ++ (m.name
                          ++ (codes " "
                              ++ (type_name m.type
                                  ++ (codes "\n"
                                      ++ (m.name
                                          ++ (codes " " ++ (value_text m ++ codes "\n")))))))))))

  -- WriteText to a writer, whose write says whether it succeeded; `true` is no error.
  pub write_text : {W : Type 0} → (Bytes → W → W × Bool) → Registry → W → W × Bool
  write_text write [] out = (out, true)
  write_text write (m ∷ r) out =
      let (out', ok) = write (metric_text m) out in
      elim ok [ true ↦ write_text write r out' | false ↦ (out', false) ]

  -- Handler, where `set_header` and `write` are the response's and `error` is `http.Error`.
  pub handler :
      {W : Type 0} (set_header : Bytes → Bytes → W → W) (write : Bytes → W → W × Bool)
      (error : Bytes → ℕ → W → W)
      → Registry
      → W
      → W
  handler set_header write error r w =
      let typed =
        set_header (codes "Content-Type") (codes "text/plain; version=0.0.4; charset=utf-8") w in
      let (out, ok) = write_text write r typed in
      if ok then out else error (codes "metrics export error") 500 out
