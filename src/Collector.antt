-- ===== src/Collector.antt =====
-- collector.go: the collector of the measurements of one scrape.
pub mod Grown
pub mod Names
pub mod Registration
pub mod Series
pub mod Total
use atlas_exporter.Prelude.Outcome.{Outcome, done, ◌>>=◌}
use atlas_exporter.Prelude.Text.{Text}
use atlas_exporter.Prelude.Int.{ℤ}
use atlas_exporter.Result.{Result}
use atlas_exporter.Exporter.Measurement.{Measurement, Description, Sample}
use atlas_exporter.Prelude.{List, ◌∷◌, ◌++◌, []}
use atlas_exporter.Exporter.Measurement

pub record Collector (F : Type 0) : Type 0 where
  pub measurements : List (Measurement F)

module _ {F : Type 0} where
  unfoldable pub new_collector : List (Measurement F) → Collector F
  new_collector measurements = record { measurements = measurements }

  -- The loop of `Collect`. What is sent goes to one channel; the text is the package variable of package
  -- sslcert.
  unfoldable pub collect_all :
      (List (Result F) → List (Result F))
      → (Result F → ℤ)
      → List (Measurement F)
      → Text
      → Outcome (Text × List (Sample F))
  collect_all order clock [] global = done (global, [])
  collect_all order clock (m ∷ ms) global = do
    (global', sent) ← Measurement.collect m order clock global
    (global'', rest) ← collect_all order clock ms global'
    done (global'', sent ++ rest)

  unfoldable pub collect :
      Collector F
      → (List (Result F) → List (Result F))
      → (Result F → ℤ)
      → Text
      → Outcome (Text × List (Sample F))
  unfolding collect_all
  collect c order clock global = collect_all order clock c.measurements global

  -- The loop of `Describe`.
  unfoldable pub describe_all : List (Measurement F) → List (Description F)
  describe_all [] = []
  describe_all (m ∷ ms) = Measurement.describe m ++ describe_all ms

  unfoldable pub describe : Collector F → List (Description F)
  unfolding describe_all
  describe c = describe_all c.measurements
