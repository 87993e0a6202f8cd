-- ===== src/Traceroute/Metrics.antt =====
-- The exporter of traceroute results meets the laws of the interface.
use atlas_exporter.Probe.Labels.{latitude_total, longitude_total}
use atlas_exporter.Prelude.Outcome.{done, Outcome-done}
use atlas_exporter.Exporter.Laws.{ExporterLaws, IsWellFormed}
use atlas_exporter.Prelude.{List, ◌≡◌, length, All, ◌≢◌, arith}
use atlas_exporter.Probe.{Probe}
use atlas_exporter.Result.{Result}
use atlas_exporter.Prelude.Text.{Text}
use atlas_exporter.Traceroute.{exporter, export, label_values, metrics, describe}
use atlas_exporter.Exporter.Labelled.{labelled-Laws}
use atlas_exporter.Float.{Floats}

module _ {F : Type 0} ⦃fl : Floats F⦄ where
  length-label_values :
      (id : Text) (res : Result F) (p : Probe F) (vs : List Text)
      → label_values id res p ≡ done vs
      → length vs ≡ 10
  unfolding label_values
  length-label_values id res p vs h = ground arith

  metrics-IsWellFormed :
      (res : Result F) (vs : List Text)
      → length vs ≡ 10
      → All (IsWellFormed describe) (metrics res vs)
  unfolding metrics describe
  metrics-IsWellFormed res vs h = ground arith

  label_values_total :
      (id : Text) (res : Result F) (p : Probe F)
      → length p.coordinates ≢ 1
      → (vs : List Text) × (label_values id res p ≡ done vs)
  unfolding label_values
  label_values_total id res p h =
      let (lat, e) = latitude_total p h in
      let (long, f) = longitude_total p in Outcome-done _ (rw (e, f) tt)

  -- Every metric that is exported of a traceroute result is one of those that `Describe` sends, with as many
  -- label values as it has labels; and no readable probe panics.
  pub exporter-Laws : (id : Text) → ExporterLaws (exporter {F = F} id)
  unfolding exporter export
  exporter-Laws id =
      labelled-Laws (λ global _. global) (λ _. label_values id) metrics describe 10
        (λ _. length-label_values id) metrics-IsWellFormed (λ _. label_values_total id)
