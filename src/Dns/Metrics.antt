-- ===== src/Dns/Metrics.antt =====
-- The exporter of DNS results meets the laws of the interface.
use atlas_exporter.Probe.Labels.{latitude_total, longitude_total}
use atlas_exporter.Prelude.Outcome.{done, Outcome-done}
use atlas_exporter.Prelude.Text.{Text}
use atlas_exporter.Exporter.Laws.{ExporterLaws, IsWellFormed}
use atlas_exporter.Prelude.{List, length, ◌≡◌, ◌≢◌, All, arith}
use atlas_exporter.Probe.{Probe}
use atlas_exporter.Result.{Result}
use atlas_exporter.Dns.{exporter, export, label_values, metrics, describe, DnsExporter}
use atlas_exporter.Exporter.Labelled.{labelled-Laws}
use atlas_exporter.Float.{Floats}

module _ {F : Type 0} ⦃fl : Floats F⦄ where
  length-label_values :
      (m : DnsExporter) (res : Result F) (p : Probe F) (vs : List Text)
      → label_values m res p ≡ done vs
      → length vs ≡ 9
  unfolding label_values
  length-label_values m res p vs h = ground arith

  metrics-IsWellFormed :
      (res : Result F) (vs : List Text)
      → length vs ≡ 9
      → All (IsWellFormed describe) (metrics res vs)
  unfolding metrics describe
  metrics-IsWellFormed res vs h = ground arith

  label_values_total :
      (m : DnsExporter) (res : Result F) (p : Probe F)
      → length p.coordinates ≢ 1
      → (vs : List Text) × (label_values m res p ≡ done vs)
  unfolding label_values
  label_values_total m res p h =
      let (lat, e) = latitude_total p h in
      let (long, f) = longitude_total p in Outcome-done _ (rw (e, f) tt)

  -- Every metric that is exported of a DNS result is one of those that `Describe` sends, with as many
  -- label values as it has labels; and no readable probe panics.
  pub exporter-Laws : (m : DnsExporter) → ExporterLaws (exporter {F = F} m)
  unfolding exporter export
  exporter-Laws m =
      labelled-Laws (λ global _. global) (λ _. label_values m) metrics describe 9
        (λ _. length-label_values m) metrics-IsWellFormed (λ _. label_values_total m)
