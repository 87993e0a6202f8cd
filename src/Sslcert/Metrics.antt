-- ===== src/Sslcert/Metrics.antt =====
-- The exporter of certificate results meets the laws of the interface.
use atlas_exporter.Probe.Labels.{latitude_total, longitude_total}
use atlas_exporter.Prelude.Outcome.{done, Outcome-done}
use atlas_exporter.Exporter.Laws.{ExporterLaws, IsWellFormed}
use atlas_exporter.Prelude.{List, ◌≡◌, length, All, ◌≢◌, arith}
use atlas_exporter.Probe.{Probe}
use atlas_exporter.Result.{Result}
use atlas_exporter.Prelude.Text.{Text}
use atlas_exporter.Sslcert.{
  exporter, export, label_values, metrics, describe, Digest, next_fingerprint,
}
use atlas_exporter.Exporter.Labelled.{labelled-Laws}
use atlas_exporter.Float.{Floats}

module _ {F : Type 0} ⦃fl : Floats F⦄ where
  length-label_values :
      (id fingerprint : Text) (res : Result F) (p : Probe F) (vs : List Text)
      → label_values id fingerprint res p ≡ done vs
      → length vs ≡ 9
  unfolding label_values
  length-label_values id fingerprint res p vs h = ground arith

  metrics-IsWellFormed :
      (res : Result F) (vs : List Text)
      → length vs ≡ 9
      → All (IsWellFormed describe) (metrics res vs)
  unfolding metrics describe
  metrics-IsWellFormed res vs h = ground arith

  label_values_total :
      (id fingerprint : Text) (res : Result F) (p : Probe F)
      → length p.coordinates ≢ 1
      → (vs : List Text) × (label_values id fingerprint res p ≡ done vs)
  unfolding label_values
  label_values_total id fingerprint res p h =
      let (lat, e) = latitude_total p h in
      let (long, f) = longitude_total p in Outcome-done _ (rw (e, f) tt)

  -- Every metric that is exported of a certificate result is one of those that `Describe` sends, with as many
  -- label values as it has labels; and no readable probe panics.
  pub exporter-Laws : (digest : Digest) (id : Text) → ExporterLaws (exporter {F = F} digest id)
  unfolding exporter export
  exporter-Laws digest id =
      labelled-Laws (next_fingerprint digest) (λ fingerprint. label_values id fingerprint) metrics
        describe 9 (λ fingerprint. length-label_values id fingerprint) metrics-IsWellFormed
        (λ fingerprint. label_values_total id fingerprint)
