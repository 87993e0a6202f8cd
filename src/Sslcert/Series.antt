-- ===== src/Sslcert/Series.antt =====
-- The metrics of a certificate result are of different series.
use atlas_exporter.Prelude.Outcome.{done, >>=-eq-done}
use atlas_exporter.Prelude.{List, ◌≡◌, All, arith, ◌∷◌, true}
use atlas_exporter.Probe.{Probe, latitude, longitude}
use atlas_exporter.Result.{Result}
use atlas_exporter.Prelude.Text.{Text, itoa}
use atlas_exporter.Float.{Floats}
use atlas_exporter.Sslcert.{
  exporter, metrics, describe, label_values, export, Digest, next_fingerprint,
}
use atlas_exporter.Exporter.Series.{SeriesLaws, labelled-SeriesLaws, labels_of, names_differ}

module _ {F : Type 0} ⦃fl : Floats F⦄ where
  label_values-labels :
      (id fingerprint : Text) (res : Result F) (p : Probe F) (vs : List Text)
      → label_values id fingerprint res p ≡ done vs
      → (x : Text) × (more : List Text) × (vs ≡ id ∷ itoa p.id ∷ x ∷ more)
  unfolding label_values
  label_values-labels id fingerprint res p vs h =
      let (lat, _, f) = >>=-eq-done (latitude p) _ h in
      let (long, _, g) = >>=-eq-done (longitude p) _ f in labels_of _ _ _ _ vs g

  metrics-shared :
      (res : Result F) (vs : List Text) → All (λ m. m.label_values ≡ vs) (metrics res vs)
  unfolding metrics
  metrics-shared res vs = ground arith

  metrics-names : (res : Result F) (vs : List Text) → names_differ (metrics res vs) ≡ true
  unfolding metrics names_differ
  metrics-names res vs = ground arith

  pub exporter-SeriesLaws :
      (digest : Digest) (id : Text) → SeriesLaws id (exporter {F = F} digest id)
  unfolding exporter export
  exporter-SeriesLaws digest id =
      labelled-SeriesLaws (next_fingerprint digest) (λ fingerprint. label_values id fingerprint)
        metrics describe id (λ fingerprint. label_values-labels id fingerprint) metrics-shared
        metrics-names
