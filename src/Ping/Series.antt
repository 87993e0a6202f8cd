-- ===== src/Ping/Series.antt =====
-- The metrics of a ping result are of different series.
use atlas_exporter.Prelude.Outcome.{done, >>=-eq-done}
use atlas_exporter.Prelude.{List, ◌≡◌, All, arith, ◌∷◌, true}
use atlas_exporter.Probe.{Probe, latitude, longitude}
use atlas_exporter.Result.{Result}
use atlas_exporter.Prelude.Text.{Text, itoa}
use atlas_exporter.Float.{Floats}
use atlas_exporter.Ping.{exporter, metrics, describe, label_values}
use atlas_exporter.Exporter.Series.{SeriesLaws, labelled-SeriesLaws, labels_of, names_differ}

module _ {F : Type 0} ⦃fl : Floats F⦄ where
  label_values-labels :
      (id : Text) (res : Result F) (p : Probe F) (vs : List Text)
      → label_values id res p ≡ done vs
      → (x : Text) × (more : List Text) × (vs ≡ id ∷ itoa p.id ∷ x ∷ more)
  unfolding label_values
  label_values-labels id res p vs h =
      let (lat, _, f) = >>=-eq-done (latitude p) _ h in
      let (long, _, g) = >>=-eq-done (longitude p) _ f in labels_of _ _ _ _ vs g

  metrics-shared :
      (res : Result F) (vs : List Text) → All (λ m. m.label_values ≡ vs) (metrics res vs)
  unfolding metrics
  metrics-shared res vs = ground arith

  metrics-names : (res : Result F) (vs : List Text) → names_differ (metrics res vs) ≡ true
  unfolding metrics names_differ
  metrics-names res vs = ground arith

  pub exporter-SeriesLaws : (id : Text) → SeriesLaws id (exporter {F = F} id)
  unfolding exporter
  exporter-SeriesLaws id =
      labelled-SeriesLaws (λ global _. global) (λ _. label_values id) metrics describe id
        (λ _. label_values-labels id) metrics-shared metrics-names
