-- ===== src/Http/Metrics.antt =====
-- The exporter of HTTP results meets the laws of the interface.
use atlas_exporter.Prelude.Outcome.{done, >>=-eq-done, Outcome-done}
use atlas_exporter.Probe.Labels.{IsReadable, latitude_total, longitude_total}
use atlas_exporter.Exporter.{Metric}
use atlas_exporter.Probe.{Probe}
use atlas_exporter.Exporter.Laws.{ExporterLaws, IsWellFormed}
use atlas_exporter.Prelude.{
  List, length, Option, ◌≡◌, ◌≢◌, All, some, arith, ◌∷◌, none, subst, ◌++◌, All-append, [], refl,
}
use atlas_exporter.Result.{HttpResult, Result}
use atlas_exporter.Prelude.Text.{Text}
use atlas_exporter.Http.{exporter, export, export_loop, label_values, metrics, describe}
use atlas_exporter.Float.{Floats}

module _ {F : Type 0} ⦃fl : Floats F⦄ where
  length-label_values :
      (id : Text) (res : Result F) (h : HttpResult F) (p : Probe F) (vs : List Text)
      → label_values id res h p ≡ done vs
      → length vs ≡ 10
  unfolding label_values
  length-label_values id res h p vs e = ground arith

  metrics-IsWellFormed :
      (h : HttpResult F) (vs : List Text)
      → length vs ≡ 10
      → All (IsWellFormed describe) (metrics h vs)
  unfolding metrics describe
  metrics-IsWellFormed h vs e = ground arith

  label_values_total :
      (id : Text) (res : Result F) (h : HttpResult F) (p : Probe F)
      → length p.coordinates ≢ 1
      → (vs : List Text) × (label_values id res h p ≡ done vs)
  unfolding label_values
  label_values_total id res h p c =
      let (lat, e) = latitude_total p c in
      let (long, f) = longitude_total p in Outcome-done _ (rw (e, f) tt)

  export_loop-IsWellFormed :
      (id : Text) (res : Result F) (probe : Option (Probe F)) (hs : List (HttpResult F))
      (sent : List (Metric F))
      → export_loop id res probe hs ≡ done sent
      → All (IsWellFormed describe) sent
  unfolding export_loop
  export_loop-IsWellFormed id res probe [] sent e =
      let same : [] ≡ sent = cc in subst (All (IsWellFormed describe)) same tt
  export_loop-IsWellFormed id res none (h ∷ hs) sent e = cc
  export_loop-IsWellFormed id res (some p) (h ∷ hs) sent e =
      let (vs, k, f) = >>=-eq-done (label_values id res h p) _ e in
      let (rest, l, g) = >>=-eq-done (export_loop id res (some p) hs) _ f in
      let same : metrics h vs ++ rest ≡ sent = cc in
      subst (All (IsWellFormed describe)) same (
        All-append _ (metrics h vs) rest
          (metrics-IsWellFormed h vs (length-label_values id res h p vs k))
          (export_loop-IsWellFormed id res (some p) hs rest l))

  export_loop_total :
      (id : Text) (res : Result F) (p : Probe F) (hs : List (HttpResult F))
      → length p.coordinates ≢ 1
      → (sent : List (Metric F)) × (export_loop id res (some p) hs ≡ done sent)
  unfolding export_loop
  export_loop_total id res p [] c = ([], refl)
  export_loop_total id res p (h ∷ hs) c =
      let (vs, e) = label_values_total id res h p c in
      let (rest, f) = export_loop_total id res p hs c in (metrics h vs ++ rest, rw (e, f))

  export-consistent :
      (id global : Text) (res : Result F) (probe : Option (Probe F)) {r : Text × List (Metric F)}
      → export id global res probe ≡ done r
      → All (IsWellFormed describe) r.1
  unfolding export
  export-consistent id global res probe {r} e =
      let (sent, k, f) = >>=-eq-done (export_loop id res probe res.http_results) _ e in
      let same : sent ≡ r.1 = cc in
      subst (All (IsWellFormed describe)) same
        (export_loop-IsWellFormed id res probe res.http_results sent k)

  export_total :
      (id global : Text) (res : Result F) (probe : Option (Probe F))
      → IsReadable probe
      → (r : Text × List (Metric F)) × (export id global res probe ≡ done r)
  unfolding export
  export_total id global res none c = absurd c
  export_total id global res (some p) c =
      let (sent, e) = export_loop_total id res p res.http_results c in ((global, sent), rw e)

  -- Every metric that is exported of an HTTP result is one of those that `Describe` sends, with as many
  -- label values as it has labels; and no readable probe panics.
  pub exporter-Laws : (id : Text) → ExporterLaws (exporter {F = F} id)
  unfolding exporter
  exporter-Laws id = record { consistent = export-consistent id; total = export_total id }
