-- ===== src/Http/Series.antt =====
-- The metrics of an HTTP result are of different series, if it holds at most one request.
use mathlib.Core.List.{append-nil}
use atlas_exporter.Exporter.Measurement.{metric}
use atlas_exporter.Exporter.{Metric}
use atlas_exporter.Probe.{Probe, latitude, longitude}
use atlas_exporter.Prelude.Outcome.{>>=-eq-done, done}
use atlas_exporter.Prelude.{
  List, ◌≡◌, some, true, subst, All, arith, Pairwise, ◌∷◌, map, ◌++◌, All-imp, All-append, sym, ◌∙◌,
  [],
}
use atlas_exporter.Result.{HttpResult, Result}
use atlas_exporter.Prelude.Text.{Text}
use atlas_exporter.Float.{Floats}
use atlas_exporter.Http.{exporter, export, export_loop, metrics, label_values}
use atlas_exporter.Exporter.Series.{
  SeriesLaws, labels_of, names_differ, names_differ-Pairwise, Labelled, Differ, AtMostOne,
}

module _ {F : Type 0} ⦃fl : Floats F⦄ where
  metrics-Labelled :
      (id : Text) (res : Result F) (h : HttpResult F) (p : Probe F) (vs : List Text)
      → label_values id res h p ≡ done vs
      → All (Labelled id p.id) (metrics h vs)
  unfolding label_values
  metrics-Labelled id res h p vs e =
      let (lat, _, f) = >>=-eq-done (latitude p) _ e in
      let (long, _, g) = >>=-eq-done (longitude p) _ f in
      let (x, more, same) = labels_of _ _ _ _ vs g in
      All-imp _ (Labelled id p.id) (metrics h vs) (λ m own. (x, more, own ∙ same))
        (metrics-shared h vs)
    where
      metrics-shared :
          (h : HttpResult F) (vs : List Text) → All (λ m. m.label_values ≡ vs) (metrics h vs)
      metrics-shared h vs = unfold metrics in ground arith

  metrics-names : (h : HttpResult F) (vs : List Text) → names_differ (metrics h vs) ≡ true
  unfolding metrics names_differ
  metrics-names h vs = ground arith

  export_loop-Labelled :
      (id : Text) (res : Result F) (p : Probe F) (hs : List (HttpResult F)) (sent : List (Metric F))
      → export_loop id res (some p) hs ≡ done sent
      → All (Labelled id p.id) sent
  unfolding export_loop
  export_loop-Labelled id res p [] sent e =
      let same : [] ≡ sent = cc in subst (All (Labelled id p.id)) same tt
  export_loop-Labelled id res p (h ∷ hs) sent e =
      let (vs, k, f) = >>=-eq-done (label_values id res h p) _ e in
      let (rest, l, g) = >>=-eq-done (export_loop id res (some p) hs) _ f in
      let same : metrics h vs ++ rest ≡ sent = cc in
      subst (All (Labelled id p.id)) same (
        All-append _ (metrics h vs) rest (metrics-Labelled id res h p vs k)
          (export_loop-Labelled id res p hs rest l))

  export_loop-Differ :
      (id : Text) (res : Result F) (p : Probe F) (hs : List (HttpResult F)) (sent : List (Metric F))
      → AtMostOne hs
      → export_loop id res (some p) hs ≡ done sent
      → Pairwise Differ (map metric sent)
  unfolding export_loop
  export_loop-Differ id res p [] sent one e =
      let same : [] ≡ sent = cc in subst (λ ms. Pairwise Differ (map metric ms)) same tt
  export_loop-Differ id res p (h ∷ []) sent one e =
      let (vs, k, f) = >>=-eq-done (label_values id res h p) _ e in
      let same : metrics h vs ++ [] ≡ sent = cc in
      subst (λ ms. Pairwise Differ (map metric ms)) (sym (append-nil (metrics h vs)) ∙ same)
        (names_differ-Pairwise (metrics h vs) (metrics-names h vs))
  export_loop-Differ id res p (h ∷ h' ∷ hs) sent one e = absurd (omega arith)

  pub exporter-SeriesLaws : (id : Text) → SeriesLaws id (exporter {F = F} id)
  unfolding exporter export
  exporter-SeriesLaws id = record {
    labelled = λ global res p r h.
        let (sent, k, f) = >>=-eq-done (export_loop id res (some p) res.http_results) _ h in
        let same : sent ≡ r.1 = cc in
        subst (All (Labelled id p.id)) same (export_loop-Labelled id res p res.http_results sent k);
    differ = λ global res p r one h.
        let (sent, k, f) = >>=-eq-done (export_loop id res (some p) res.http_results) _ h in
        let same : sent ≡ r.1 = cc in
        subst (λ ms. Pairwise Differ (map metric ms)) same
          (export_loop-Differ id res p res.http_results sent one k);
  }
