-- ===== src/Atlas/Request/Series.antt =====
-- What a scrape of the request strategy sends: no series twice, if the ids are all different.
use atlas_exporter.Atlas.Request.Scrape.{measurement_results-IsServable}
use atlas_exporter.Collector.Series.{measurement_of, collect_all-Differ}
use atlas_exporter.Atlas.Request.Gather.{gather-eq-some}
use atlas_exporter.Exporter.Measurement.Series.{HasSeries}
use atlas_exporter.Exporter.Series.{Differ}
use atlas_exporter.Prelude.Outcome.{done}
use atlas_exporter.Probe.Labels.{HasLabels}
use atlas_exporter.Atlas.Lookup.Values.{Fetches, Caches}
use atlas_exporter.Prelude.Int.{ℤ}
use atlas_exporter.Result.{Result}
use atlas_exporter.Exporter.Measurement.{Measurement, Sample}
use atlas_exporter.Probe.Cache.{Cache}
use atlas_exporter.Prelude.Text.{Text}
use atlas_exporter.Exporter.Measurement.Collect.{VisitOrder}
use atlas_exporter.Prelude.{
  ℕ, Option, List, ◌<◌, Pairwise, ◌≢◌, ◌≡◌, some, arith, suc, map, ◌∙◌, Pairwise-Permᴰ, sym, zero,
}
use atlas_exporter.Config.{Config}
use atlas_exporter.Collector.{collect, new_collector}
use atlas_exporter.Float.{Floats}
use atlas_exporter.Collector.Total.{collect_all_total}
use atlas_exporter.Atlas.Request.{Api, measurement_results, send_all}
use atlas_exporter.Atlas.Stream.Series.{OneRequest, series_keeps}
use atlas_exporter.Atlas.Request.Invariant.{Delivers, send_all-named}

module _ {F : Type 0} ⦃fl : Floats F⦄ where
  -- If the API and the cache give for an id only the probe with that id, readable, no result that the API
  -- delivers has more than one HTTP request, there is a worker and the ids are all different, then the
  -- collector of what is requested ends `Collect`, and sends no series twice.
  pub requested_series :
      (api : Api F) (cfg : Config F) (workers : ℕ) (visit : VisitOrder Text) (deadline : Option ℕ)
      (c : Cache F) (ids : List Text) (sent : List (Measurement F)) (order : VisitOrder (Result F))
      (clock : Result F → ℤ) (global : Text)
      → Fetches HasLabels api.fetch
      → Caches HasLabels c
      → Delivers OneRequest api
      → 0 < workers
      → Pairwise (λ a b. a ≢ b) ids
      → (measurement_results api cfg workers visit deadline c ids).1 ≡ some sent
      → (out : Text × List (Sample F)) × (collect (new_collector sent) order.visit clock global
          ≡ done out)
        × Pairwise Differ out.1
  unfolding measurement_results collect new_collector
  requested_series api cfg zero visit deadline c ids sent order clock global good cached one h apart
        e =
      absurd (omega arith)
  requested_series api cfg (suc workers) visit deadline c ids sent order clock global good cached
        one h apart e =
      let (_, (named, same, all, apart', _)) =
        send_all-named HasSeries OneRequest series_keeps api cfg workers good one c
          (visit.visit ids) cached in
      let whole =
        gather-eq-some deadline (send_all api cfg (suc workers) c (visit.visit ids)).1 sent e in
      let is : map measurement_of named ≡ sent = same ∙ whole in
      let (out, f, _) =
        collect_all_total sent order clock global (
          measurement_results-IsServable api cfg workers good visit deadline c ids sent cached e) in
      let ids_apart =
        Pairwise-Permᴰ (λ a b. a ≢ b) (λ a b other k. other (sym k)) (visit.visit-perm ids) apart in
      (out, f, (collect_all-Differ named order clock global out all (apart' ids_apart) (rw is f)).0)
