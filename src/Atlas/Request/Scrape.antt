-- ===== src/Atlas/Request/Scrape.antt =====
-- Every measurement that a scrape requests can be collected.
use atlas_exporter.Atlas.Request.Gather.{gather-eq-some}
use atlas_exporter.Exporter.Measurement.Scrape.{IsServable}
use atlas_exporter.Exporter.Measurement.{Measurement}
use atlas_exporter.Prelude.Text.{Text}
use atlas_exporter.Exporter.Measurement.Collect.{VisitOrder}
use atlas_exporter.Probe.Cache.{Cache}
use atlas_exporter.Collector.Series.{Named, measurement_of}
use atlas_exporter.Result.{Result}
use atlas_exporter.Probe.Labels.{HasLabels}
use atlas_exporter.Atlas.Lookup.Values.{Fetches, Caches}
use atlas_exporter.Prelude.{ℕ, List, All, Option, ◌∷◌, suc, some, map, subst, ◌≡◌, [], none}
use atlas_exporter.Config.{Config}
use atlas_exporter.Float.{Floats}
use atlas_exporter.Atlas.Request.{Api, measurement_results, send_all}
use atlas_exporter.Atlas.Request.Invariant.{IfSome, Delivers, send_all-named}
use atlas_exporter.Atlas.Stream.Scrape.{IsServable-keeps}

module _ {F : Type 0} ⦃fl : Floats F⦄ (api : Api F) (cfg : Config F) (workers : ℕ)
    (good : Fetches HasLabels api.fetch) where
  -- Nothing is asked of a result.
  anything : Delivers (λ (r : Result F). Unit {0}) api
  anything id ms e = go ms
    where
      go : (ms : List (Option (Result F))) → All (IfSome (λ (r : Result F). Unit {0})) ms
      go [] = tt
      go (none ∷ ms) = (tt, go ms)
      go (some m ∷ ms) = (tt, go ms)

  unnamed :
      (named : Named F)
      → All (λ (e : Text × Measurement F). IsServable e.1) named
      → All IsServable (map measurement_of named)
  unnamed [] h = tt
  unnamed (e ∷ named) h = (h.0, unnamed named h.1)

  pub send_all-IsServable :
      (c : Cache F) (ids : List Text)
      → Caches HasLabels c
      → Caches HasLabels (send_all api cfg (suc workers) c ids).0
        × All IsServable (send_all api cfg (suc workers) c ids).1
  send_all-IsServable c ids cached =
      let (cached', (named, same, all, _, _)) =
        send_all-named (λ _ mes. IsServable mes) (λ _. Unit {0}) IsServable-keeps api cfg workers
          good anything c ids cached in
      (cached', subst (All IsServable) same (unnamed named all))

  -- If the probes of the API and the cache can be read and there is at least one worker, what a scrape
  -- requests can be collected.
  pub measurement_results-IsServable :
      (order : VisitOrder Text) (deadline : Option ℕ) (c : Cache F) (ids : List Text)
      (sent : List (Measurement F))
      → Caches HasLabels c
      → (measurement_results api cfg (suc workers) order deadline c ids).1 ≡ some sent
      → All IsServable sent
  unfolding measurement_results
  measurement_results-IsServable order deadline c ids sent cached e =
      let all = (send_all-IsServable c (order.visit ids) cached).1 in
      subst (All IsServable) (gather-eq-some deadline _ sent e) all
