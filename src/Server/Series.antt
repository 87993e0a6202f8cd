-- ===== src/Server/Series.antt =====
-- The answer to a scrape has no series twice.
pub mod Reached
use atlas_exporter.Server.Life.{
  streamed, counted, swept, scraped, start_app-AppOk, Step-AppOk, Step, Reach, AppOk, next,
  of_process, here,
}
use atlas_exporter.Sslcert.{Digest}
use atlas_exporter.Atlas.Lookup.{Fetch}
use atlas_exporter.Prelude.Equality.{◌==◌, list_eq, nat_eq}
use atlas_exporter.Atlas.Request.Series.{requested_series}
use atlas_exporter.Exporter.Series.{Differ}
use atlas_exporter.Atlas.Request.Invariant.{Delivers}
use atlas_exporter.Probe.Labels.{HasLabels}
use atlas_exporter.Prelude.Outcome.{done}
use atlas_exporter.Atlas.Lookup.Values.{Fetches, Caches}
use atlas_exporter.Server.Scrape.{if-All, StrategyOk, some-eq}
use atlas_exporter.Atlas.Stream.Series.{OneRequest, strategy_series, started-AllOf, series_keeps}
use atlas_exporter.Exporter.Measurement.Series.{HasSeries}
use atlas_exporter.Collector.{new_collector, collect}
use atlas_exporter.Prelude.Text.{Text}
use atlas_exporter.Atlas.Request.{Api}
use atlas_exporter.Atlas.Stream.Invariant.{handle-IsKept, AllOf}
use atlas_exporter.Exporter.Measurement.{Measurement, Sample}
use atlas_exporter.Prelude.Int.{ℤ}
use atlas_exporter.Result.{Result}
use atlas_exporter.Float.{Floats}
use atlas_exporter.Config.{Config}
use atlas_exporter.Probe.Cache.{Cache, new_cache}
use atlas_exporter.Prelude.{
  Option, Bool, some, List, if◌then◌else◌, All, true, ◌≡◌, none, false, All-append, ℕ, refl, ◌∷◌,
  Pairwise, [], ltb, length, ◌<◌, ◌≢◌, subst, sym,
}
use atlas_exporter.Exporter.Measurement.Collect.{VisitOrder}
use atlas_exporter.Server.{
  App, Response, Registered, from_strategy, requested, respond, registry, results_for,
  handle_metrics_request, ids_for, start_app,
}
use atlas_exporter.Atlas.Stream.{Strategy, measurement_results, new_strategy}

module _ {F : Type 0} where
  -- The collector ends, and no two samples that it sends are of one series.
  abbrev pub SendsOnce : Registered F → Type 0
  SendsOnce (Registered.collector c) =
      (order : VisitOrder (Result F)) (clock : Result F → ℤ) (global : Text)
      → (out : Text × List (Sample F)) × (collect c order.visit clock global ≡ done out)
        × Pairwise Differ out.1
  SendsOnce _ = Unit

  abbrev pub HasNoTwice : Option (Response F) → Type 0
  HasNoTwice (some (Response.metrics registered)) = All SendsOnce registered
  HasNoTwice _ = Unit

  -- What `MeasurementResults` gives is sent once.
  abbrev Once : Cache F × Option (List (Measurement F)) → Type 0
  Once found =
      (ms : List (Measurement F))
      → found.1 ≡ some ms
      → SendsOnce (Registered.collector (new_collector ms))

  registry-Once :
      (cfg : Config F) (ms : List (Measurement F))
      → SendsOnce (Registered.collector (new_collector ms))
      → All SendsOnce (registry cfg ms)
  unfolding registry
  registry-Once cfg ms h =
      All-append _ _ _
        (if-All _ cfg.metrics.process_enabled (Registered.process_collector ∷ []) (tt, tt))
        (All-append _ _ _ (if-All _ cfg.metrics.go_enabled (Registered.go_collector ∷ []) (tt, tt))
          (All-append SendsOnce
            (Registered.stream_connected_gauge ∷ Registered.last_data_timestamp_gauge
              ∷ Registered.build_info_gauge ∷ Registered.scrape_build_duration ∷ [])
            _ (tt, (tt, (tt, (tt, tt))))
            (if-All _ (ltb 0 (length ms)) (Registered.collector (new_collector ms) ∷ []) (h, tt))))

  respond-HasNoTwice :
      (cfg : Config F) (found : Cache F × Option (List (Measurement F)))
      → Once found
      → HasNoTwice (respond cfg found).1
  unfolding respond
  respond-HasNoTwice cfg (c, none) h = tt
  respond-HasNoTwice cfg (c, some ms) h = registry-Once cfg ms (h ms refl)

  if-Once :
      (b : Bool) (x y : Cache F × Option (List (Measurement F)))
      → Once x
      → Once y
      → Once (if b then x else y)
  if-Once true x y h k = h
  if-Once false x y h k = k

  if-HasNoTwice :
      (b : Bool) (c : Cache F) (found : Cache F × Option (Response F))
      → HasNoTwice found.1
      → HasNoTwice (if b then (c, some Response.nothing) else found).1
  if-HasNoTwice true c found h = tt
  if-HasNoTwice false c found h = h

module _ {F : Type 0} ⦃fl : Floats F⦄ where
  abbrev pub StrategyHasSeries : Option (Strategy F) → Type 0
  StrategyHasSeries none = Unit
  StrategyHasSeries (some s) = AllOf HasSeries OneRequest s

  pub handle_metrics_request-HasNoTwice :
      (api : Api F) (visit : VisitOrder Text) (deadline : Option ℕ) (app : App F) (id : Text)
      → Fetches HasLabels api.fetch
      → Delivers OneRequest api
      → Caches HasLabels app.cache
      → StrategyOk app.strategy
      → StrategyHasSeries app.strategy
      → 0 < app.cfg.worker_count
      → Pairwise (λ a b. a ≢ b) (ids_for app.cfg id)
      → HasNoTwice (handle_metrics_request api visit deadline app id).1
  unfolding handle_metrics_request results_for from_strategy
  handle_metrics_request-HasNoTwice api visit deadline app id good one cached ok has workers apart =
      if-HasNoTwice (length ids == 0) app.cache _ (
        respond-HasNoTwice app.cfg (results_for api visit deadline app id ids)
          (if-Once (ltb 0 (length id)) _ _ direct (from_stream app.strategy ok has)))
    where
      ids : List Text
      ids = ids_for app.cfg id

      direct : Once (requested api visit deadline app ids)
      direct ms e order clock global =
          requested_series api app.cfg app.cfg.worker_count visit deadline app.cache ids ms order
            clock global good cached one workers apart e

      from_stream :
          (strategy : Option (Strategy F))
          → StrategyOk strategy
          → StrategyHasSeries strategy
          → Once (from_strategy app.cache ids (requested api visit deadline app ids) strategy)
      from_stream none h k ms e order clock global = direct ms e order clock global
      from_stream (some s) h k ms e order clock global =
          let same : measurement_results s ids ≡ ms = some-eq e in
          subst
            (λ xs.
              (out : Text × List (Sample F)) × (collect (new_collector xs) order.visit clock global
                ≡ done out)
              × Pairwise Differ out.1)
            same (strategy_series s ids order clock global h k apart)
