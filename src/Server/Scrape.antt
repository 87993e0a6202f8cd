-- ===== src/Server/Scrape.antt =====
-- What a scrape answers.
use atlas_exporter.Prelude.Equality.{◌==◌, list_eq, nat_eq}
use atlas_exporter.Probe.Labels.{HasLabels}
use atlas_exporter.Atlas.Lookup.Values.{Fetches, Caches}
use atlas_exporter.Collector.Total.{IsDescribed, collect_all_total}
use atlas_exporter.Prelude.Outcome.{done}
use atlas_exporter.Exporter.Measurement.Scrape.{IsServable}
use atlas_exporter.Prelude.Text.{Text}
use atlas_exporter.Atlas.Request.{Api}
use atlas_exporter.Exporter.Measurement.{Measurement, Sample}
use atlas_exporter.Atlas.Stream.Scrape.{AllServable, measurement_results-All}
use atlas_exporter.Prelude.Int.{ℤ}
use atlas_exporter.Probe.Cache.{Cache}
use atlas_exporter.Result.{Result}
use atlas_exporter.Config.{Config}
use atlas_exporter.Atlas.Stream.{Strategy}
use atlas_exporter.Exporter.Measurement.Collect.{VisitOrder}
use atlas_exporter.Float.{Floats}
use atlas_exporter.Prelude.{
  Option, Bool, some, List, All, if◌then◌else◌, [], ◌≡◌, none, true, All-append, ℕ, refl, false,
  ◌∷◌, ◌<◌, length, ltb, arith, suc, subst, zero,
}
use atlas_exporter.Server.{
  Registered, registry, respond, Response, handle_metrics_request, results_for, process_collector,
  App, go_collector, ids_for, requested, collector, stream_connected_gauge, from_strategy,
  last_data_timestamp_gauge, build_info_gauge, scrape_build_duration,
}
use atlas_exporter.Atlas.Stream.{measurement_results}
use atlas_exporter.Collector.{describe, collect, new_collector}
use atlas_exporter.Atlas.Request.Scrape.{measurement_results-IsServable}
use atlas_exporter.Atlas.Request

pub some-eq : {A : Type 0} {x y : A} → some x ≡ some y → x ≡ y
some-eq h = cc

module _ {F : Type 0} where
  -- The collector can be collected in any order, at any time and whatever certificate was seen last: it does
  -- not panic, and what it sends has been described.
  abbrev pub CollectsSafely : Registered F → Type 0
  CollectsSafely (Registered.collector c) =
      (order : VisitOrder (Result F)) (clock : Result F → ℤ) (global : Text)
      → (out : Text × List (Sample F)) × (collect c order.visit clock global ≡ done out)
        × All (IsDescribed (describe c)) out.1
  CollectsSafely _ = Unit

  abbrev pub IsSafe : Option (Response F) → Type 0
  IsSafe (some (Response.metrics registered)) = All CollectsSafely registered
  IsSafe _ = Unit

  abbrev pub StrategyOk : Option (Strategy F) → Type 0
  StrategyOk none = Unit
  StrategyOk (some s) = AllServable s

  pub if-All :
      (P : Registered F → Type 0) (b : Bool) (xs : List (Registered F))
      → All P xs
      → All P (if b then xs else [])
  if-All P true xs h = h
  if-All P false xs h = tt

  registry-All :
      (cfg : Config F) (ms : List (Measurement F))
      → All IsServable ms
      → All CollectsSafely (registry cfg ms)
  unfolding registry new_collector collect describe
  registry-All cfg ms h =
      All-append _ _ _ (if-All _ cfg.metrics.process_enabled (process_collector ∷ []) (tt, tt)) (
        All-append _ _ _ (if-All _ cfg.metrics.go_enabled (go_collector ∷ []) (tt, tt)) (
          All-append CollectsSafely
            (stream_connected_gauge ∷ last_data_timestamp_gauge ∷ build_info_gauge
              ∷ scrape_build_duration ∷ [])
            _ (tt, (tt, (tt, (tt, tt))))
            (if-All _ (ltb 0 (length ms)) (collector (new_collector ms) ∷ [])
              (λ order clock global. collect_all_total ms order clock global h, tt))))

  respond-IsSafe :
      (cfg : Config F) (found : Cache F × Option (List (Measurement F)))
      → ((ms : List (Measurement F)) → found.1 ≡ some ms → All IsServable ms)
      → IsSafe (respond cfg found).1
  unfolding respond
  respond-IsSafe cfg (c, none) h = tt
  respond-IsSafe cfg (c, some ms) h = registry-All cfg ms (h ms refl)

module _ {F : Type 0} ⦃fl : Floats F⦄ where
  if-found :
      (b : Bool) (x y : Cache F × Option (List (Measurement F)))
      → ((ms : List (Measurement F)) → x.1 ≡ some ms → All IsServable ms)
      → ((ms : List (Measurement F)) → y.1 ≡ some ms → All IsServable ms)
      → (ms : List (Measurement F)) → (if b then x else y).1 ≡ some ms
      → All IsServable ms
  if-found true x y h k = h
  if-found false x y h k = k

  if-IsSafe :
      (b : Bool) (c : Cache F) (found : Cache F × Option (Response F))
      → IsSafe found.1
      → IsSafe (if b then (c, some Response.nothing) else found).1
  if-IsSafe true c found h = tt
  if-IsSafe false c found h = h

  -- If the API gives for an id only the probe with that id, readable, the cache holds only such probes,
  -- what the streaming strategy has can be served, and there is at least one worker, then whatever
  -- measurement id a request names, in whatever order the goroutines end and whatever the deadline,
  -- `handleMetricsRequest` either gives an error or a response; and each collector of that response ends
  -- `Collect` without a panic, in whatever order the maps are visited and at whatever times the clock
  -- shows, and sends only what `Describe` of it has described.
  pub handle_metrics_request-IsSafe :
      (api : Api F) (order : VisitOrder Text) (deadline : Option ℕ) (app : App F) (id : Text)
      → Fetches HasLabels api.fetch
      → Caches HasLabels app.cache
      → StrategyOk app.strategy
      → 0 < app.cfg.worker_count
      → IsSafe (handle_metrics_request api order deadline app id).1
  unfolding handle_metrics_request results_for
  handle_metrics_request-IsSafe api order deadline app id good cached ok workers =
      if-IsSafe (length ids == 0) app.cache _ (
        respond-IsSafe app.cfg (results_for api order deadline app id ids) (
          if-found (ltb 0 (length id)) _ _ (direct app.cfg.worker_count workers)
            (streamed app.strategy ok)))
    where
      ids : List Text
      ids = ids_for app.cfg id

      direct :
          (n : ℕ)
          → 0 < n
          → (ms : List (Measurement F))
          → (Request.measurement_results api app.cfg n order deadline app.cache ids).1 ≡ some ms
          → All IsServable ms
      direct zero h ms e = absurd (omega arith)
      direct (suc n) h ms e =
          measurement_results-IsServable api app.cfg n good order deadline app.cache ids ms cached e

      streamed :
          (strategy : Option (Strategy F))
          → StrategyOk strategy
          → (ms : List (Measurement F))
          → (from_strategy app.cache ids (requested api order deadline app ids) strategy).1
            ≡ some ms
          → All IsServable ms
      streamed none h ms e = direct app.cfg.worker_count workers ms e
      streamed (some s) h ms e =
          let same : measurement_results s ids ≡ ms = some-eq e in
          subst (All IsServable) same (measurement_results-All s ids h)
