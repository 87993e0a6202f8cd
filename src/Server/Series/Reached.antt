-- ===== src/Server/Series/Reached.antt =====
-- No series twice, after any steps of the process.
use atlas_exporter.Server.Series.{StrategyHasSeries, HasNoTwice, handle_metrics_request-HasNoTwice}
use atlas_exporter.Server.Life.{
  streamed, counted, swept, scraped, start_app-AppOk, Step-AppOk, Step, Reach, AppOk, next,
  of_process, here,
}
use atlas_exporter.Sslcert.{Digest}
use atlas_exporter.Atlas.Lookup.{Fetch}
use atlas_exporter.Prelude.Equality.{list_eq, nat_eq}
use atlas_exporter.Atlas.Request.Invariant.{Delivers}
use atlas_exporter.Probe.Labels.{HasLabels}
use atlas_exporter.Atlas.Lookup.Values.{Fetches}
use atlas_exporter.Atlas.Stream.Series.{OneRequest, started-AllOf, series_keeps}
use atlas_exporter.Exporter.Measurement.Series.{HasSeries}
use atlas_exporter.Prelude.Text.{Text}
use atlas_exporter.Atlas.Request.{Api}
use atlas_exporter.Atlas.Stream.Invariant.{handle-IsKept, AllOf}
use atlas_exporter.Prelude.Int.{ℤ}
use atlas_exporter.Float.{Floats}
use atlas_exporter.Config.{Config}
use atlas_exporter.Probe.Cache.{new_cache}
use atlas_exporter.Prelude.{
  Option, Bool, some, if◌then◌else◌, true, ◌≡◌, none, false, ℕ, refl, Pairwise, ◌<◌, ◌≢◌, subst,
  sym,
}
use atlas_exporter.Exporter.Measurement.Collect.{VisitOrder}
use atlas_exporter.Server.{App, handle_metrics_request, ids_for, start_app}
use atlas_exporter.Atlas.Stream.{Strategy, new_strategy}

module _ {F : Type 0} ⦃fl : Floats F⦄ where
  module _ (fetch : Fetch F) (digest : Digest) where
    -- A result that the step handles has at most one HTTP request.
    abbrev pub StepsOnce : {app app' : App F} → Step fetch digest app app' → Type 0
    StepsOnce (streamed app s gauge now read stored r e) = OneRequest r
    StepsOnce _ = Unit

    -- So have all streamed results.
    abbrev pub StreamsOnce : {start app : App F} → Reach fetch digest start app → Type 0
    StreamsOnce here = Unit
    StreamsOnce (next r s) = StreamsOnce r × StepsOnce s

    record SeriesOk (cfg : Config F) (app : App F) : Type 0 where
      ok : AppOk fetch digest app
      has : StrategyHasSeries app.strategy
      same : app.cfg ≡ cfg

    module _ (good : Fetches HasLabels fetch) where
      Step-SeriesOk :
          (cfg : Config F) {app app' : App F} (s : Step fetch digest app app')
          → StepsOnce s
          → SeriesOk cfg app
          → SeriesOk cfg app'
      Step-SeriesOk cfg (streamed app s gauge now read stored r e) one h = record {
        ok = Step-AppOk fetch digest good (streamed app s gauge now read stored r e) h.ok;
        has =
            (handle-IsKept HasSeries OneRequest series_keeps digest fetch good (λ _. now)
              (λ _. read) (λ _. stored)
              (record { strategy = s; cache = app.cache; last_data_timestamp = gauge }) r one
              (h.ok.cached, subst StrategyHasSeries e h.has)).1;
        same = h.same;
      }
      Step-SeriesOk cfg (counted app s n e) one h = record {
        ok = Step-AppOk fetch digest good (counted app s n e) h.ok;
        has = subst StrategyHasSeries e h.has;
        same = h.same;
      }
      Step-SeriesOk cfg (swept app ids) one h = record {
        ok = Step-AppOk fetch digest good (swept app ids) h.ok;
        has = h.has;
        same = h.same;
      }
      Step-SeriesOk cfg (scraped app api order deadline id) one h = record {
        ok = Step-AppOk fetch digest good (scraped app api order deadline id) h.ok;
        has = h.has;
        same = h.same;
      }

      Reach-SeriesOk :
          (cfg : Config F) {start app : App F} (r : Reach fetch digest start app)
          → StreamsOnce r
          → SeriesOk cfg start
          → SeriesOk cfg app
      Reach-SeriesOk cfg here one h = h
      Reach-SeriesOk cfg (next r s) one h = Step-SeriesOk cfg s one.1 (Reach-SeriesOk cfg r one.0 h)

      if-StrategyHasSeries :
          (b : Bool) (s : Strategy F)
          → AllOf HasSeries OneRequest s
          → StrategyHasSeries (if b then some s else none)
      if-StrategyHasSeries true s h = h
      if-StrategyHasSeries false s h = tt

      start_app-SeriesOk :
          (cfg : Config F) (ttl : ℤ)
          → 0 < cfg.worker_count
          → SeriesOk cfg (start_app cfg (new_cache ttl))
      unfolding start_app
      start_app-SeriesOk cfg ttl h = record {
        ok = start_app-AppOk fetch digest good cfg ttl h;
        has =
            if-StrategyHasSeries cfg.streaming.enabled (new_strategy cfg)
              (started-AllOf HasSeries cfg);
        same = refl;
      }

      -- The program starts with a configuration that has at least one worker, and the API gives for an
      -- id only the probe with that id, readable. No result that the steps stream or that the API
      -- delivers has more than one HTTP request. Then, after any steps, for a request that names a
      -- measurement id, or else where the configured ids are all different, whatever the order of the
      -- goroutines and the deadline: each collector of the response ends `Collect` without a panic, in
      -- whatever order the maps are visited and at whatever times the clock shows, and no two of the
      -- samples that it sends are of one series; they differ in their full name or in the values of
      -- their labels.
      pub reachable_scrape-HasNoTwice :
          (cfg : Config F) (ttl : ℤ) {app : App F} (api : Api F) (visit : VisitOrder Text)
          (deadline : Option ℕ) (id : Text)
          (r : Reach fetch digest (start_app cfg (new_cache ttl)) app)
          → 0 < cfg.worker_count
          → StreamsOnce r
          → Delivers OneRequest api
          → Pairwise (λ a b. a ≢ b) (ids_for cfg id)
          → HasNoTwice
              (handle_metrics_request (of_process fetch digest api) visit deadline app id).1
      reachable_scrape-HasNoTwice cfg ttl {app = app} api visit deadline id r workers once one
            apart =
          let h = Reach-SeriesOk cfg r once (start_app-SeriesOk cfg ttl workers) in
          handle_metrics_request-HasNoTwice (of_process fetch digest api) visit deadline app id good
            one h.ok.cached h.ok.served h.has h.ok.workers
            (subst (λ c. Pairwise (λ a b. a ≢ b) (ids_for c id)) (sym h.same) apart)
