-- ===== src/Server.antt =====
-- main.go and helper.go: the answers of the HTTP server, the routes that it registers, and the choice of
-- the strategy. What net/http, promhttp and logrus do behind these calls is left out.
pub mod Answers
pub mod Life
pub mod Listen
pub mod Registry
pub mod Routes
pub mod Scrape
pub mod Series
pub mod Start
use atlas_exporter.Prelude.Equality.{◌==◌, list_eq, nat_eq}
use atlas_exporter.Exporter.Measurement.Collect.{VisitOrder}
use atlas_exporter.Exporter.Measurement.{Measurement}
use atlas_exporter.Prelude.Int.{ℤ}
use atlas_exporter.Atlas.Request.{Api, new_request_strategy}
use atlas_exporter.Probe.Cache.{Cache}
use atlas_exporter.Atlas.Stream.{Strategy, new_strategy, is_healthy, measurement_results}
use atlas_exporter.Prelude.Text.{Text, codes}
use atlas_exporter.Float.{Floats}
use atlas_exporter.Prelude.{ℕ, Option, List, some, if◌then◌else◌, ltb, none, ◌∷◌, length, [], ◌++◌}
use atlas_exporter.Collector.{Collector, new_collector}
use atlas_exporter.Config.{Config, measurement_ids}
use atlas_exporter.Atlas.Request

-- What the process holds after `main` has started: `strategy` is `none` for a request strategy.
pub record App (F : Type 0) : Type 0 where
  pub cfg : Config F
  pub strategy : Option (Strategy F)
  pub cache : Cache F

-- What is registered with the registry of one scrape.
pub data Registered (F : Type 0) : Type 0 where
  process_collector go_collector : Registered F
  stream_connected_gauge last_data_timestamp_gauge build_info_gauge scrape_build_duration :
      Registered F
  collector : Collector F → Registered F

-- What is written: nothing, which is status 200 with no body; the text of an error with a status; or what
-- promhttp makes of a registry.
pub data Response (F : Type 0) : Type 0 where
  nothing : Response F
  error : ℕ → Response F
  metrics : List (Registered F) → Response F

module _ {F : Type 0} where
  unfoldable pub registry : Config F → List (Measurement F) → List (Registered F)
  registry cfg measurements =
      (if cfg.metrics.process_enabled then process_collector ∷ [] else [])
      ++ ((if cfg.metrics.go_enabled then go_collector ∷ [] else [])
          ++ ((stream_connected_gauge ∷ last_data_timestamp_gauge ∷ build_info_gauge
                ∷ scrape_build_duration ∷ [])
              ++ (if ltb 0 (length measurements)
                  then collector (new_collector measurements) ∷ []
                  else [])))

  -- `none` is an error that the handler returns.
  unfoldable pub error_handler : Option (Response F) → Response F
  error_handler none = error 500
  error_handler (some response) = response

  unfoldable pub respond :
      Config F → Cache F × Option (List (Measurement F)) → Cache F × Option (Response F)
  unfolding registry
  respond cfg (c, none) = (c, none)
  respond cfg (c, some measurements) = (c, some (metrics (registry cfg measurements)))

module _ {F : Type 0} ⦃fl : Floats F⦄ where
  -- `main`: the strategy that is chosen.
  unfoldable pub start_app : Config F → Cache F → App F
  start_app cfg cache = record {
    cfg = cfg;
    strategy = if cfg.streaming.enabled then some (new_strategy cfg) else none;
    cache = cache;
  }

  -- `NewRequestStrategy(cfg, cfg.Worker.Count)`; the timeout of the context is `deadline`.
  abbrev pub requested :
      Api F
      → VisitOrder Text
      → Option ℕ
      → App F
      → List Text
      → Cache F × Option (List (Measurement F))
  requested api order deadline app ids =
      let s = new_request_strategy api app.cfg app.cfg.worker_count in
      Request.measurement_results s.atlasser s.cfg s.workers order deadline app.cache ids

  -- `s.MeasurementResults(ctx, ids)` for the strategy `s`; `fetched` is what a request strategy gives.
  unfoldable pub from_strategy :
      Cache F
      → List Text
      → Cache F × Option (List (Measurement F))
      → Option (Strategy F)
      → Cache F × Option (List (Measurement F))
  from_strategy c ids fetched none = fetched
  from_strategy c ids fetched (some s) = (c, some (measurement_results s ids))

  unfoldable pub results_for :
      Api F
      → VisitOrder Text
      → Option ℕ
      → App F
      → Text
      → List Text
      → Cache F × Option (List (Measurement F))
  unfolding from_strategy
  results_for api order deadline app id ids =
      if ltb 0 (length id)
      then requested api order deadline app ids
      else from_strategy app.cache ids (requested api order deadline app ids) app.strategy

  abbrev pub ids_for : Config F → Text → List Text
  ids_for cfg id = if ltb 0 (length id) then id ∷ [] else measurement_ids cfg

  -- `id` is the query parameter measurement_id, or empty.
  unfoldable pub handle_metrics_request :
      Api F → VisitOrder Text → Option ℕ → App F → Text → Cache F × Option (Response F)
  unfolding respond results_for
  handle_metrics_request api order deadline app id =
      if length (ids_for app.cfg id) == 0
      then (app.cache, some nothing)
      else respond app.cfg (results_for api order deadline app id (ids_for app.cfg id))

  -- The handler of /readyz: the status.
  unfoldable pub readyz : App F → ℤ → ℕ
  unfolding Request.is_healthy
  readyz app now =
      if elim app.strategy [ none ↦ Request.is_healthy | some s ↦ is_healthy s now ]
      then 200
      else 503

pub data Level : Type 0 where
  debug_level error_level fatal_level warn_level info_level : Level

-- helper.go
unfoldable pub set_log_level : Text → Level
set_log_level l =
    if l == codes "debug"
    then debug_level
    else if l == codes "error"
    then error_level
    else if l == codes "fatal"
    then fatal_level
    else if l == codes "warn"
    then warn_level
    else info_level
