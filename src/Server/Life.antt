-- ===== src/Server/Life.antt =====
-- main.go and the packages together: what may happen to the process after it has started, as steps.
use atlas_exporter.Atlas.Stream.Scrape.{handle-IsReady}
use atlas_exporter.Atlas.Request.Scrape.{send_all-IsServable}
use atlas_exporter.Prelude.Equality.{int_eq, ◌==◌, list_eq, nat_eq}
use atlas_exporter.Probe.{Probe}
use atlas_exporter.Exporter.Measurement.{Measurement}
use atlas_exporter.Result.{Result}
use atlas_exporter.Config.{Config}
use atlas_exporter.Atlas.Stream.Scrape.{AllServable}
use atlas_exporter.Exporter.Measurement.Collect.{VisitOrder}
use atlas_exporter.Probe.Cache.Sweep.{mem, lookup-delete_all}
use atlas_exporter.Server.Scrape.{StrategyOk, IsSafe, handle_metrics_request-IsSafe}
use atlas_exporter.Prelude.Text.{Text}
use atlas_exporter.Probe.Labels.{HasLabels}
use atlas_exporter.Prelude.Int.{ℤ}
use atlas_exporter.Prelude.Dict.{Dict, lookup}
use atlas_exporter.Atlas.Lookup.Values.{Fetches, Caches}
use atlas_exporter.Prelude.{
  Bool, List, some, Option, if◌then◌else◌, ◌<◌, ℕ, none, true, ◌≡◌, arith, false, suc, length, ltb,
  subst, zero,
}
use atlas_exporter.Server.{
  App, from_strategy, respond, handle_metrics_request, start_app, results_for, ids_for,
}
use atlas_exporter.Atlas.Request.{Api}
use atlas_exporter.Sslcert.{Digest}
use atlas_exporter.Atlas.Lookup.{Fetch}
use atlas_exporter.Float.{Floats}
use atlas_exporter.Probe.Cache.{Cache, new_cache, delete_all, fresh, get, CacheItem}
use atlas_exporter.Atlas.Stream.{Strategy, World, process_measurement_result, new_strategy}
use atlas_exporter.Atlas.Request

module _ {F : Type 0} ⦃fl : Floats F⦄ (fetch : Fetch F) (digest : Digest) where
  -- With the request for a probe and the digest, which are the same at all times.
  abbrev pub of_process : Api F → Api F
  of_process api = record api { fetch = fetch; digest = digest }

  abbrev streamed_app : App F → World F → App F
  streamed_app app w = record app { strategy = some w.strategy; cache = w.cache }

  -- A step of the process: a result of the stream is handled, a worker comes or goes, the second loop of
  -- `CleanUp` removes the ids that the first one has found at an earlier time, or a scrape is answered.
  -- A result that is lost after a panic is no step.
  pub data Step : App F → App F → Type 0 where
    streamed :
        (app : App F) (s : Strategy F) (gauge : Dict Text ℤ) (now read stored : ℤ) (r : Result F)
        → app.strategy ≡ some s
        → Step app (
            streamed_app app
              (process_measurement_result digest fetch now read stored
                (record { strategy = s; cache = app.cache; last_data_timestamp = gauge })
                r).0)
    counted :
        (app : App F) (s : Strategy F) (n : ℤ)
        → app.strategy ≡ some s
        → Step app (record app { strategy = some (record s { connected_workers = n }) })
    swept :
        (app : App F) (ids : List ℤ)
        → Step app
            (record app { cache = record app.cache { cache = delete_all ids app.cache.cache } })
    scraped :
        (app : App F) (api : Api F) (order : VisitOrder Text) (deadline : Option ℕ) (id : Text)
        → Step app (record app {
          cache = (handle_metrics_request (of_process api) order deadline app id).0;
        })

  pub data Reach (start : App F) : App F → Type 0 where
    here : Reach start start
    next : {app app' : App F} → Reach start app → Step app app' → Reach start app'

  pub record AppOk (app : App F) : Type 0 where
    pub cached : Caches HasLabels app.cache
    pub served : StrategyOk app.strategy
    pub workers : 0 < app.cfg.worker_count

  gone-Known :
      (b : Bool) (t : ℤ) (o : Option (CacheItem F)) (p : Probe F)
      → fresh t (if b then none else o) ≡ some p
      → fresh t o ≡ some p
  unfolding fresh
  gone-Known true t o p h = cc
  gone-Known false t o p h = h

  delete_all-Caches :
      (ids : List ℤ) (c : Cache F)
      → Caches HasLabels c
      → Caches HasLabels (record c { cache = delete_all ids c.cache })
  unfolding get
  delete_all-Caches ids c h t id p e =
      h t id p (
        gone-Known (mem id ids) t (lookup id c.cache) p
          (rw (lookup-delete_all id ids c.cache) at e))

  module _ (good : Fetches HasLabels fetch) where
    requested-Caches :
        (api : Api F) (order : VisitOrder Text) (deadline : Option ℕ) (cfg : Config F) (n : ℕ)
        (c : Cache F) (ids : List Text)
        → 0 < n
        → Caches HasLabels c
        → Caches HasLabels
            (Request.measurement_results (of_process api) cfg n order deadline c ids).0
    unfolding Request.measurement_results
    requested-Caches api order deadline cfg zero c ids h cached = absurd (omega arith)
    requested-Caches api order deadline cfg (suc n) c ids h cached =
        (send_all-IsServable (of_process api) cfg n good c (order.visit ids) cached).0

    from_strategy-Caches :
        (c : Cache F) (ids : List Text) (fetched : Cache F × Option (List (Measurement F)))
        (strategy : Option (Strategy F))
        → Caches HasLabels c
        → Caches HasLabels fetched.0
        → Caches HasLabels (from_strategy c ids fetched strategy).0
    unfolding from_strategy
    from_strategy-Caches c ids fetched none h k = k
    from_strategy-Caches c ids fetched (some s) h k = h

    respond-Caches :
        (cfg : Config F) (found : Cache F × Option (List (Measurement F)))
        → Caches HasLabels found.0
        → Caches HasLabels (respond cfg found).0
    unfolding respond
    respond-Caches cfg (c, none) h = h
    respond-Caches cfg (c, some ms) h = h

    if-Caches :
        {A : Type 0} (b : Bool) (x y : Cache F × A)
        → Caches HasLabels x.0
        → Caches HasLabels y.0
        → Caches HasLabels (if b then x else y).0
    if-Caches true x y h k = h
    if-Caches false x y h k = k

    handle_metrics_request-Caches :
        (api : Api F) (order : VisitOrder Text) (deadline : Option ℕ) (app : App F) (id : Text)
        → AppOk app
        → Caches HasLabels (handle_metrics_request (of_process api) order deadline app id).0
    unfolding handle_metrics_request results_for
    handle_metrics_request-Caches api order deadline app id ok =
        let ids = ids_for app.cfg id in
        let direct =
          requested-Caches api order deadline app.cfg app.cfg.worker_count app.cache ids ok.workers
            ok.cached in
        if-Caches (length ids == 0) _ _ ok.cached (
          respond-Caches app.cfg (results_for (of_process api) order deadline app id ids) (
            if-Caches (ltb 0 (length id)) _ _ direct
              (from_strategy-Caches app.cache ids _ app.strategy ok.cached direct)))

    pub Step-AppOk : {app app' : App F} → Step app app' → AppOk app → AppOk app'
    Step-AppOk (streamed app s gauge now read stored r e) ok =
        let (cached, served) =
          handle-IsReady digest fetch good (λ _. now) (λ _. read) (λ _. stored)
            (record { strategy = s; cache = app.cache; last_data_timestamp = gauge }) r
            (ok.cached, subst StrategyOk e ok.served) in
        record { cached = cached; served = served; workers = ok.workers }
    Step-AppOk (counted app s n e) ok = record {
      cached = ok.cached;
      served = subst StrategyOk e ok.served;
      workers = ok.workers;
    }
    Step-AppOk (swept app ids) ok = record {
      cached = delete_all-Caches ids app.cache ok.cached;
      served = ok.served;
      workers = ok.workers;
    }
    Step-AppOk (scraped app api order deadline id) ok = record {
      cached = handle_metrics_request-Caches api order deadline app id ok;
      served = ok.served;
      workers = ok.workers;
    }

    Reach-AppOk : {start app : App F} → AppOk start → Reach start app → AppOk app
    Reach-AppOk ok here = ok
    Reach-AppOk ok (next r s) = Step-AppOk s (Reach-AppOk ok r)

    if-StrategyOk :
        (b : Bool) (s : Strategy F) → AllServable s → StrategyOk (if b then some s else none)
    if-StrategyOk true s h = h
    if-StrategyOk false s h = tt

    pub start_app-AppOk :
        (cfg : Config F) (ttl : ℤ) → 0 < cfg.worker_count → AppOk (start_app cfg (new_cache ttl))
    unfolding start_app new_strategy new_cache lookup get fresh
    start_app-AppOk cfg ttl h = record {
      cached = λ t id p e. cc;
      served = if-StrategyOk cfg.streaming.enabled (new_strategy cfg) (λ id mes e. cc);
      workers = h;
    }

    -- The program starts with a configuration that has at least one worker, and the API gives for an id
    -- only the probe with that id, readable. Then, after any steps (results of the stream are handled,
    -- workers come and go, sweeps of the cache remove ids, scrapes are answered), whatever measurement
    -- id a request names, in whatever order its goroutines end and whatever the deadline,
    -- `handleMetricsRequest` gives an error or a response; and each collector of that response ends
    -- `Collect` without a panic, in whatever order the maps are visited and at whatever times the clock
    -- shows, and sends only what its `Describe` has described.
    pub reachable_scrape-IsSafe :
        (cfg : Config F) (ttl : ℤ) {app : App F} (api : Api F) (order : VisitOrder Text)
        (deadline : Option ℕ) (id : Text)
        → 0 < cfg.worker_count
        → Reach (start_app cfg (new_cache ttl)) app
        → IsSafe (handle_metrics_request (of_process api) order deadline app id).1
    reachable_scrape-IsSafe cfg ttl {app = app} api order deadline id h r =
        let ok = Reach-AppOk (start_app-AppOk cfg ttl h) r in
        handle_metrics_request-IsSafe (of_process api) order deadline app id good ok.cached
          ok.served ok.workers
