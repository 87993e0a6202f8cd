-- ===== src/Tests/Requests.antt =====
-- Requests of measurements, and the answers of the server.
use atlas_exporter.Server.Series.Reached.{reachable_scrape-HasNoTwice}
use atlas_exporter.Server.Series.{HasNoTwice}
use atlas_exporter.Atlas.Request.Invariant.{Delivers, IfSome}
use atlas_exporter.Exporter.Measurement
use atlas_exporter.Atlas.Stream.Series.{OneRequest}
use atlas_exporter.Prelude.Equality.{list_eq, nat_eq, ◌==◌, eqb_list_iff}
use atlas_exporter.Exporter.Laws.{In}
use atlas_exporter.Exporter.{Desc}
use atlas_exporter.Dns.Create.{new_measurement as dns_measurement}
use atlas_exporter.Atlas.Types.{measurement_for_type}
use atlas_exporter.Collector.Registration.{Agree, measurement_for_type-Agree}
use atlas_exporter.Exporter.Series.{fq_name, hist_name}
use atlas_exporter.Server.{start_app}
use atlas_exporter.Server.Life.{
  of_process, Reach, here, next, scraped, streamed, swept, reachable_scrape-IsSafe,
}
use atlas_exporter.Atlas.Request.NoWorkers.{no_workers-measurement_results}
use atlas_exporter.Atlas.Request
use atlas_exporter.Ping.Create.{new_measurement as ping_measurement}
use atlas_exporter.Atlas.Stream.Scrape.{streamed-IsServable}
use atlas_exporter.Atlas.Stream.Processor.{process_measurement_results}
use atlas_exporter.Atlas.Stream.Scrape.{AllServable}
use atlas_exporter.Prelude.Text.{codes, Text}
use atlas_exporter.Exporter.Measurement.Scrape.{IsServable}
use atlas_exporter.Prelude.Dict.{lookup}
use atlas_exporter.Probe.Labels.{HasLabels}
use atlas_exporter.Atlas.Request.Entries.{IsRequested, get_measurement_for_id-IsRequested}
use atlas_exporter.Exporter.Measurement.{Measurement, Sample, store}
use atlas_exporter.Prelude.Int.{ℤ, pos}
use atlas_exporter.Result.{Result}
use atlas_exporter.Server.Scrape.{IsSafe}
use atlas_exporter.Atlas.Stream.{
  new_strategy, World, process_measurement_result, measurement_results,
}
use atlas_exporter.Server.{App, readyz, handle_metrics_request}
use atlas_exporter.Atlas.Lookup.Values.{Fetches, Caches, IsOf}
use atlas_exporter.Probe.Cache.{Cache, new_cache, fresh}
use atlas_exporter.Config.{Config}
use atlas_exporter.Atlas.Request.{Api, get_measurement_for_id}
use atlas_exporter.Prelude.{
  List, length, All, Option, true, map, some, ◌∷◌, [], ◌≡◌, ◌≢◌, subst, none, refl, arith, ◌↔◌,
  false, Bool, ◌⊎◌, sym, ◌∙◌, Pairwise, ℕ,
}
use atlas_exporter.Tests.Data.{int_floats, result_at, config_with, probe_at_zero, in_order}

abbrev res : List (Result ℤ)
res =
    result_at (codes "ping") (pos 1001) (pos 7) (pos 100)
    ∷ result_at (codes "ping") (pos 1001) (pos 7) (pos 200)
    ∷ []

abbrev delivered : List (Option (Result ℤ))
delivered = map some res

abbrev pub api : Api ℤ
api = record {
  latest = λ id. some delivered;
  fetch = λ id. some (probe_at_zero id);
  digest = λ certificate. some certificate;
  clock = λ id k. pos 1000;
  arrival = in_order;
}

abbrev pub cfg : Config ℤ
cfg = config_with (codes "/metrics") (pos 60)

abbrev pub no_probes : Cache ℤ
no_probes = new_cache (pos 3600)

-- The measurement that is sent.
got : Measurement ℤ
unfolding get_measurement_for_id
got = elim (get_measurement_for_id api cfg 8 no_probes (codes "1001")).1 [
  | some mes ↦ mes
  | none ↦ ping_measurement (codes "1001") (codes "4") cfg
]

get_measurement_for_id-IsRequested_example :
    IsRequested api cfg 8 no_probes (codes "1001") delivered got
unfolding got atlas_exporter.Atlas.Types.measurement_for_type
    atlas_exporter.Atlas.Lookup.probes_for_results atlas_exporter.Atlas.Lookup.probe_for_id
    atlas_exporter.Probe.Cache.get lookup new_cache atlas_exporter.Atlas.Request.add_results
    atlas_exporter.Exporter.Measurement.add ping_measurement
    atlas_exporter.Exporter.Measurement.new_measurement
    atlas_exporter.Exporter.Measurement.with_validator atlas_exporter.Exporter.default_is_valid
    atlas_exporter.Prelude.Dict.insert atlas_exporter.Probe.asn_for_ip_version
    atlas_exporter.Exporter.Measurement.store
get_measurement_for_id-IsRequested_example =
    get_measurement_for_id-IsRequested api cfg 8 no_probes (codes "1001") delivered got refl refl

none-ne-some {ℓ} : {A : Type ℓ} → {x : A} → ◌≡◌ {A = Option A} none (some x) → ⊥
none-ne-some h = cc

two_not_one : length (pos 9 ∷ pos 50 ∷ []) ≢ 1
two_not_one h = omega arith

api-Fetches : Fetches HasLabels api.fetch
api-Fetches id p h =
    let same : probe_at_zero id ≡ p = cc in subst (IsOf HasLabels id) same (refl, two_not_one)

no_probes-Caches : Caches HasLabels no_probes
unfolding new_cache lookup fresh atlas_exporter.Probe.Cache.get
no_probes-Caches t id p h = absurd (none-ne-some h)

abbrev pub app : App ℤ
app = record { cfg = cfg; strategy = some (new_strategy cfg); cache = no_probes }

new-AllServable : AllServable (new_strategy cfg)
unfolding new_strategy lookup
new-AllServable id mes h = absurd (none-ne-some h)

abbrev world : World ℤ
world = record { strategy = new_strategy cfg; cache = no_probes; last_data_timestamp = [] }

streamed-IsServable_example : All IsServable (
    measurement_results
      (process_measurement_results
        (λ w r. process_measurement_result api.digest api.fetch (pos 100) (pos 100) (pos 100) w r)
        false
        ((result_at (codes "ping") (pos 1001) (pos 7) (pos 100), true) ∷ [])
        world).strategy
      (codes "1001" ∷ []))
streamed-IsServable_example =
    streamed-IsServable api.digest api.fetch api-Fetches (λ _. pos 100) (λ _. pos 100)
      (λ _. pos 100) world ((result_at (codes "ping") (pos 1001) (pos 7) (pos 100), true) ∷ [])
      (codes "1001" ∷ []) (no_probes-Caches, new-AllServable)

pub apart : (a b : Text) → (a == b) ≡ false → a ≢ b
apart a b h e = let same = (eqb_list_iff a b).1 e in (let clash = sym h ∙ same in cc)

-- The status of /readyz before any worker is connected.
not_ready : readyz app (pos 0) ≡ 503
unfolding readyz atlas_exporter.Atlas.Stream.is_healthy new_strategy
not_ready = refl

-- With no workers nothing is sent for a measurement that has results.
no_workers-measurement_results_example :
    (Request.measurement_results api cfg 0 in_order none no_probes (codes "1001" ∷ [])).1 ≡ some []
no_workers-measurement_results_example =
    no_workers-measurement_results api cfg in_order no_probes (codes "1001" ∷ []) refl

-- A scrape, a result of the stream, and a sweep.
abbrev begun : App ℤ
begun = start_app cfg no_probes

abbrev scraped_once : App ℤ
scraped_once = record begun {
  cache =
      (handle_metrics_request (of_process api.fetch api.digest api) in_order none begun
        (codes "1001")).0;
}

some_steps : (app : App ℤ) × Reach api.fetch api.digest begun app
unfolding start_app
some_steps = (
  _,
  next
      (next (next here (scraped begun api in_order none (codes "1001"))) (
        streamed scraped_once (new_strategy cfg) [] (pos 100) (pos 100) (pos 100)
          (result_at (codes "ping") (pos 1001) (pos 7) (pos 100)) refl))
      (swept _ (pos 7 ∷ [])),
)

reachable_scrape-IsSafe_example :
    IsSafe
      (handle_metrics_request
        (of_process api.fetch api.digest api)
        in_order
        (some 1)
        some_steps.0
        []).1
reachable_scrape-IsSafe_example =
    reachable_scrape-IsSafe api.fetch api.digest api-Fetches cfg (pos 3600) api in_order (some 1) []
      (omega arith) some_steps.1

-- A ping and a DNS measurement.
measurement_for_type-Agree_example :
    ((d e : Desc)
      → In d (ping_measurement (codes "1001") (codes "4") cfg).exporter.describe
      → In e (dns_measurement (codes "1002") (codes "6") cfg).exporter.describe
      → Agree d e)
    × ((d : Desc)
        → In d (ping_measurement (codes "1001") (codes "4") cfg).exporter.describe
        → All
            (λ h. fq_name d ≢ hist_name h)
            (dns_measurement (codes "1002") (codes "6") cfg).histograms)
unfolding measurement_for_type
measurement_for_type-Agree_example =
    measurement_for_type-Agree api.digest (codes "ping") (codes "dns") (codes "1001") (codes "1002")
      (codes "4") (codes "6") cfg cfg (ping_measurement (codes "1001") (codes "4") cfg)
      (dns_measurement (codes "1002") (codes "6") cfg) refl refl

api-Delivers : Delivers OneRequest api
api-Delivers id ms e =
    let same : delivered ≡ ms = cc in
    subst (All (IfSome OneRequest)) same (omega arith, (omega arith, tt))

-- The configuration names one measurement.
reachable_scrape-HasNoTwice_example :
    HasNoTwice
      (handle_metrics_request
        (of_process api.fetch api.digest api)
        in_order
        (some 1)
        some_steps.0
        []).1
unfolding some_steps atlas_exporter.Config.measurement_ids
reachable_scrape-HasNoTwice_example =
    reachable_scrape-HasNoTwice api.fetch api.digest api-Fetches cfg (pos 3600) api in_order
      (some 1) [] some_steps.1 (omega arith) ((((tt, tt), omega arith), tt)) api-Delivers (tt, tt)
