-- ===== src/Tests/Answers.antt =====
-- Routes, answers and what is registered for a scrape.
use atlas_exporter.Atlas.Stream.{new_strategy}
use atlas_exporter.Tests.Requests.{api, cfg, no_probes, app}
use atlas_exporter.Server.Answers.{HttpRequest, answer, scrape, page, answer-routes, Contains, link}
use atlas_exporter.Exporter.Measurement.Collect.{VisitOrder}
use atlas_exporter.Collector.Grown.{IsGrown}
use atlas_exporter.Server.Registry.{Disjoint, names, registry-Disjoint}
use atlas_exporter.Exporter.Measurement.Add.{add_all}
use atlas_exporter.Exporter.Measurement
use atlas_exporter.Prelude.Equality.{list_eq, nat_eq, ◌==◌, eqb_list_iff}
use atlas_exporter.Exporter.{Desc}
use atlas_exporter.Atlas.Types.{measurement_for_type}
use atlas_exporter.Server.{registry, error}
use atlas_exporter.Prelude.Outcome.{done}
use atlas_exporter.Ping.Create.{new_measurement as ping_measurement}
use atlas_exporter.Prelude.Text.{codes, Text}
use atlas_exporter.Prelude.Dict.{lookup}
use atlas_exporter.Exporter.Measurement.{Measurement, Sample, store}
use atlas_exporter.Prelude.Int.{ℤ, pos}
use atlas_exporter.Server.Routes.{
  register_routes, Routes, Handler, Patterns, clashes, Conflicts, Separates,
}
use atlas_exporter.Server.{handle_metrics_request}
use atlas_exporter.Atlas.Stream.{is_healthy}
use atlas_exporter.Atlas.Request.{Api}
use atlas_exporter.Prelude.{
  Option, true, some, ◌∷◌, [], ◌≡◌, refl, Pairwise, ℕ, none, inl, inr, ◌++◌, if◌then◌else◌,
}
use atlas_exporter.Tests.Data.{int_floats, result_at, probe_at_zero}

-- The mux takes the handler of the pattern that is the path.
abbrev exact : Routes → Text → Option Handler
exact routes path = lookup path routes

-- Patterns are in conflict only if they are equal.
abbrev plain_patterns : Patterns
plain_patterns = record { valid = λ p. true; conflict = λ p q. p == q }

plain_patterns-Separates : Separates plain_patterns []
unfolding clashes
plain_patterns-Separates = record {
  itself = λ p. (eqb_list_iff p p).1 refl;
  index_valid = refl;
  healthz_valid = refl;
  readyz_valid = refl;
  healthz_index = refl;
  readyz_index = refl;
  readyz_healthz = refl;
  index_apart = refl;
  healthz_apart = refl;
  readyz_apart = refl;
}

metrics-apart : ¬ (Conflicts plain_patterns [] (codes "/metrics"))
metrics-apart h = elim h [
  | inl e ↦ cc
  | inr k ↦ elim k [ inl (p, m, e) ↦ m | inr l ↦ elim l [ inl e ↦ cc | inr e ↦ cc ] ]
]

answer-routes_example :
    (routes : Routes) × (register_routes plain_patterns [] (codes "/metrics") ≡ done routes)
    × ((a : Api ℤ) (order : VisitOrder Text) (deadline : Option ℕ) (now : ℤ) (version : Text)
          (r : HttpRequest)
        → let got =
            λ (path : Text). answer a order deadline now version app r (exact routes path) in
          let scraped = handle_metrics_request a order deadline app r.measurement_id in
          (got (codes "/metrics")
            ≡ (scraped.0, scrape (elim scraped.1 [ none ↦ error 500 | some w ↦ w ])))
          × (got (codes "/healthz") ≡ (no_probes, page 200 (codes "ok" ++ 10 ∷ [])))
          × (got (codes "/readyz") ≡ (
            no_probes,
            if is_healthy (new_strategy cfg) now
                then page 200 (codes "ready" ++ 10 ∷ [])
                else page 503 (codes "not ready" ++ 10 ∷ []),
          ))
          × ((text : Text) × (got (codes "/") ≡ (no_probes, page 200 text))
              × Contains (link (codes "/metrics") r.host) text))
answer-routes_example =
    answer-routes exact plain_patterns [] app plain_patterns-Separates refl metrics-apart (λ h e. e)
      (λ h e. e) (λ h e. e) (λ h e. e)

-- A ping measurement with one result.
abbrev pinged : Measurement ℤ
pinged =
    store (ping_measurement (codes "1001") (codes "4") cfg)
      (result_at (codes "ping") (pos 1001) (pos 7) (pos 100)) (some (probe_at_zero (pos 7)))

pinged-IsGrown : IsGrown pinged
unfolding measurement_for_type add_all Measurement.add ping_measurement
    atlas_exporter.Exporter.Measurement.new_measurement
    atlas_exporter.Exporter.Measurement.with_validator atlas_exporter.Exporter.default_is_valid
    atlas_exporter.Exporter.Measurement.is_valid atlas_exporter.Probe.asn_for_ip_version
pinged-IsGrown = record {
  digest = api.digest;
  type = codes "ping";
  id = codes "1001";
  ip_version = codes "4";
  cfg = cfg;
  made = ping_measurement (codes "1001") (codes "4") cfg;
  calls =
      (result_at (codes "ping") (pos 1001) (pos 7) (pos 100), some (probe_at_zero (pos 7))) ∷ [];
  is_made = refl;
  is_grown = refl;
}

registry-Disjoint_example :
    Pairwise
      (λ r s.
        Disjoint
          (names (codes "process_open_fds" ∷ []) (codes "go_goroutines" ∷ []) r)
          (names (codes "process_open_fds" ∷ []) (codes "go_goroutines" ∷ []) s))
      (registry cfg (pinged ∷ []))
registry-Disjoint_example =
    registry-Disjoint (codes "process_open_fds" ∷ []) (codes "go_goroutines" ∷ []) cfg (pinged ∷ [])
      ((codes "open_fds", refl), tt) ((codes "goroutines", refl), tt) (pinged-IsGrown, tt)
