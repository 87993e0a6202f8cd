-- ===== src/Server/Answers.antt =====
-- main.go: what the handlers write, and which of them answers a request. `mux` is the choice of
-- http.ServeMux among the patterns; the header of a response is left out.
use atlas_exporter.Prelude.Outcome.{done}
use atlas_exporter.Prelude.Dict.{lookup}
use atlas_exporter.Prelude.Int.{ℤ}
use atlas_exporter.Exporter.Measurement.Collect.{VisitOrder}
use atlas_exporter.Atlas.Request.{Api}
use atlas_exporter.Probe.Cache.{Cache}
use atlas_exporter.Server.{Response, error_handler, App, handle_metrics_request, readyz, error}
use atlas_exporter.Float.{Floats}
use atlas_exporter.Prelude.Text.{Text, codes}
use atlas_exporter.Prelude.{
  ℕ, ◌∷◌, List, if◌then◌else◌, ◌++◌, Option, [], Bool, some, ◌≡◌, true, none, refl, ap, subst,
  false,
}
use atlas_exporter.Atlas.Stream.{is_healthy}
use atlas_exporter.Atlas.Request
use mathlib.Core.List.{append_assoc}
use atlas_exporter.Prelude.Equality.{◌==◌, list_eq, nat_eq}
use atlas_exporter.Server.Routes.{
  index, metrics, healthz, ready, Routes, Handler, register_routes, Patterns, profiling, Separates,
  Conflicts, all_routes, register_routes-all, lookup-all_routes,
}

abbrev newline : ℕ
newline = 10

-- What follows a line break in the source, which indents the text by twelve blanks.
abbrev line : Text → Text
line t = newline ∷ (codes "            " ++ t)

-- The page of the handler of /, up to the line with the link to the metrics, and behind it.
abbrev page_head : Text → Text
page_head version =
    codes "<html>"
    ++ (line (
          codes "<head><title>RIPE Atlas Exporter (Version "
          ++ (version ++ codes ")</title></head>"))
        ++ (line (codes "<body>")
            ++ (line (codes "<h1>RIPE Atlas Exporter</h1>")
                ++ (line (codes "<h2>Example</h2>")
                    ++ line (
                        codes
                          "<p>Metrics for measurement configured in configuration file:</p>")))))

abbrev page_tail : Text → Text → Text
page_tail path host =
    line (codes "<p>Metrics for measurement with id 8809582:</p>")
    ++ (line (
          codes "<p><a href=\""
          ++ (path
              ++ (codes "?measurement_id=8809582\">"
                  ++ (host ++ (path ++ codes "?measurement_id=8809582</a></p>")))))
        ++ (line (codes "<h2>More information</h2>")
            ++ (line (
                  codes
                    "<p><a href=\"https://github.com/rjocoleman/atlas_exporter\">github.com/rjocoleman/atlas_exporter</a></p>")
                ++ (line (codes "</body>") ++ line (codes "</html>")))))

-- `host` is that of the request, and nothing is escaped.
unfoldable pub index_page : Text → Text → Text → Text
index_page version path host =
    page_head version
    ++ (line
          (codes "<p><a href=\"" ++ (path ++ (codes "\">" ++ (host ++ (path ++ codes "</a></p>")))))
        ++ page_tail path host)

-- The lines that `printVersion` prints.
unfoldable pub print_version : Text → List Text
print_version version =
    codes "atlas_exporter"
    ∷ (codes "Version: " ++ version)
    ∷ codes "Author(s): Daniel Czerwonk, Robert Coleman"
    ∷ codes "Metric exporter for RIPE Atlas measurements"
    ∷ codes
        "This software uses Go bindings from the DNS-OARC project (https://github.com/DNS-OARC/ripeatlas)"
    ∷ []

-- What a handler needs of a request; `measurement_id` is the query parameter, or empty.
pub record HttpRequest : Type 0 where
  pub host : Text
  pub measurement_id : Text

-- A status and a body, what is written for a scrape, or what net/http answers itself: with no handler, or
-- by one of net/http/pprof.
pub data Answer (F : Type 0) : Type 0 where
  page : ℕ → Text → Answer F
  scrape : Response F → Answer F
  library : Answer F

-- The body of /readyz for its status.
abbrev pub ready_body : ℕ → Text
ready_body status =
    if status == 200 then codes "ready" ++ newline ∷ [] else codes "not ready" ++ newline ∷ []

abbrev pub ok_body : Text
ok_body = codes "ok" ++ newline ∷ []

-- A request for that path goes to the handler that is registered under it.
abbrev pub IsExact : (Routes → Text → Option Handler) → Routes → Text → Type 0
IsExact mux routes path = (h : Handler) → lookup path routes ≡ some h → mux routes path ≡ some h

abbrev pub Contains : Text → Text → Type 0
Contains part t = (before after : Text) × (t ≡ before ++ (part ++ after))

-- The link to the metrics.
abbrev pub link : Text → Text → Text
link path host = codes "<a href=\"" ++ (path ++ (codes "\">" ++ (host ++ (path ++ codes "</a>"))))

Contains-after : (part x t : Text) → Contains part t → Contains part (x ++ t)
Contains-after part x t (before, after, e) =
    (x ++ before, after, rw (e, append_assoc x before (part ++ after)) refl)

Contains-before : (part t y : Text) → Contains part t → Contains part (t ++ y)
Contains-before part t y (before, after, e) = (
  before,
  after ++ y,
  rw (e, append_assoc before (part ++ after) y, append_assoc part after y) refl,
)

Contains-itself : (part y : Text) → Contains part (part ++ y)
Contains-itself part y = ([], y, refl)

index_page-Contains :
    (version path host : Text) → Contains (link path host) (index_page version path host)
unfolding index_page
index_page-Contains version path host =
    let part = link path host in
    let before = newline ∷ codes "            <p>" in
    let linked : Contains part (before ++ (part ++ codes "</p>")) =
      Contains-after part before (part ++ codes "</p>") (Contains-itself part (codes "</p>")) in
    let same : before ++ (part ++ codes "</p>")
        ≡ line (
            codes "<p><a href=\""
            ++ (path ++ (codes "\">" ++ (host ++ (path ++ codes "</a></p>"))))) =
      ap (λ x. before ++ x)
        (rw
          (
            append_assoc path (codes "\">" ++ (host ++ (path ++ codes "</a>"))) (codes "</p>"),
            append_assoc host (path ++ codes "</a>") (codes "</p>"),
            append_assoc path (codes "</a>") (codes "</p>"),
          )
          refl) in
    Contains-after part (page_head version) _
      (Contains-before part _ (page_tail path host) (subst (Contains part) same linked))

module _ {F : Type 0} ⦃fl : Floats F⦄ where
  abbrev finished : Cache F × Option (Response F) → Cache F × Answer F
  finished (c, response) = (c, scrape (error_handler response))

  -- The handlers. `now` is the time in nanoseconds, and the rest of what a scrape reads comes first.
  unfoldable pub answer :
      Api F
      → VisitOrder Text
      → Option ℕ
      → ℤ
      → Text
      → App F
      → HttpRequest
      → Option Handler
      → Cache F × Answer F
  answer api order deadline now version app r none = (app.cache, library)
  answer api order deadline now version app r (some index) =
      (app.cache, page 200 (index_page version app.cfg.web.telemetry_path r.host))
  answer api order deadline now version app r (some metrics) =
      finished (handle_metrics_request api order deadline app r.measurement_id)
  answer api order deadline now version app r (some healthz) = (app.cache, page 200 ok_body)
  answer api order deadline now version app r (some ready) =
      (app.cache, page (readyz app now) (ready_body (readyz app now)))
  answer api order deadline now version app r (some profiling) = (app.cache, library)

  error_handler-plain :
      (o : Option (Response F)) → error_handler o ≡ elim o [ none ↦ error 500 | some w ↦ w ]
  unfolding error_handler
  error_handler-plain none = refl
  error_handler-plain (some w) = refl

  -- The status and the body of /readyz.
  readyz-plain :
      (app : App F) (now : ℤ)
      → ◌≡◌ {A = Answer F} (page (readyz app now) (ready_body (readyz app now))) (
          if (elim app.strategy [ none ↦ true | some s ↦ is_healthy s now ])
          then page 200 (codes "ready" ++ 10 ∷ [])
          else page 503 (codes "not ready" ++ 10 ∷ []))
  unfolding readyz Request.is_healthy
  readyz-plain app now = go (elim app.strategy [ none ↦ true | some s ↦ is_healthy s now ])
    where
      go :
          (b : Bool)
          → ◌≡◌ {A = Answer F}
              (page (if b then 200 else 503) (ready_body (if b then 200 else 503)))
              (if b
                then page 200 (codes "ready" ++ 10 ∷ [])
                else page 503 (codes "not ready" ++ 10 ∷ []))
      go true = refl
      go false = refl

  -- Net/http holds each pattern in conflict with itself, can parse the three fixed patterns and the
  -- telemetry path, and holds none of these in conflict with another pattern; the mux gives a request
  -- for one of the four paths to the handler of that pattern. Then the routes are registered without a
  -- panic. A request for the telemetry path is answered by what `handleMetricsRequest` gives, or by
  -- status 500 if that is an error; /healthz by 200 and ok; /readyz by 200 and ready if there is no
  -- streaming strategy or it is healthy, and else by 503 and not ready; and / by 200 and a page with the
  -- link to the telemetry path.
  pub answer-routes :
      (mux : Routes → Text → Option Handler) (ps : Patterns) (routes : Routes) (app : App F)
      → Separates ps routes
      → ps.valid app.cfg.web.telemetry_path ≡ true
      → ¬ (Conflicts ps routes app.cfg.web.telemetry_path)
      → IsExact mux (all_routes routes app.cfg.web.telemetry_path) app.cfg.web.telemetry_path
      → IsExact mux (all_routes routes app.cfg.web.telemetry_path) (codes "/healthz")
      → IsExact mux (all_routes routes app.cfg.web.telemetry_path) (codes "/readyz")
      → IsExact mux (all_routes routes app.cfg.web.telemetry_path) (codes "/")
      → (registered : Routes) × (register_routes ps routes app.cfg.web.telemetry_path
          ≡ done registered)
        × ((api : Api F) (order : VisitOrder Text) (deadline : Option ℕ) (now : ℤ) (version : Text)
              (r : HttpRequest)
            → let got = λ (path : Text).
              answer api order deadline now version app r (mux registered path) in
              let scraped = handle_metrics_request api order deadline app r.measurement_id in
              (got app.cfg.web.telemetry_path
                ≡ (scraped.0, scrape (elim scraped.1 [ none ↦ error 500 | some w ↦ w ])))
              × (got (codes "/healthz") ≡ (app.cache, page 200 (codes "ok" ++ 10 ∷ [])))
              × (got (codes "/readyz") ≡ (
                app.cache,
                if (elim app.strategy [ none ↦ true | some s ↦ is_healthy s now ])
                    then page 200 (codes "ready" ++ 10 ∷ [])
                    else page 503 (codes "not ready" ++ 10 ∷ []),
              ))
              × ((text : Text) × (got (codes "/") ≡ (app.cache, page 200 text))
                  × Contains (link app.cfg.web.telemetry_path r.host) text))
  unfolding answer
  answer-routes mux ps routes app h ok apart at_path at_health at_ready at_root =
      let path = app.cfg.web.telemetry_path in
      let made = register_routes-all ps routes path h ok apart in
      let (on_path, on_root, on_health, on_ready) = lookup-all_routes ps routes path h apart in
      (
        all_routes routes path,
        made,
        λ api order deadline now version r. (
          rw (at_path metrics on_path) (
              ap
                (λ w.
                  ((handle_metrics_request api order deadline app r.measurement_id).0, scrape w))
                (error_handler-plain
                  (handle_metrics_request api order deadline app r.measurement_id).1)),
          rw (at_health healthz on_health) refl,
          rw (at_ready ready on_ready) (ap (λ w. (app.cache, w)) (readyz-plain app now)),
          (
            index_page version path r.host,
            rw (at_root index on_root) refl,
            index_page-Contains version path r.host,
          ),
        ),
      )
