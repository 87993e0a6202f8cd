-- ===== src/Http.antt =====
-- Package http (http/exporter.go): what is exported of an HTTP result.
pub mod Metrics
pub mod Series
pub mod Create
use atlas_exporter.Prelude.Int.{pos}
use atlas_exporter.Prelude.Outcome.{Outcome, ◌>>=◌, done, deref}
use atlas_exporter.Probe.{Probe, latitude, longitude, asn_for_ip_version}
use atlas_exporter.Result.{HttpResult, Result}
use atlas_exporter.Prelude.{List, String, ◌∷◌, if◌then◌else◌, [], ltb, Option, length, ◌++◌}
use atlas_exporter.Prelude.Text.{Text, codes, itoa}
use atlas_exporter.Exporter.{Desc, Metric, Exporter, gauge}
use atlas_exporter.Float.{Floats, float, positive}

abbrev pub ns : Text
ns = codes "atlas"

abbrev pub sub : Text
sub = codes "http"

abbrev labels : List Text
labels =
    codes "measurement"
    ∷ codes "probe"
    ∷ codes "dst_addr"
    ∷ codes "asn"
    ∷ codes "ip_version"
    ∷ codes "uri"
    ∷ codes "method"
    ∷ codes "country_code"
    ∷ codes "lat"
    ∷ codes "long"
    ∷ []

abbrev new_desc : String → String → Desc
new_desc name help = record {
  ns = ns;
  sub = sub;
  name = codes name;
  help = codes help;
  labels = labels;
}

abbrev success_desc : Desc
success_desc = new_desc "success" "Destination was reachable"

abbrev result_desc : Desc
result_desc = new_desc "result" "Code returned from http server"

abbrev http_ver_desc : Desc
http_ver_desc = new_desc "version" "HTTP version used for the request"

abbrev body_size_desc : Desc
body_size_desc = new_desc "body_size" "Body size in bytes"

abbrev header_size_desc : Desc
header_size_desc = new_desc "header_size" "Header size in bytes"

abbrev rtt_desc : Desc
rtt_desc = new_desc "rtt" "Round trip time in ms"

abbrev dns_err_desc : Desc
dns_err_desc = new_desc "dns_error" "A DNS error occurred (0 if not)"

unfoldable pub describe : List Desc
describe =
    success_desc ∷ result_desc ∷ http_ver_desc ∷ body_size_desc ∷ header_size_desc ∷ rtt_desc
    ∷ dns_err_desc ∷ []

module _ {F : Type 0} ⦃fl : Floats F⦄ where
  -- One round of the loop in `Export`.
  unfoldable pub label_values : Text → Result F → HttpResult F → Probe F → Outcome (List Text)
  label_values id res h p = do
    lat ← latitude p
    long ← longitude p
    done (
        id
        ∷ itoa p.id
        ∷ h.dst_addr
        ∷ itoa (asn_for_ip_version p h.af)
        ∷ itoa h.af
        ∷ res.uri
        ∷ h.method
        ∷ p.country_code
        ∷ lat
        ∷ long
        ∷ [])

  -- An HTTP version that cannot be parsed is logged, and exported as the value that comes with the error.
  unfoldable pub metrics : HttpResult F → List Text → List (Metric F)
  metrics h values =
      let dns_error = if ltb 0 (length h.dnserr) then pos 1 else pos 0 in
      let http_ver = (fl.parse_float h.ver).0 in
      gauge result_desc (float h.res) values
      ∷ gauge http_ver_desc http_ver values
      ∷ gauge body_size_desc (float h.bsize) values
      ∷ gauge header_size_desc (float h.hsize) values
      ∷ gauge dns_err_desc (float dns_error) values
      ∷ (if positive h.rt
          then gauge success_desc (float (pos 1)) values ∷ gauge rtt_desc h.rt values ∷ []
          else gauge success_desc (float (pos 0)) values ∷ [])

  unfoldable pub export_loop :
      Text → Result F → Option (Probe F) → List (HttpResult F) → Outcome (List (Metric F))
  export_loop id res probe [] = done []
  export_loop id res probe (h ∷ hs) = do
    p ← deref probe
    values ← label_values id res h p
    rest ← export_loop id res probe hs
    done (metrics h values ++ rest)

  unfoldable pub export :
      Text → Text → Result F → Option (Probe F) → Outcome (Text × List (Metric F))
  export id global res probe = do
    sent ← export_loop id res probe res.http_results
    done (global, sent)

  unfoldable pub exporter : Text → Exporter F
  unfolding export describe
  exporter id = record { export = export id; describe = describe }
