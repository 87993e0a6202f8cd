-- ===== src/Sslcert.antt =====
-- Package sslcert (sslcert/exporter.go): what is exported of a certificate result.
pub mod Metrics
pub mod Series
pub mod Fingerprint
pub mod Create
use atlas_exporter.Prelude.Int.{pos, ℤ}
use atlas_exporter.Prelude.Outcome.{Outcome, ◌>>=◌, deref, done}
use atlas_exporter.Probe.{Probe, latitude, longitude, asn_for_ip_version}
use atlas_exporter.Result.{Result}
use atlas_exporter.Prelude.{List, String, ◌∷◌, Option, [], none, some, if◌then◌else◌}
use atlas_exporter.Prelude.Text.{Text, codes, itoa}
use atlas_exporter.Exporter.{Desc, Metric, Exporter, gauge}
use atlas_exporter.Float.{Floats, float, positive}

abbrev pub ns : Text
ns = codes "atlas"

abbrev pub sub : Text
sub = codes "sslcert"

abbrev labels : List Text
labels =
    codes "measurement"
    ∷ codes "probe"
    ∷ codes "dst_addr"
    ∷ codes "asn"
    ∷ codes "ip_version"
    ∷ codes "country_code"
    ∷ codes "lat"
    ∷ codes "long"
    ∷ codes "cert_fingerprint"
    ∷ []

abbrev new_desc : String → String → Desc
new_desc name help = record {
  ns = ns;
  sub = sub;
  name = codes name;
  help = codes help;
  labels = labels;
}

abbrev success_desc : Desc
success_desc = new_desc "success" "Destination was reachable"

abbrev ssl_ver_desc : Desc
ssl_ver_desc = new_desc "version" "SSL/TLS version used for the request"

abbrev rtt_desc : Desc
rtt_desc = new_desc "rtt" "Round trip time in ms"

abbrev alert_level_desc : Desc
alert_level_desc = new_desc "alert_level" "Status of the SSL/TLS certificate (0 = valid)"

abbrev alert_description_desc : Desc
alert_description_desc =
    new_desc "alert_description" "Description for the alert level (see RIPE Atlas documentation)"

unfoldable pub describe : List Desc
describe = success_desc ∷ rtt_desc ∷ ssl_ver_desc ∷ alert_level_desc ∷ alert_description_desc ∷ []

-- `fmt.Sprintf("%x", sha256.Sum256(block.Bytes))` of the PEM block of a certificate; `none` if
-- `pem.Decode` finds no block.
abbrev pub Digest : Type 0
Digest = Text → Option Text

module _ {F : Type 0} where
  -- The package variable `certFingerprint` after the first lines of `Export`.
  unfoldable pub next_fingerprint : Digest → Text → Result F → Text
  next_fingerprint digest cert_fingerprint res = elim res.cert [
    | [] ↦ cert_fingerprint
    | c ∷ cs ↦ elim (digest c) [ none ↦ cert_fingerprint | some fingerprint ↦ fingerprint ]
  ]

module _ {F : Type 0} ⦃fl : Floats F⦄ where
  unfoldable pub label_values : Text → Text → Result F → Probe F → Outcome (List Text)
  label_values id cert_fingerprint res p = do
    lat ← latitude p
    long ← longitude p
    done (
        id
        ∷ itoa p.id
        ∷ res.dst_addr
        ∷ itoa (asn_for_ip_version p res.af)
        ∷ itoa res.af
        ∷ p.country_code
        ∷ lat
        ∷ long
        ∷ cert_fingerprint
        ∷ [])

  unfoldable pub metrics : Result F → List Text → List (Metric F)
  metrics res values =
      let ver = (fl.parse_float res.ver).0 in
      let alert_level : ℤ = elim res.sslcert_alert [ none ↦ pos 0 | some a ↦ a.level ] in
      let alert_description : ℤ = elim res.sslcert_alert [
        | none ↦ pos 0
        | some a ↦ a.description
      ] in
      gauge ssl_ver_desc ver values
      ∷ gauge alert_level_desc (float alert_level) values
      ∷ gauge alert_description_desc (float alert_description) values
      ∷ (if positive res.rt
          then gauge success_desc (float (pos 1)) values ∷ gauge rtt_desc res.rt values ∷ []
          else gauge success_desc (float (pos 0)) values ∷ [])

  unfoldable pub export :
      Digest → Text → Text → Result F → Option (Probe F) → Outcome (Text × List (Metric F))
  export digest id cert_fingerprint res probe = do
    let fingerprint = next_fingerprint digest cert_fingerprint res
    p ← deref probe
    values ← label_values id fingerprint res p
    done (fingerprint, metrics res values)

  unfoldable pub exporter : Digest → Text → Exporter F
  unfolding export describe
  exporter digest id = record { export = export digest id; describe = describe }
