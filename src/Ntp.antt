-- ===== src/Ntp.antt =====
-- Package ntp (ntp/exporter.go): what is exported of an NTP result.
pub mod Metrics
pub mod Series
pub mod Create
use atlas_exporter.Prelude.Outcome.{Outcome, ◌>>=◌, deref, done}
use atlas_exporter.Probe.{Probe, latitude, longitude, asn_for_ip_version}
use atlas_exporter.Result.{Result}
use atlas_exporter.Prelude.{List, String, ◌∷◌, Option, []}
use atlas_exporter.Prelude.Text.{Text, codes, itoa}
use atlas_exporter.Exporter.{Desc, Metric, Exporter, gauge}
use atlas_exporter.Float.{Floats, float, positive}

abbrev pub ns : Text
ns = codes "atlas"

abbrev pub sub : Text
sub = codes "ntp"

abbrev labels : List Text
labels =
    codes "measurement"
    ∷ codes "probe"
    ∷ codes "dst_addr"
    ∷ codes "dst_name"
    ∷ codes "asn"
    ∷ codes "ip_version"
    ∷ codes "country_code"
    ∷ codes "lat"
    ∷ codes "long"
    ∷ []

abbrev new_desc : String → String → Desc
new_desc name help = record {
  ns = ns;
  sub = sub;
  name = codes name;
  help = codes help;
  labels = labels;
}

abbrev poll_desc : Desc
poll_desc = new_desc "poll" "Poll"

abbrev precision_desc : Desc
precision_desc = new_desc "precision" "Precision"

abbrev root_delay_desc : Desc
root_delay_desc = new_desc "root_delay" "Root delay"

abbrev root_dispersion_desc : Desc
root_dispersion_desc = new_desc "root_dispersion" "Root dispersion"

abbrev ntp_version_desc : Desc
ntp_version_desc = new_desc "ntp_version" "NTP Version"

unfoldable pub describe : List Desc
describe =
    poll_desc ∷ precision_desc ∷ root_delay_desc ∷ root_dispersion_desc ∷ ntp_version_desc ∷ []

module _ {F : Type 0} ⦃fl : Floats F⦄ where
  unfoldable pub label_values : Text → Result F → Probe F → Outcome (List Text)
  label_values id res p = do
    lat ← latitude p
    long ← longitude p
    done (
        id
        ∷ itoa p.id
        ∷ res.dst_addr
        ∷ res.dst_name
        ∷ itoa (asn_for_ip_version p res.af)
        ∷ itoa res.af
        ∷ p.country_code
        ∷ lat
        ∷ long
        ∷ [])

  unfoldable pub metrics : Result F → List Text → List (Metric F)
  metrics res values =
      gauge poll_desc res.poll values
      ∷ gauge precision_desc res.precision values
      ∷ gauge root_delay_desc res.root_delay values
      ∷ gauge root_dispersion_desc res.root_dispersion values
      ∷ gauge ntp_version_desc (float res.version) values
      ∷ []

  unfoldable pub export :
      Text → Text → Result F → Option (Probe F) → Outcome (Text × List (Metric F))
  export id global res probe = do
    p ← deref probe
    values ← label_values id res p
    done (global, metrics res values)

  unfoldable pub exporter : Text → Exporter F
  unfolding export describe
  exporter id = record { export = export id; describe = describe }
