-- ===== src/Ping.antt =====
-- Package ping: what is exported and observed of a ping result.
pub mod Metrics
pub mod Series
pub mod Create
use atlas_exporter.Prelude.Int.{pos}
use atlas_exporter.Prelude.Outcome.{Outcome, ◌>>=◌, deref, done}
use atlas_exporter.Probe.{Probe, latitude, longitude, asn_for_ip_version}
use atlas_exporter.Result.{Result}
use atlas_exporter.Prelude.{List, String, ◌∷◌, Option, [], if◌then◌else◌, ◌++◌}
use atlas_exporter.Prelude.Text.{Text, codes, itoa}
use atlas_exporter.Exporter.{Desc, Metric, Exporter, gauge}
use atlas_exporter.Float.{Floats, float, positive}

abbrev pub ns : Text
ns = codes "atlas"

abbrev pub sub : Text
sub = codes "ping"

abbrev labels : List Text
labels =
    codes "measurement"
    ∷ codes "probe"
    ∷ codes "dst_addr"
    ∷ codes "dst_name"
    ∷ codes "asn"
    ∷ codes "ip_version"
    ∷ codes "country_code"
    ∷ codes "lat"
    ∷ codes "long"
    ∷ []

abbrev new_desc : String → String → Desc
new_desc name help = record {
  ns = ns;
  sub = sub;
  name = codes name;
  help = codes help;
  labels = labels;
}

abbrev success_desc : Desc
success_desc = new_desc "success" "Destination was reachable"

abbrev min_latency_desc : Desc
min_latency_desc = new_desc "min_latency" "Minimum latency"

abbrev max_latency_desc : Desc
max_latency_desc = new_desc "max_latency" "Maximum latency"

abbrev avg_latency_desc : Desc
avg_latency_desc = new_desc "avg_latency" "Average latency"

abbrev sent_desc : Desc
sent_desc = new_desc "sent" "Number of sent icmp requests"

abbrev rcvd_desc : Desc
rcvd_desc = new_desc "received" "Number of received icmp repsponses"

abbrev dup_desc : Desc
dup_desc = new_desc "dup" "Number of duplicate icmp repsponses"

abbrev ttl_desc : Desc
ttl_desc = new_desc "ttl" "Time-to-live field in the response"

abbrev size_desc : Desc
size_desc = new_desc "size" "Size of ICMP packet"

unfoldable pub describe : List Desc
describe =
    success_desc ∷ min_latency_desc ∷ max_latency_desc ∷ avg_latency_desc ∷ sent_desc ∷ rcvd_desc
    ∷ dup_desc ∷ ttl_desc ∷ size_desc ∷ []

module _ {F : Type 0} ⦃fl : Floats F⦄ where
  unfoldable pub label_values : Text → Result F → Probe F → Outcome (List Text)
  label_values id res p = do
    lat ← latitude p
    long ← longitude p
    done (
        id
        ∷ itoa p.id
        ∷ res.dst_addr
        ∷ res.dst_name
        ∷ itoa (asn_for_ip_version p res.af)
        ∷ itoa res.af
        ∷ p.country_code
        ∷ lat
        ∷ long
        ∷ [])

  unfoldable pub metrics : Result F → List Text → List (Metric F)
  metrics res values =
      (if positive res.min
        then gauge success_desc (float (pos 1)) values
          ∷ gauge min_latency_desc res.min values
          ∷ gauge max_latency_desc res.max values
          ∷ gauge avg_latency_desc res.avg values
          ∷ []
        else gauge success_desc (float (pos 0)) values ∷ [])
      ++ (gauge sent_desc (float res.sent) values
          ∷ gauge rcvd_desc (float res.rcvd) values
          ∷ gauge dup_desc (float res.dup) values
          ∷ gauge ttl_desc (float res.ttl) values
          ∷ gauge size_desc (float res.size) values
          ∷ [])

  unfoldable pub export :
      Text → Text → Result F → Option (Probe F) → Outcome (Text × List (Metric F))
  unfolding label_values metrics
  export id global res probe = do
    p ← deref probe
    values ← label_values id res p
    done (global, metrics res values)

  unfoldable pub exporter : Text → Exporter F
  unfolding export describe
  exporter id = record { export = export id; describe = describe }
