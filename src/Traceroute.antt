-- ===== src/Traceroute.antt =====
-- Package traceroute (traceroute/exporter.go): what is exported of a traceroute result.
pub mod Metrics
pub mod Series
pub mod LastHop
pub mod Create
use atlas_exporter.Prelude.Equality.{◌==◌, list_eq, nat_eq}
use atlas_exporter.Prelude.Outcome.{◌>>=◌, Outcome, deref, done}
use atlas_exporter.Probe.{Probe, latitude, longitude, asn_for_ip_version}
use atlas_exporter.Prelude.Int.{ℤ, pos, ltb_ℤ}
use atlas_exporter.Result.{Result, Reply}
use atlas_exporter.Prelude.{
  List, String, ◌∷◌, Option, [], none, if◌then◌else◌, length, some, ◌&&◌, ltb,
}
use atlas_exporter.Prelude.Text.{Text, codes, itoa}
use atlas_exporter.Exporter.{Desc, Metric, Exporter, gauge, ResultValidator}
use atlas_exporter.Float.{Floats, float, positive}

abbrev pub ns : Text
ns = codes "atlas"

abbrev pub sub : Text
sub = codes "traceroute"

abbrev labels : List Text
labels =
    codes "measurement"
    ∷ codes "probe"
    ∷ codes "dst_addr"
    ∷ codes "dst_name"
    ∷ codes "asn"
    ∷ codes "ip_version"
    ∷ codes "protocol"
    ∷ codes "country_code"
    ∷ codes "lat"
    ∷ codes "long"
    ∷ []

abbrev new_desc : String → String → Desc
new_desc name help = record {
  ns = ns;
  sub = sub;
  name = codes name;
  help = codes help;
  labels = labels;
}

abbrev success_desc : Desc
success_desc = new_desc "success" "Destination was reachable"

abbrev hop_desc : Desc
hop_desc = new_desc "hops" "Number of hops"

abbrev rtt_desc : Desc
rtt_desc = new_desc "rtt" "Round trip time in ms"

unfoldable pub describe : List Desc
describe = success_desc ∷ hop_desc ∷ rtt_desc ∷ []

-- A pointer to the last element, for a slice that is not empty.
unfoldable pub last {ℓ} : {A : Type ℓ} → List A → Option A
last [] = none
last (x ∷ []) = some x
last (x ∷ y ∷ ys) = last (y ∷ ys)

module _ {F : Type 0} ⦃fl : Floats F⦄ where
  -- The loop of `processLastHop` over the replies; `repl` has them all. `success` is 0 or 1, and is a
  -- float64 only in the source.
  unfoldable pub hop_loop : Text → List (Reply F) → List (Reply F) → ℤ → F → ℤ × F
  hop_loop dst_addr repl [] success rtt = (success, rtt)
  hop_loop dst_addr repl (rep ∷ reps) success rtt =
      hop_loop dst_addr repl reps (if rep.from == dst_addr then pos 1 else success)
        (elim (last repl) [ none ↦ rtt | some l ↦ l.rtt ])

  unfoldable pub process_last_hop : Result F → ℤ × F
  unfolding last hop_loop
  process_last_hop r = elim (last r.traceroute_results) [
    | none ↦ (pos 0, float (pos 0))
    | some hop ↦ hop_loop r.dst_addr hop.replies hop.replies (pos 0) (float (pos 0))
  ]

  unfoldable pub label_values : Text → Result F → Probe F → Outcome (List Text)
  label_values id res p = do
    lat ← latitude p
    long ← longitude p
    done (
        id
        ∷ itoa p.id
        ∷ res.dst_addr
        ∷ res.dst_name
        ∷ itoa (asn_for_ip_version p res.af)
        ∷ itoa res.af
        ∷ res.proto
        ∷ p.country_code
        ∷ lat
        ∷ long
        ∷ [])

  unfoldable pub metrics : Result F → List Text → List (Metric F)
  metrics res values =
      let (success, rtt) = process_last_hop res in
      let hops = float (pos (length res.traceroute_results)) in
      gauge success_desc (float success) values
      ∷ gauge hop_desc hops values
      ∷ (if positive rtt then gauge rtt_desc rtt values ∷ [] else [])

  unfoldable pub export :
      Text → Text → Result F → Option (Probe F) → Outcome (Text × List (Metric F))
  export id global res probe = do
    p ← deref probe
    values ← label_values id res p
    done (global, metrics res values)

  unfoldable pub exporter : Text → Exporter F
  unfolding export describe
  exporter id = record { export = export id; describe = describe }

  -- result_validator.go, `IsValid`
  unfoldable pub traceroute_is_valid : ResultValidator F
  traceroute_is_valid res probe = do
    p ← deref probe
    done (ltb_ℤ (pos 0) (asn_for_ip_version p res.af) && ltb 1 (length res.traceroute_results))
