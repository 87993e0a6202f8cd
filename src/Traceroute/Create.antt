-- ===== src/Traceroute/Create.antt =====
-- Package traceroute (traceroute/traceroute.go, traceroute/rtt_histogram.go): how a measurement is made, and what its histogram observes.
use atlas_exporter.Prelude.Equality.{◌==◌, int_eq}
use atlas_exporter.Prelude.Int.{pos, ltb_ℤ}
use atlas_exporter.Prelude.Text.{Text, codes}
use atlas_exporter.Prelude.{List, Option, ◌∷◌, if◌then◌else◌, [], ◌++◌, none, ◌&&◌, some}
use atlas_exporter.Result.{Result}
use atlas_exporter.Traceroute.{exporter, ns, sub, process_last_hop, traceroute_is_valid}
use atlas_exporter.Config.{Config}
use atlas_exporter.Exporter.{Histogram}
use atlas_exporter.Exporter.Measurement.{
  Measurement, new_measurement as make_measurement, with_histograms, with_validator,
  with_max_result_age,
}
use atlas_exporter.Float.{Floats, float, positive}

module _ {F : Type 0} ⦃fl : Floats F⦄ where
  unfoldable pub process_result : Result F → List F → List F
  process_result r observed =
      let (success, rtt) = process_last_hop r in
      if success == pos 1 && positive rtt then observed ++ rtt ∷ [] else observed

  abbrev pub default_buckets : List F
  default_buckets = float (pos 10) ∷ float (pos 20) ∷ float (pos 50) ∷ float (pos 100) ∷ []

  unfoldable pub new_rtt_histogram : Text → Text → Option (List F) → Histogram F
  new_rtt_histogram id ip_version buckets = record {
    opts = record {
      ns = ns;
      sub = sub;
      name = codes "rtt_hist";
      buckets = elim buckets [ none ↦ default_buckets | some b ↦ b ];
      measurement = id;
      ip_version = ip_version;
    };
    process_result = process_result;
    observed = [];
  }

  unfoldable pub new_measurement : Text → Text → Config F → Measurement F
  new_measurement id ip_version cfg = make_measurement (exporter id) (
      (with_histograms (new_rtt_histogram id ip_version cfg.histogram_buckets.traceroute.rtt ∷ [])
        ∷ [])
      ++ ((if cfg.filter_invalid_results then with_validator traceroute_is_valid ∷ [] else [])
          ++ (if ltb_ℤ (pos 0) cfg.max_result_age
              then with_max_result_age cfg.max_result_age ∷ []
              else [])))
