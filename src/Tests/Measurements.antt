-- ===== src/Tests/Measurements.antt =====
-- Measurements, the streaming strategy, the probe cache and the lookup of probes.
use atlas_exporter.Atlas.Stream.Isolation.{results_of, add_stream, add_stream-add_all}
use atlas_exporter.Probe.{latitude, longitude}
use atlas_exporter.Exporter.Measurement.Scrape.{collect-add_all}
use atlas_exporter.Exporter.Laws.{IsWellFormed}
use atlas_exporter.Prelude.Equality.{◌==◌, int_eq, list_eq, nat_eq}
use atlas_exporter.Sslcert.Fingerprint.{HasFingerprint, fingerprint_leaks}
use atlas_exporter.Prelude.Dict.{values, insert, lookup}
use atlas_exporter.Exporter.Measurement.Observe.{observe_all}
use atlas_exporter.Atlas.Types.Laws.{IsNew, measurement_for_type-IsNew}
use atlas_exporter.Exporter.{Metric}
use atlas_exporter.Prelude.Outcome.{done, Outcome, panic}
use atlas_exporter.Result.{Result}
use atlas_exporter.Atlas.Stream.Processor.{
  process_measurement_results, processed-after, after, panics, readies,
}
use atlas_exporter.Prelude.Int.{ℤ, pos}
use atlas_exporter.Atlas.Stream.{new_strategy, Strategy}
use atlas_exporter.Atlas.Types.{measurement_for_type}
use atlas_exporter.Sslcert.{Digest}
use atlas_exporter.Prelude.Text.{Text, codes, itoa}
use atlas_exporter.Exporter.Measurement.Collect.{Young, export_results-Young}
use mathlib.Core.List.{Sublistᴰ}
use atlas_exporter.Exporter.Measurement.Add.{
  add_all, entry, Call, or_else, newest, entry-add_all, passes,
}
use atlas_exporter.Prelude.{
  List, ◌≡◌, ℕ, [], map, false, All, ◌∷◌, some, true, if◌then◌else◌, suc, refl, none, ◌++◌, ◌≢◌,
  arith, length, Bool, ◌≤◌, ◌+◌,
}
use atlas_exporter.Exporter.Measurement.{
  Measurement, export_results, collect, metric, histogram, store,
}
use atlas_exporter.Ping.{exporter}
use atlas_exporter.Ping.Metrics.{exporter-Laws}
use atlas_exporter.Sslcert.{export}
use atlas_exporter.Sslcert.{label_values}
use atlas_exporter.Exporter.Measurement
use atlas_exporter.Tests.Data.{int_floats, config_with, result_at, probe_at_zero, in_order}

abbrev empty : Measurement ℤ
empty = record {
  latest = [];
  probes = [];
  histograms =
      record {
        opts = record {
          ns = codes "atlas";
          sub = codes "ping";
          name = codes "rtt";
          buckets = [];
          measurement = codes "1001";
          ip_version = codes "4";
        };
        process_result = λ r seen. r.min ∷ seen;
        observed = [];
      }
      ∷ [];
  exporter = exporter (codes "1001");
  validator = none;
  max_result_age = pos 0;
}

abbrev calls : List (Call ℤ)
calls =
    (result_at (codes "ping") (pos 1001) (pos 7) (pos 100), some (probe_at_zero (pos 7)))
    ∷ (result_at (codes "ping") (pos 1001) (pos 7) (pos 200), some (probe_at_zero (pos 7)))
    ∷ []

-- The state after the two calls: the second result has replaced the first.
abbrev filled : Measurement ℤ
filled = record empty {
  latest = (pos 7, result_at (codes "ping") (pos 1001) (pos 7) (pos 200)) ∷ [];
  probes = (pos 7, some (probe_at_zero (pos 7))) ∷ [];
  histograms = map (observe_all none calls) empty.histograms;
}

filled-added : add_all calls empty ≡ done filled
unfolding add_all Measurement.add store insert observe_all passes
filled-added = refl

entry-add_all_example :
    entry (pos 7) filled ≡ or_else (newest none (pos 7) calls) (entry (pos 7) empty)
entry-add_all_example = entry-add_all calls empty filled (pos 7) filled-added

two_not_one : length (pos 9 ∷ pos 50 ∷ []) ≢ 1
two_not_one h = omega arith

collect-add_all_example :
    (global' : Text) × (ms : List (Metric ℤ)) × (collect filled (λ xs. xs) (λ _. pos 300) []
      ≡ done (global', map metric ms ++ map histogram filled.histograms))
    × All (IsWellFormed filled.exporter.describe) ms
collect-add_all_example =
    collect-add_all empty filled calls in_order (λ _. pos 300) [] (exporter-Laws (codes "1001")) tt
      (two_not_one, (two_not_one, tt)) filled-added

export_results-Young_example :
    (ws : List (Result ℤ)) × Young (pos 60000000000) (λ _. pos 300) (values filled.latest) ws
    × ((global : Text)
        → export_results
            (record filled { max_result_age = pos 60000000000 })
            (λ _. pos 300)
            (values filled.latest)
            global
          ≡ export_results (record filled { max_result_age = pos 0 }) (λ _. pos 300) ws global)
export_results-Young_example =
    export_results-Young (record filled { max_result_age = pos 60000000000 }) (λ _. pos 300)
      (values filled.latest)

abbrev digest : Digest
digest certificate = some certificate

made : Measurement ℤ
unfolding measurement_for_type
made =
    elim (measurement_for_type digest (codes "ntp") (codes "1001") (codes "4")
      (config_with (codes "/metrics") (pos 0))) [ some r ↦ r | none ↦ empty ]

measurement_for_type-IsNew_example : IsNew made
unfolding made measurement_for_type
measurement_for_type-IsNew_example =
    measurement_for_type-IsNew digest (codes "ntp") (codes "1001") (codes "4")
      (config_with (codes "/metrics") (pos 0)) made refl

-- A handler that panics at the results of probe 13, and counts the others.
abbrev counts : ℕ → Result ℤ → ℕ × Outcome (Unit {0})
counts n r = if r.prb_id == pos 13 then (n, panic) else (suc n, done tt)

abbrev from_probe : ℤ → Result ℤ
from_probe id = result_at (codes "ping") (pos 1001) id (pos 100)

-- Probe 8 comes behind a panic, and is in the channel already.
abbrev in_channel : List (Result ℤ × Bool)
in_channel =
    (from_probe (pos 13), true) ∷ (from_probe (pos 8), true) ∷ (from_probe (pos 7), true) ∷ []

processed-after_example :
    (ws : List (Result ℤ)) × Sublistᴰ ws (map (λ r. r.0) in_channel)
    × (process_measurement_results counts false in_channel 0 ≡ after counts ws 0)
    × (length in_channel ≤ length ws + panics counts ws 0)
    × (length in_channel ≤ length ws + readies counts in_channel)
processed-after_example = processed-after counts in_channel 0

abbrev bare : Result ℤ
bare = result_at (codes "sslcert") (pos 1005) (pos 7) (pos 100)

-- What is exported of that result, the fingerprint of another certificate being set.
sent : Text × List (Metric ℤ)
unfolding export
sent = elim (export digest (codes "1005") (codes "ab") bare (some (probe_at_zero (pos 7)))) [
  | done r ↦ r
  | panic ↦ ([], [])
]

fingerprint_leaks_example : (sent.0 ≡ codes "ab") × All (HasFingerprint (codes "ab")) sent.1
unfolding sent export label_values latitude longitude
fingerprint_leaks_example =
    fingerprint_leaks digest (codes "1005") (codes "ab") bare (probe_at_zero (pos 7)) sent refl refl

-- Between the two results of measurement 1001 stands one of another measurement.
abbrev mixed : List (Call ℤ)
mixed =
    (result_at (codes "ping") (pos 1001) (pos 7) (pos 100), some (probe_at_zero (pos 7)))
    ∷ (result_at (codes "ntp") (pos 1002) (pos 7) (pos 150), some (probe_at_zero (pos 7)))
    ∷ (result_at (codes "ping") (pos 1001) (pos 7) (pos 200), some (probe_at_zero (pos 7)))
    ∷ []

abbrev streaming : Strategy ℤ
streaming = record (new_strategy (config_with (codes "/metrics") (pos 60))) {
  measurements = (codes "1001", empty) ∷ [];
}

only_own : results_of (codes "1001") mixed ≡ calls
unfolding results_of itoa
only_own = refl

add_stream-add_all_example :
    lookup (codes "1001") (add_stream digest mixed streaming).measurements ≡ some filled
unfolding lookup results_of itoa
add_stream-add_all_example =
    add_stream-add_all digest mixed streaming (codes "1001") empty filled refl filled-added
