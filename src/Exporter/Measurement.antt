-- ===== src/Exporter/Measurement.antt =====
-- exporter/measurement.go: the latest result of each probe of one measurement. Methods that change the
-- receiver return the new one; each holds the mutex for as long as it reads or writes the maps.
pub mod Add
pub mod Observe
pub mod Collect
pub mod Scrape
pub mod Series
use atlas_exporter.Prelude.Equality.{int_eq}
use atlas_exporter.Prelude.Text.{Text}
use atlas_exporter.Probe.{Probe}
use atlas_exporter.Result.{Result}
use atlas_exporter.Prelude.Outcome.{done, Outcome, ◌>>=◌}
use atlas_exporter.Prelude.Int.{ℤ, quot_ℕ, pos, ltb_ℤ, ◌-ℤ◌}
use atlas_exporter.Prelude.Dict.{Dict, insert, lookup, values}
use atlas_exporter.Prelude.{
  List, Option, ◌++◌, some, ◌∷◌, [], map, none, true, Bool, ◌&&◌, if◌then◌else◌, false,
}
use atlas_exporter.Exporter.{Exporter, Histogram, HistogramOpts, ResultValidator, Metric, Desc}

pub record Measurement (F : Type 0) : Type 0 where
  pub latest : Dict ℤ (Result F)
  pub probes : Dict ℤ (Option (Probe F))
  pub histograms : List (Histogram F)
  pub exporter : Exporter F
  pub validator : Option (ResultValidator F)
  -- nanoseconds
  pub max_result_age : ℤ

abbrev pub MeasurementOpt : Type 0 → Type 0
MeasurementOpt F = Measurement F → Measurement F

-- What `Collect` sends: the metrics of results, and the histograms.
pub data Sample (F : Type 0) : Type 0 where
  metric : Metric F → Sample F
  histogram : Histogram F → Sample F

-- What `Describe` sends.
pub data Description (F : Type 0) : Type 0 where
  desc : Desc → Description F
  hist_desc : HistogramOpts F → Description F

-- int64(age.Seconds()); the rounding of the float64 in between is left out
abbrev pub whole_seconds : ℤ → ℤ
whole_seconds age = quot_ℕ age 1000000000

module _ {F : Type 0} where
  unfoldable pub with_histograms : List (Histogram F) → MeasurementOpt F
  with_histograms h r = record r { histograms = r.histograms ++ h }

  unfoldable pub with_validator : ResultValidator F → MeasurementOpt F
  with_validator v r = record r { validator = some v }

  unfoldable pub with_max_result_age : ℤ → MeasurementOpt F
  with_max_result_age age r = record r { max_result_age = age }

  unfoldable pub apply_opts : List (MeasurementOpt F) → Measurement F → Measurement F
  apply_opts [] r = r
  apply_opts (opt ∷ opts) r = apply_opts opts (opt r)

  unfoldable pub new_measurement : Exporter F → List (MeasurementOpt F) → Measurement F
  unfolding apply_opts
  new_measurement exporter opts = apply_opts opts (record {
    latest = [];
    probes = [];
    histograms = [];
    exporter = exporter;
    validator = none;
    max_result_age = pos 0;
  })

  unfoldable pub is_valid : Option (ResultValidator F) → ResultValidator F
  is_valid none m probe = done true
  is_valid (some v) m probe = v m probe

  abbrev pub observe : Result F → Histogram F → Histogram F
  observe m h = record h { observed = h.process_result m h.observed }

  unfoldable pub store : Measurement F → Result F → Option (Probe F) → Measurement F
  store r m probe = record r {
    latest = insert m.prb_id m r.latest;
    probes = insert m.prb_id probe r.probes;
    histograms = map (observe m) r.histograms;
  }

  unfoldable pub add : Measurement F → Result F → Option (Probe F) → Outcome (Measurement F)
  unfolding is_valid
  add r m probe = do
    valid ← is_valid r.validator m probe
    done (if valid then store r m probe else r)

  unfoldable pub describe : Measurement F → List (Description F)
  describe r = map desc r.exporter.describe ++ map (λ h. hist_desc h.opts) r.histograms

  -- `v` is skipped at the Unix time `now`
  unfoldable pub is_stale : ℤ → ℤ → Result F → Bool
  is_stale max_result_age now v =
      ltb_ℤ (pos 0) max_result_age && ltb_ℤ v.timestamp (now -ℤ whole_seconds max_result_age)

  -- probes[id], which is nil for a missing key
  unfoldable pub probe_at : ℤ → Dict ℤ (Option (Probe F)) → Option (Probe F)
  probe_at id probes = elim (lookup id probes) [ none ↦ none | some p ↦ p ]

  -- The call of `Export` in the loop, and the rounds after it.
  unfoldable pub export_one :
      Exporter F
      → Dict ℤ (Option (Probe F))
      → Text
      → Result F
      → (Text → Outcome (Text × List (Metric F)))
      → Outcome (Text × List (Metric F))
  export_one exporter probes global v rounds = do
    (global', metrics) ← exporter.export global v (probe_at v.prb_id probes)
    (global'', rest) ← rounds global'
    done (global'', metrics ++ rest)

  -- The loop over the snapshot. `clock v` is the Unix time that is read when `v` is reached.
  unfoldable pub export_results :
      Measurement F → (Result F → ℤ) → List (Result F) → Text → Outcome (Text × List (Metric F))
  export_results r clock [] global = done (global, [])
  export_results r clock (v ∷ vs) global = elim (is_stale r.max_result_age (clock v) v) [
    | true ↦ export_results r clock vs global
    | false ↦ export_one r.exporter r.probes global v (export_results r clock vs)
  ]

  -- `order` is the order in which Go visits the map of the latest results.
  unfoldable pub collect :
      Measurement F
      → (List (Result F) → List (Result F))
      → (Result F → ℤ)
      → Text
      → Outcome (Text × List (Sample F))
  unfolding export_results
  collect r order clock global = do
    (global', metrics) ← export_results r clock (order (values r.latest)) global
    done (global', map metric metrics ++ map histogram r.histograms)
