-- ===== src/Exporter.antt =====
-- Package exporter: the interfaces between a measurement and the code for its type, and what crosses
-- them (exporter/exporter.go, histogram.go, result_validator.go, default_validator.go).
pub mod Labelled
pub mod Laws
pub mod Measurement
pub mod Series
use atlas_exporter.Prelude.{List, Option, Bool}
use atlas_exporter.Prelude.Int.{ℤ, pos, ltb_ℤ}
use atlas_exporter.Prelude.Outcome.{Outcome, done, deref, ◌>>=◌}
use atlas_exporter.Prelude.Text.{Text}
use atlas_exporter.Probe.{Probe, asn_for_ip_version}
use atlas_exporter.Result.{Result}

-- The arguments of prometheus.NewDesc and prometheus.BuildFQName; there are no constant labels.
pub record Desc : Type 0 where
  pub ns : Text
  pub sub : Text
  pub name : Text
  pub help : Text
  pub labels : List Text

-- The arguments of prometheus.MustNewConstMetric; the value type is always GaugeValue.
pub record Metric (F : Type 0) : Type 0 where
  pub desc : Desc
  pub value : F
  pub label_values : List Text

-- `export` has what it sends to the channel for its result. Its text argument and result are the
-- package variable `certFingerprint` of package sslcert, the one piece of global state that an
-- exporter has. A nil probe is `none`.
pub record Exporter (F : Type 0) : Type 0 where
  pub export : Text → Result F → Option (Probe F) → Outcome (Text × List (Metric F))
  pub describe : List Desc

-- The arguments of prometheus.NewHistogram that differ between histograms.
pub record HistogramOpts (F : Type 0) : Type 0 where
  pub ns : Text
  pub sub : Text
  pub name : Text
  pub buckets : List F
  pub measurement : Text
  pub ip_version : Text

-- A histogram: how it was made, the calls of `Observe` so far, and what `ProcessResult` observes.
pub record Histogram (F : Type 0) : Type 0 where
  pub opts : HistogramOpts F
  pub process_result : Result F → List F → List F
  pub observed : List F

abbrev pub ResultValidator : Type 0 → Type 0
ResultValidator F = Result F → Option (Probe F) → Outcome Bool

module _ {F : Type 0} where
  unfoldable pub default_is_valid : ResultValidator F
  default_is_valid res probe = do
    p ← deref probe
    done (ltb_ℤ (pos 0) (asn_for_ip_version p res.af))

  abbrev pub gauge : Desc → F → List Text → Metric F
  gauge desc value label_values = record { desc = desc; value = value; label_values = label_values }
