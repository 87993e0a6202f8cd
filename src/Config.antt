-- ===== src/Config.antt =====
-- Package config: the configuration (config/types.go). Durations are nanoseconds, and a nil slice of
-- buckets is `none`.
pub mod Validate
pub mod Accept
pub mod Arrays
pub mod Buckets
pub mod Env
pub mod Load
pub mod Start
use atlas_exporter.Prelude.Int.{ℤ}
use atlas_exporter.Prelude.Text.{Text}
use atlas_exporter.Prelude.{List, Option, Bool, ℕ, ◌∷◌, []}

pub record Web : Type 0 where
  pub listen_address : Text
  pub telemetry_path : Text

pub record CacheTimes : Type 0 where
  pub ttl : ℤ
  pub cleanup : ℤ

pub record Streaming : Type 0 where
  pub enabled : Bool
  pub buffer_size : ℕ

pub record Tls : Type 0 where
  pub enabled : Bool
  pub cert_file : Text
  pub key_file : Text

pub record CollectorFlags : Type 0 where
  pub go_enabled : Bool
  pub process_enabled : Bool

pub record RttHistogramBucket (F : Type 0) : Type 0 where
  pub rtt : Option (List F)

pub record HistogramBuckets (F : Type 0) : Type 0 where
  pub dns : RttHistogramBucket F
  pub http : RttHistogramBucket F
  pub ping : RttHistogramBucket F
  pub traceroute : RttHistogramBucket F

pub record MeasurementConfig : Type 0 where
  pub id : Text

pub record Config (F : Type 0) : Type 0 where
  pub web : Web
  pub cache : CacheTimes
  pub timeout : ℤ
  pub worker_count : ℕ
  pub streaming : Streaming
  pub profiling_enabled : Bool
  pub metrics : CollectorFlags
  pub log_level : Text
  pub tls : Tls
  pub dns_nsid_enabled : Bool
  pub health_max_data_age : ℤ
  pub histogram_buckets : HistogramBuckets F
  pub measurements : List MeasurementConfig
  pub filter_invalid_results : Bool
  pub max_result_age : ℤ

-- The loop that fills `ids`.
ids_of : List MeasurementConfig → List Text
ids_of [] = []
ids_of (m ∷ ms) = m.id ∷ ids_of ms

unfoldable pub measurement_ids : {F : Type 0} → Config F → List Text
unfolding ids_of
measurement_ids c = ids_of c.measurements
