-- ===== src/Tests/Data.antt =====
-- Data for the tests: numbers in the place of float64, a result, a probe and a
-- configuration.
use atlas_exporter.Config.Buckets.{AtMost}
use atlas_exporter.Exporter.Measurement.Collect.{VisitOrder}
use mathlib.Core.List.Permᴰ
use atlas_exporter.Probe.{Probe}
use atlas_exporter.Result.{Result}
use atlas_exporter.Config.{RttHistogramBucket, Config}
use atlas_exporter.Prelude.Int.{ℤ, ltb_ℤ, pos, ltb_ℤ_iff}
use atlas_exporter.Prelude.Text.{Text, codes, itoa}
use atlas_exporter.Prelude.{none, false, [], ◌∷◌, true, arith}
use atlas_exporter.Float.{Floats}

instance abbrev pub int_floats : Floats ℤ
int_floats = record {
  lt = ltb_ℤ;
  of_int = λ n. n;
  parse_float = λ t. (pos 0, false);
  format_float = itoa;
}

-- A result of the given measurement, probe and time.
abbrev pub result_at : Text → ℤ → ℤ → ℤ → Result ℤ
result_at type msm prb time = record {
  parse_error = none;
  type = type;
  msm_id = msm;
  prb_id = prb;
  timestamp = time;
  af = pos 4;
  dst_addr = codes "192.0.2.1";
  dst_name = codes "example.org";
  proto = codes "UDP";
  uri = codes "http://example.org/";
  ver = codes "TLSv1.2";
  min = pos 10;
  max = pos 30;
  avg = pos 20;
  rt = pos 20;
  sent = pos 3;
  rcvd = pos 3;
  dup = pos 0;
  ttl = pos 55;
  size = pos 64;
  poll = pos 1;
  precision = pos 1;
  root_delay = pos 1;
  root_dispersion = pos 1;
  version = pos 4;
  ping_results = record { rtt = pos 10 } ∷ record { rtt = pos 30 } ∷ [];
  traceroute_results = [];
  http_results = [];
  dns_result = none;
  cert = [];
  sslcert_alert = none;
}

abbrev pub probe_at_zero : ℤ → Probe ℤ
probe_at_zero id = record {
  id = id;
  asn4 = pos 64500;
  asn6 = pos 0;
  country_code = codes "DE";
  coordinates = pos 9 ∷ pos 50 ∷ [];
}

abbrev pub no_buckets : {F : Type 0} → RttHistogramBucket F
no_buckets = record { rtt = none }

-- A configuration with the given telemetry path and maximal age of the data.
abbrev pub config_with : {F : Type 0} → Text → ℤ → Config F
config_with path age = record {
  web = record { listen_address = codes ":9400"; telemetry_path = path };
  cache = record { ttl = pos 3600; cleanup = pos 300 };
  timeout = pos 60;
  worker_count = 8;
  streaming = record { enabled = true; buffer_size = 100 };
  profiling_enabled = false;
  metrics = record { go_enabled = true; process_enabled = true };
  log_level = codes "info";
  tls = record { enabled = false; cert_file = []; key_file = [] };
  dns_nsid_enabled = true;
  health_max_data_age = age;
  histogram_buckets = record {
    dns = no_buckets;
    http = no_buckets;
    ping = no_buckets;
    traceroute = no_buckets;
  };
  measurements = record { id = codes "1001" } ∷ [];
  filter_invalid_results = true;
  max_result_age = pos 0;
}

-- The visit in the order of the list.
abbrev pub in_order : {A : Type 0} → VisitOrder A
in_order = record { visit = λ xs. xs; visit-perm = λ xs. Permᴰ.refl xs }

pub AtMost-trans : (x y z : ℤ) → AtMost x y → AtMost y z → AtMost x z
AtMost-trans x y z h k = ground (arith, ltb_ℤ_iff y x, ltb_ℤ_iff z y, ltb_ℤ_iff z x)
