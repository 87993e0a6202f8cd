-- ===== src/Atlas/Metrics.antt =====
-- atlas/metrics.go: the metrics of the exporter itself, and `SetBuildInfo`. What runtime and runtime/debug
-- say of the binary is an argument.
use atlas_exporter.Prelude.Equality.{◌==◌, list_eq, nat_eq}
use atlas_exporter.Prelude.Text.{Text, codes}
use atlas_exporter.Prelude.{List, Option, ◌∷◌, if◌then◌else◌, none, some, ◌&&◌, [], not}

-- The arguments of prometheus.NewGaugeVec and prometheus.NewHistogram; the buckets are prometheus.DefBuckets.
pub record Opts : Type 0 where
  pub name : Text
  pub help : Text
  pub labels : List Text

abbrev pub stream_connected_gauge : Opts
stream_connected_gauge = record {
  name = codes "atlas_exporter_stream_connected";
  help = codes "Whether the websocket stream is connected (1) or not (0) for a measurement";
  labels = codes "measurement_id" ∷ [];
}

abbrev pub last_data_timestamp_gauge : Opts
last_data_timestamp_gauge = record {
  name = codes "atlas_exporter_last_data_timestamp";
  help = codes "Unix timestamp of when data was last received for a measurement";
  labels = codes "measurement_id" ∷ [];
}

abbrev pub build_info_gauge : Opts
build_info_gauge = record {
  name = codes "atlas_exporter_build_info";
  help = codes "Build info. Value is always 1 with labels: version, goversion, vcs_revision";
  labels = codes "version" ∷ codes "goversion" ∷ codes "vcs_revision" ∷ [];
}

abbrev pub scrape_build_duration : Opts
scrape_build_duration = record {
  name = codes "atlas_exporter_scrape_build_duration_seconds";
  help = codes "Time to retrieve measurements and build metrics registry";
  labels = [];
}

-- The first setting of that key with a value.
unfoldable pub find_revision : List (Text × Text) → Text
find_revision [] = codes "unknown"
find_revision ((key, value) ∷ settings) =
    let rest = find_revision settings in
    if key == codes "vcs.revision" && not (value == []) then value else rest

-- The label values of the one gauge that is set to 1; `settings` is `none` if there is no build info.
unfoldable pub set_build_info : Text → Text → Option (List (Text × Text)) → List Text
unfolding find_revision
set_build_info version go_version settings =
    version
    ∷ go_version
    ∷ (elim settings [ none ↦ codes "unknown" | some s ↦ find_revision s ])
    ∷ []
