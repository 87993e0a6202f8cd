-- ===== src/Config/Validate.antt =====
-- config/loader.go, `Validate` and `isNonDecreasingNonNegative`.
use atlas_exporter.Prelude.Text.{has_prefix, codes}
use atlas_exporter.Prelude.Equality.{◌==◌, list_eq, nat_eq}
use atlas_exporter.Prelude.Int.{ℤ, ltb_ℤ, pos}
use atlas_exporter.Prelude.{
  List, Option, Bool, true, [], ◌&&◌, if◌then◌else◌, ◌∷◌, some, false, ◌||◌, none, not,
}
use atlas_exporter.Config.{Config, HistogramBuckets, Web, Tls}
use atlas_exporter.Float.{Floats, float, less}

pub data ValidationError : Type 0 where
  bad_telemetry_path tls_files_missing bad_buckets negative_duration : ValidationError

-- strings.HasPrefix(path, "/"), and the path is not empty.
unfoldable pub path_bad : Web → Bool
path_bad w = w.telemetry_path == [] || not (has_prefix w.telemetry_path (codes "/"))

unfoldable pub tls_incomplete : Tls → Bool
tls_incomplete t = t.enabled && (t.cert_file == [] || t.key_file == [])

abbrev pub is_negative : ℤ → Bool
is_negative d = ltb_ℤ d (pos 0)

unfoldable pub has_negative_duration : {F : Type 0} → Config F → Bool
has_negative_duration c =
    is_negative c.cache.ttl
    || is_negative c.cache.cleanup
    || is_negative c.timeout
    || is_negative c.max_result_age
    || is_negative c.health_max_data_age

module _ {F : Type 0} ⦃fl : Floats F⦄ where
  -- The loop after the first value, whose `prev` is the value before.
  unfoldable pub rest_ok : F → List F → Bool
  rest_ok prev [] = true
  rest_ok prev (v ∷ vs) =
      let rest = rest_ok v vs in
      if less v (float (pos 0)) then false else if less v prev then false else rest

  -- At the first value `i > 0` is false.
  unfoldable pub is_non_decreasing_non_negative : List F → Bool
  unfolding rest_ok
  is_non_decreasing_non_negative [] = true
  is_non_decreasing_non_negative (v ∷ vs) = if less v (float (pos 0)) then false else rest_ok v vs

  -- A nil slice has no value to look at.
  abbrev pub values_of : Option (List F) → List F
  values_of none = []
  values_of (some vs) = vs

  -- The loop over the map literal. Its order is unspecified; it decides only which name an error
  -- has, which the model leaves out.
  unfoldable pub buckets_ok : HistogramBuckets F → Bool
  unfolding is_non_decreasing_non_negative
  buckets_ok b =
      is_non_decreasing_non_negative (values_of b.dns.rtt)
      && is_non_decreasing_non_negative (values_of b.http.rtt)
      && is_non_decreasing_non_negative (values_of b.ping.rtt)
      && is_non_decreasing_non_negative (values_of b.traceroute.rtt)

  -- `none` is the nil error.
  unfoldable pub validate : Config F → Option ValidationError
  validate c =
      if path_bad c.web
      then some bad_telemetry_path
      else if tls_incomplete c.tls
      then some tls_files_missing
      else if not (buckets_ok c.histogram_buckets)
      then some bad_buckets
      else if has_negative_duration c
      then some negative_duration
      else none
