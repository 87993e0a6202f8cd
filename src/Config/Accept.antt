-- ===== src/Config/Accept.antt =====
-- Which configurations `Validate` accepts, and what it reports of the others.
use atlas_exporter.Prelude.Int.{pos, ◌≤ℤ◌}
use atlas_exporter.Prelude.Equality.{◌==◌, list_eq, nat_eq, eqb_list_iff}
use atlas_exporter.Prelude.Text.{Text, has_prefix, codes}
use atlas_exporter.Prelude.{
  Option, ◌≡◌, List, ◌∷◌, none, All, true, [], ◌↔◌, ◌≢◌, ◌||◌, not, false, arith,
}
use atlas_exporter.Config.{Config, HistogramBuckets, Web, Tls}
use atlas_exporter.Config.Validate.{
  validate, values_of, path_bad, tls_incomplete, has_negative_duration, buckets_ok,
}
use atlas_exporter.Config.Buckets.{
  Comparable, NonNegative, NonDecreasing, is_non_decreasing_non_negative_iff,
}
use atlas_exporter.Float.{Floats}

-- The path begins with a slash.
abbrev pub PathOk : Web → Type 0
PathOk w = (rest : Text) × (w.telemetry_path ≡ b'/' ∷ rest)

abbrev pub TlsOk : Tls → Type 0
TlsOk t = t.enabled ≡ true → (t.cert_file ≢ []) × (t.key_file ≢ [])

pub record DurationsOk {F : Type 0} (c : Config F) : Type 0 where
  pub ttl : pos 0 ≤ℤ c.cache.ttl
  pub cleanup : pos 0 ≤ℤ c.cache.cleanup
  pub timeout : pos 0 ≤ℤ c.timeout
  pub result_age : pos 0 ≤ℤ c.max_result_age
  pub data_age : pos 0 ≤ℤ c.health_max_data_age

path_bad_iff : (w : Web) → (path_bad w ≡ false) ↔ PathOk w
unfolding path_bad
path_bad_iff w = (λ h. go w.telemetry_path h, λ h. rw h.1)
  where
    go :
        (t : Text)
        → (t == [] || not (has_prefix t (codes "/"))) ≡ false
        → (rest : Text) × (t ≡ b'/' ∷ rest)
    go [] h = cc
    go (x ∷ xs) h = (xs, ground arith)

tls_incomplete_iff : (t : Tls) → (tls_incomplete t ≡ false) ↔ TlsOk t
unfolding tls_incomplete
tls_incomplete_iff t = ground (arith, eqb_list_iff t.cert_file [], eqb_list_iff t.key_file [])

durations_iff : {F : Type 0} (c : Config F) → (has_negative_duration c ≡ false) ↔ DurationsOk c
unfolding has_negative_duration
durations_iff c = (λ h. ground arith, λ h. ground arith)

module _ {F : Type 0} ⦃fl : Floats F⦄ where
  abbrev pub BucketsOk : Option (List F) → Type 0
  BucketsOk b = All NonNegative (values_of b) × NonDecreasing (values_of b)

  -- The conditions that a configuration has to meet.
  pub record IsValid (c : Config F) : Type 0 where
    pub path : PathOk c.web
    pub tls : TlsOk c.tls
    pub dns : BucketsOk c.histogram_buckets.dns.rtt
    pub http : BucketsOk c.histogram_buckets.http.rtt
    pub ping : BucketsOk c.histogram_buckets.ping.rtt
    pub traceroute : BucketsOk c.histogram_buckets.traceroute.rtt
    pub durations : DurationsOk c

  -- `<` compares the values of each of the four lists.
  abbrev pub AllComparable : HistogramBuckets F → Type 0
  AllComparable b =
      Comparable (values_of b.dns.rtt)
      × Comparable (values_of b.http.rtt)
      × Comparable (values_of b.ping.rtt)
      × Comparable (values_of b.traceroute.rtt)

  buckets_ok_iff :
      (b : HistogramBuckets F)
      → AllComparable b
      → (buckets_ok b ≡ true) ↔ (
          BucketsOk b.dns.rtt
          × BucketsOk b.http.rtt
          × BucketsOk b.ping.rtt
          × BucketsOk b.traceroute.rtt)
  unfolding buckets_ok
  buckets_ok_iff b trans = ground (
    arith,
    is_non_decreasing_non_negative_iff (values_of b.dns.rtt) trans.0,
    is_non_decreasing_non_negative_iff (values_of b.http.rtt) trans.1,
    is_non_decreasing_non_negative_iff (values_of b.ping.rtt) trans.2,
    is_non_decreasing_non_negative_iff (values_of b.traceroute.rtt) trans.3,
  )

  -- No duration of an accepted configuration is negative.
  pub validate-DurationsOk : (c : Config F) → validate c ≡ none → DurationsOk c
  unfolding validate
  validate-DurationsOk c h = (durations_iff c).0 (ground (arith, h))

  -- For a configuration in each of whose four lists of buckets `<` compares the values (of three values
  -- there, the first is at most the third if it is at most the second and that at most the third), as it
  -- does where none is a NaN, `Validate` returns no error exactly if the telemetry path begins with a
  -- slash, both files are named if TLS is enabled, the buckets are non-negative and non-decreasing, and
  -- no duration is negative.
  pub validate_iff :
      (c : Config F) → AllComparable c.histogram_buckets → (validate c ≡ none) ↔ IsValid c
  unfolding validate
  validate_iff c trans = ground (
    arith,
    path_bad_iff c.web,
    tls_incomplete_iff c.tls,
    buckets_ok_iff c.histogram_buckets trans,
    durations_iff c,
  )
