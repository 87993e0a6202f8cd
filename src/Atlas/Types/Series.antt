-- ===== src/Atlas/Types/Series.antt =====
-- Every measurement that is made has series of its own.
use atlas_exporter.Prelude.Int.{ℤ}
use atlas_exporter.Atlas.Types.{measurement_for_type}
use atlas_exporter.Exporter.Measurement.{Measurement}
use atlas_exporter.Exporter.{Histogram, Exporter, ResultValidator}
use atlas_exporter.Config.{Config}
use atlas_exporter.Prelude.{List, All, ◌≡◌, length, some, ◌≤◌, arith, Option, refl}
use atlas_exporter.Sslcert.{Digest}
use atlas_exporter.Prelude.Text.{Text}
use atlas_exporter.Float.{Floats}
use atlas_exporter.Atlas.Types.Laws.{opts-All, bare-All, blank, measurement_for_type-All}
use atlas_exporter.Exporter.Measurement.Series.{HasSeries}
use atlas_exporter.Exporter.Series.{SeriesLaws}
use atlas_exporter.Ping.Create.{new_measurement as ping_measurement}
use atlas_exporter.Traceroute.Create.{new_measurement as traceroute_measurement}
use atlas_exporter.Ntp.Create.{new_measurement as ntp_measurement}
use atlas_exporter.Dns.Create.{new_measurement as dns_measurement}
use atlas_exporter.Http.Create.{new_measurement as http_measurement}
use atlas_exporter.Sslcert.Create.{new_measurement as sslcert_measurement}
use atlas_exporter.Ping.Series.{exporter-SeriesLaws as ping-SeriesLaws}
use atlas_exporter.Traceroute.Series.{exporter-SeriesLaws as traceroute-SeriesLaws}
use atlas_exporter.Ntp.Series.{exporter-SeriesLaws as ntp-SeriesLaws}
use atlas_exporter.Dns.Series.{exporter-SeriesLaws as dns-SeriesLaws}
use atlas_exporter.Http.Series.{exporter-SeriesLaws as http-SeriesLaws}
use atlas_exporter.Sslcert.Series.{exporter-SeriesLaws as sslcert-SeriesLaws}

module _ {F : Type 0} ⦃fl : Floats F⦄ where
  blank-HasSeries :
      (id : Text) (hs : List (Histogram F)) (e : Exporter F)
      → SeriesLaws id e
      → All (λ (h : Histogram F). h.opts.measurement ≡ id) hs
      → length hs ≤ 1
      → (v : Option (ResultValidator F)) (age : ℤ) → HasSeries id (blank hs e v age)
  blank-HasSeries id hs e laws own one v age = record {
    laws = laws;
    is_map = tt;
    entries = tt;
    own_histograms = own;
    one_histogram = one;
  }

  pub measurement_for_type-HasSeries :
      (digest : Digest) (t id ip_version : Text) (cfg : Config F) (r : Measurement F)
      → measurement_for_type digest t id ip_version cfg ≡ some r
      → HasSeries id r
  unfolding ping_measurement traceroute_measurement ntp_measurement dns_measurement http_measurement
      sslcert_measurement atlas_exporter.Ping.Create.new_rtt_histogram
      atlas_exporter.Traceroute.Create.new_rtt_histogram atlas_exporter.Dns.Create.new_rtt_histogram
      atlas_exporter.Http.Create.new_rtt_histogram
  measurement_for_type-HasSeries digest t id ip_version cfg r =
      measurement_for_type-All (HasSeries id) digest t id ip_version cfg r
        (opts-All (HasSeries id) _ _ _ _ _ _
          (blank-HasSeries id _ _ (ping-SeriesLaws id) (refl, tt) (omega arith)))
        (opts-All (HasSeries id) _ _ _ _ _ _
          (blank-HasSeries id _ _ (traceroute-SeriesLaws id) (refl, tt) (omega arith)))
        (bare-All (HasSeries id) _ _ _ _ _
          (blank-HasSeries id _ _ (ntp-SeriesLaws id) tt (omega arith)))
        (opts-All (HasSeries id) _ _ _ _ _ _
          (blank-HasSeries id _ _ (dns-SeriesLaws _) (refl, tt) (omega arith)))
        (opts-All (HasSeries id) _ _ _ _ _ _
          (blank-HasSeries id _ _ (http-SeriesLaws id) (refl, tt) (omega arith)))
        (bare-All (HasSeries id) _ _ _ _ _
          (blank-HasSeries id _ _ (sslcert-SeriesLaws digest id) tt (omega arith)))
