-- ===== src/Atlas/Types/Laws.antt =====
-- Every measurement that is made starts empty, with an exporter that meets the laws.
use atlas_exporter.Exporter.Measurement.Scrape.{IsServable}
use atlas_exporter.Sslcert.{Digest}
use atlas_exporter.Exporter.Laws.{ExporterLaws}
use atlas_exporter.Prelude.Int.{ℤ, pos}
use atlas_exporter.Config.{Config}
use atlas_exporter.Exporter.{Histogram, ResultValidator, Exporter}
use atlas_exporter.Prelude.Text.{Text}
use atlas_exporter.Prelude.{
  List, Bool, ◌≡◌, [], ◌∷◌, if◌then◌else◌, ◌++◌, Option, some, subst, none, true, false, refl,
}
use atlas_exporter.Atlas.Types.{measurement_for_type}
use atlas_exporter.Ping.Metrics.{exporter-Laws as ping-Laws}
use atlas_exporter.Traceroute.Metrics.{exporter-Laws as traceroute-Laws}
use atlas_exporter.Ntp.Metrics.{exporter-Laws as ntp-Laws}
use atlas_exporter.Dns.Metrics.{exporter-Laws as dns-Laws}
use atlas_exporter.Http.Metrics.{exporter-Laws as http-Laws}
use atlas_exporter.Sslcert.Metrics.{exporter-Laws as sslcert-Laws}
use atlas_exporter.Ping.Create.{new_measurement as ping_measurement}
use atlas_exporter.Traceroute.Create.{new_measurement as traceroute_measurement}
use atlas_exporter.Ntp.Create.{new_measurement as ntp_measurement}
use atlas_exporter.Dns.Create.{new_measurement as dns_measurement}
use atlas_exporter.Http.Create.{new_measurement as http_measurement}
use atlas_exporter.Sslcert.Create.{new_measurement as sslcert_measurement}
use atlas_exporter.Exporter.Measurement.{
  new_measurement, with_histograms, with_validator, with_max_result_age, Measurement,
  MeasurementOpt,
}
use atlas_exporter.Float.{Floats}

module _ {F : Type 0} ⦃fl : Floats F⦄ where
  -- A measurement that has nothing yet, and whose exporter meets the laws.
  abbrev pub IsNew : Measurement F → Type 0
  IsNew r = (r.latest ≡ []) × ExporterLaws r.exporter

  -- The options of `NewMeasurement` leave the maps and the exporter alone.
  abbrev pub opts :
      List (Histogram F) → Bool → Bool → ResultValidator F → ℤ → List (MeasurementOpt F)
  opts hs filter aged v age =
      (with_histograms hs ∷ [])
      ++ ((if filter then with_validator v ∷ [] else [])
          ++ (if aged then with_max_result_age age ∷ [] else []))

  -- A measurement with nothing in its maps.
  abbrev pub blank :
      List (Histogram F) → Exporter F → Option (ResultValidator F) → ℤ → Measurement F
  blank hs e v age = record {
    latest = [];
    probes = [];
    histograms = hs;
    exporter = e;
    validator = v;
    max_result_age = age;
  }

  pub opts-All :
      (P : Measurement F → Type 0) (hs : List (Histogram F)) (filter aged : Bool)
      (v : ResultValidator F) (age : ℤ) (e : Exporter F)
      → ((w : Option (ResultValidator F)) (age' : ℤ) → P (blank hs e w age'))
      → P (new_measurement e (opts hs filter aged v age))
  unfolding new_measurement with_histograms with_validator with_max_result_age
  opts-All P hs true true v age e h = h (some v) age
  opts-All P hs true false v age e h = h (some v) (pos 0)
  opts-All P hs false true v age e h = h none age
  opts-All P hs false false v age e h = h none (pos 0)

  pub bare-All :
      (P : Measurement F → Type 0) (filter aged : Bool) (v : ResultValidator F) (age : ℤ)
      (e : Exporter F)
      → ((w : Option (ResultValidator F)) (age' : ℤ) → P (blank [] e w age'))
      → P (
          new_measurement e (
            (if filter then with_validator v ∷ [] else [])
            ++ (if aged then with_max_result_age age ∷ [] else [])))
  unfolding new_measurement with_validator with_max_result_age
  bare-All P true true v age e h = h (some v) age
  bare-All P true false v age e h = h (some v) (pos 0)
  bare-All P false true v age e h = h none age
  bare-All P false false v age e h = h none (pos 0)

  traceroute-IsNew :
      (id ip_version : Text) (cfg : Config F) → IsNew (traceroute_measurement id ip_version cfg)
  unfolding traceroute_measurement
  traceroute-IsNew id ip_version cfg =
      opts-All IsNew _ cfg.filter_invalid_results _ _ _ _ (λ _ _. (refl, traceroute-Laws id))

  ping-IsNew : (id ip_version : Text) (cfg : Config F) → IsNew (ping_measurement id ip_version cfg)
  unfolding ping_measurement
  ping-IsNew id ip_version cfg =
      opts-All IsNew _ cfg.filter_invalid_results _ _ _ _ (λ _ _. (refl, ping-Laws id))

  dns-IsNew : (id ip_version : Text) (cfg : Config F) → IsNew (dns_measurement id ip_version cfg)
  unfolding dns_measurement
  dns-IsNew id ip_version cfg =
      opts-All IsNew _ cfg.filter_invalid_results _ _ _ _ (λ _ _. (refl, dns-Laws _))

  http-IsNew : (id ip_version : Text) (cfg : Config F) → IsNew (http_measurement id ip_version cfg)
  unfolding http_measurement
  http-IsNew id ip_version cfg =
      opts-All IsNew _ cfg.filter_invalid_results _ _ _ _ (λ _ _. (refl, http-Laws id))

  ntp-IsNew : (id : Text) (cfg : Config F) → IsNew (ntp_measurement id cfg)
  unfolding ntp_measurement
  ntp-IsNew id cfg = bare-All IsNew cfg.filter_invalid_results _ _ _ _ (λ _ _. (refl, ntp-Laws id))

  sslcert-IsNew :
      (digest : Digest) (id : Text) (cfg : Config F) → IsNew (sslcert_measurement digest id cfg)
  unfolding sslcert_measurement
  sslcert-IsNew digest id cfg =
      bare-All IsNew cfg.filter_invalid_results _ _ _ _ (λ _ _. (refl, sslcert-Laws digest id))

  if-All :
      (P : Measurement F → Type 0) (b : Bool) (x : Measurement F) (o : Option (Measurement F))
      (r : Measurement F)
      → P x
      → (o ≡ some r → P r)
      → (if b then some x else o) ≡ some r
      → P r
  if-All P true x o r here rest e = let same : x ≡ r = cc in subst P same here
  if-All P false x o r here rest e = rest e

  -- What holds of a measurement of each type holds of whatever is made.
  pub measurement_for_type-All :
      (P : Measurement F → Type 0) (digest : Digest) (t id ip_version : Text) (cfg : Config F)
      (r : Measurement F)
      → P (ping_measurement id ip_version cfg)
      → P (traceroute_measurement id ip_version cfg)
      → P (ntp_measurement id cfg)
      → P (dns_measurement id ip_version cfg)
      → P (http_measurement id ip_version cfg)
      → P (sslcert_measurement digest id cfg)
      → measurement_for_type digest t id ip_version cfg ≡ some r
      → P r
  unfolding measurement_for_type
  measurement_for_type-All P digest t id ip_version cfg r ping traceroute ntp dns http sslcert =
      if-All P _ _ _ r ping (
        if-All P _ _ _ r traceroute (
          if-All P _ _ _ r ntp
            (if-All P _ _ _ r dns (if-All P _ _ _ r http (if-All P _ _ none r sslcert (λ e. cc))))))

  -- Whenever a measurement is made for the type of a result, it has no result yet, and its exporter
  -- meets the laws of the interface: every metric that it exports is of a described kind with as many
  -- label values as labels, and no readable probe panics.
  pub measurement_for_type-IsNew :
      (digest : Digest) (t id ip_version : Text) (cfg : Config F) (r : Measurement F)
      → measurement_for_type digest t id ip_version cfg ≡ some r
      → IsNew r
  measurement_for_type-IsNew digest t id ip_version cfg r =
      measurement_for_type-All IsNew digest t id ip_version cfg r (ping-IsNew id ip_version cfg)
        (traceroute-IsNew id ip_version cfg) (ntp-IsNew id cfg) (dns-IsNew id ip_version cfg)
        (http-IsNew id ip_version cfg) (sslcert-IsNew digest id cfg)

  -- With no result there is no probe to be read.
  pub new-IsServable : (new : Measurement F) → IsNew new → IsServable new
  new-IsServable new (empty, laws) = (laws, rw empty tt)
