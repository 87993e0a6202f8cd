-- ===== src/Atlas/Types.antt =====
-- atlas/helper.go, `measurementForType`: a measurement for the type of a result. `none` is the error.
pub mod Kept
pub mod Laws
pub mod Series
use atlas_exporter.Prelude.Equality.{◌==◌, list_eq, nat_eq}
use atlas_exporter.Prelude.{Option, if◌then◌else◌, some, none}
use atlas_exporter.Prelude.Text.{Text, codes}
use atlas_exporter.Ping.Create.{new_measurement as ping_measurement}
use atlas_exporter.Traceroute.Create.{new_measurement as traceroute_measurement}
use atlas_exporter.Ntp.Create.{new_measurement as ntp_measurement}
use atlas_exporter.Dns.Create.{new_measurement as dns_measurement}
use atlas_exporter.Http.Create.{new_measurement as http_measurement}
use atlas_exporter.Sslcert.Create.{new_measurement as sslcert_measurement}
use atlas_exporter.Config.{Config}
use atlas_exporter.Exporter.Measurement.{Measurement}
use atlas_exporter.Sslcert.{Digest}
use atlas_exporter.Float.{Floats}

module _ {F : Type 0} ⦃fl : Floats F⦄ where
  unfoldable pub measurement_for_type :
      Digest → Text → Text → Text → Config F → Option (Measurement F)
  measurement_for_type digest t id ip_version cfg =
      if t == codes "ping"
      then some (ping_measurement id ip_version cfg)
      else if t == codes "traceroute"
      then some (traceroute_measurement id ip_version cfg)
      else if t == codes "ntp"
      then some (ntp_measurement id cfg)
      else if t == codes "dns"
      then some (dns_measurement id ip_version cfg)
      else if t == codes "http"
      then some (http_measurement id ip_version cfg)
      else if t == codes "sslcert"
      then some (sslcert_measurement digest id cfg)
      else none
