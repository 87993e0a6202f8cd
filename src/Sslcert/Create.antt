-- ===== src/Sslcert/Create.antt =====
-- Package sslcert (sslcert/sslcert.go): how a measurement is made.
use atlas_exporter.Prelude.Int.{ltb_ℤ, pos}
use atlas_exporter.Prelude.{if◌then◌else◌, ◌∷◌, [], ◌++◌}
use atlas_exporter.Prelude.Text.{Text}
use atlas_exporter.Sslcert.{exporter, Digest}
use atlas_exporter.Config.{Config}
use atlas_exporter.Exporter.{default_is_valid}
use atlas_exporter.Exporter.Measurement.{
  Measurement, new_measurement as make_measurement, with_validator, with_max_result_age,
}
use atlas_exporter.Float.{Floats}

module _ {F : Type 0} ⦃fl : Floats F⦄ where
  unfoldable pub new_measurement : Digest → Text → Config F → Measurement F
  new_measurement digest id cfg = make_measurement (exporter digest id) (
      (if cfg.filter_invalid_results then with_validator default_is_valid ∷ [] else [])
      ++ (if ltb_ℤ (pos 0) cfg.max_result_age
          then with_max_result_age cfg.max_result_age ∷ []
          else []))
