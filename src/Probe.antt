-- ===== src/Probe.antt =====
-- probe/probe.go: a probe, and the labels that are read from it.
pub mod Cache
pub mod Labels
pub mod Request
use atlas_exporter.Prelude.{Option, some, none, List, [], ◌∷◌, if◌then◌else◌}
use atlas_exporter.Prelude.Int.{ℤ, pos}
use atlas_exporter.Prelude.Equality.{◌==◌, int_eq}
use atlas_exporter.Prelude.Outcome.{Outcome, done, panic}
use atlas_exporter.Prelude.Text.{Text}
use atlas_exporter.Float.{Floats}

abbrev pub ipv6 : ℤ
ipv6 = pos 6

pub record Probe (F : Type 0) : Type 0 where
  pub id : ℤ
  pub asn4 : ℤ
  pub asn6 : ℤ
  pub country_code : Text
  pub coordinates : List F

-- json.Unmarshal into a probe: the bytes and the probe as it is before give the probe as it is after, or
-- `none` for an error.
abbrev pub Unmarshal : Type 0 → Type 0
Unmarshal F = Text → Probe F → Option (Probe F)

module _ {F : Type 0} where
  -- `var p Probe`
  abbrev pub zero_probe : Probe F
  zero_probe = record {
    id = pos 0;
    asn4 = pos 0;
    asn6 = pos 0;
    country_code = [];
    coordinates = [];
  }

  unfoldable pub from_json : Unmarshal F → Text → Option (Probe F)
  from_json unmarshal body = elim (unmarshal body zero_probe) [ none ↦ none | some p ↦ some p ]

  unfoldable pub asn_for_ip_version : Probe F → ℤ → ℤ
  asn_for_ip_version p v = if v == ipv6 then p.asn6 else p.asn4

module _ {F : Type 0} ⦃fl : Floats F⦄ where
  -- p.Geometry.Coordinates[0], behind the check that there is one
  unfoldable pub longitude_of : List F → Outcome Text
  longitude_of [] = done []
  longitude_of (x ∷ xs) = done (fl.format_float x)

  -- p.Geometry.Coordinates[1], behind the check that there is one coordinate
  unfoldable pub latitude_of : List F → Outcome Text
  latitude_of [] = done []
  latitude_of (x ∷ []) = panic
  latitude_of (x ∷ y ∷ ys) = done (fl.format_float y)

  unfoldable pub longitude : Probe F → Outcome Text
  unfolding longitude_of
  longitude p = longitude_of p.coordinates

  unfoldable pub latitude : Probe F → Outcome Text
  unfolding latitude_of
  latitude p = latitude_of p.coordinates
