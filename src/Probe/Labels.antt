-- ===== src/Probe/Labels.antt =====
-- For which probes the coordinate labels can be read.
use atlas_exporter.Prelude.Outcome.{done, panic}
use atlas_exporter.Prelude.Text.{Text}
use atlas_exporter.Float.{Floats}
use atlas_exporter.Prelude.{Option, none, some, length, ◌≢◌, ◌≡◌, List, ◌↔◌, ◌∷◌, arith, [], refl}
use atlas_exporter.Probe.{Probe, latitude, longitude, longitude_of, latitude_of}

module _ {F : Type 0} where
  -- Not nil, and not with exactly one coordinate.
  abbrev pub IsReadable : Option (Probe F) → Type 0
  IsReadable none = ⊥
  IsReadable (some p) = length p.coordinates ≢ 1

module _ {F : Type 0} where
  -- The coordinates can be read.
  abbrev pub HasLabels : Probe F → Type 0
  HasLabels p = length p.coordinates ≢ 1

module _ {F : Type 0} ⦃fl : Floats F⦄ where
  pub longitude_total : (p : Probe F) → (t : Text) × (longitude p ≡ done t)
  unfolding longitude
  longitude_total p = go p.coordinates
    where
      go : (xs : List F) → (t : Text) × (longitude_of xs ≡ done t)
      go [] = ([], refl)
      go (x ∷ xs) = (fl.format_float x, refl)

  pub latitude_total : (p : Probe F) → length p.coordinates ≢ 1 → (t : Text) × (latitude p ≡ done t)
  unfolding latitude
  latitude_total p h = go p.coordinates h
    where
      go : (xs : List F) → length xs ≢ 1 → (t : Text) × (latitude_of xs ≡ done t)
      go [] h = ([], refl)
      go (x ∷ []) h = absurd (h refl)
      go (x ∷ y ∷ ys) h = (fl.format_float y, refl)

  -- `Latitude` panics exactly when a probe has one coordinate.
  pub latitude-panic : (p : Probe F) → (latitude p ≡ panic) ↔ (length p.coordinates ≡ 1)
  unfolding latitude
  latitude-panic p = go p.coordinates
    where
      go : (xs : List F) → (latitude_of xs ≡ panic) ↔ (length xs ≡ 1)
      go [] = ground arith
      go (x ∷ []) = ground arith
      go (x ∷ y ∷ ys) = ground arith
