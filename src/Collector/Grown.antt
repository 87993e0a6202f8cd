-- ===== src/Collector/Grown.antt =====
-- Measurements as a scrape finds them: made for a type, and grown by calls of `Add`.
use atlas_exporter.Exporter.Series.{hist_name}
use atlas_exporter.Atlas.Types.{measurement_for_type}
use atlas_exporter.Prelude.Outcome.{done, >>=-eq-done}
use atlas_exporter.Exporter.Laws.{In}
use atlas_exporter.Config.{Config}
use atlas_exporter.Probe.{Probe}
use atlas_exporter.Prelude.Text.{Text}
use atlas_exporter.Collector.Registration.{IsListed, measurement_for_type-IsListed, hist_names}
use atlas_exporter.Sslcert.{Digest}
use atlas_exporter.Exporter.{Histogram}
use atlas_exporter.Prelude.{
  List, Bool, Option, All, ◌≡◌, if◌then◌else◌, subst, some, true, ◌∷◌, false, map, sym, [],
}
use atlas_exporter.Float.{Floats}
use atlas_exporter.Exporter.Measurement.Add.{add_all, Call, add-eq-done, passes}
use atlas_exporter.Exporter.Measurement.{store, Measurement, observe}
use atlas_exporter.Result.{Result}
use atlas_exporter.Exporter.Measurement

module _ {F : Type 0} where
  observed-named :
      (m : Result F) (hs : List (Histogram F))
      → All (λ h. In (hist_name h) hist_names) hs
      → All (λ h. In (hist_name h) hist_names) (map (observe m) hs)
  observed-named m [] h = tt
  observed-named m (x ∷ hs) h = (h.0, observed-named m hs h.1)

  if-IsListed :
      (b : Bool) (m : Result F) (p : Option (Probe F)) (r : Measurement F)
      → IsListed r
      → IsListed (if b then store r m p else r)
  unfolding store
  if-IsListed true m p r h = (h.0, observed-named m r.histograms h.1)
  if-IsListed false m p r h = h

  add_all-IsListed :
      (calls : List (Call F)) (r r' : Measurement F)
      → add_all calls r ≡ done r'
      → IsListed r
      → IsListed r'
  unfolding add_all
  add_all-IsListed [] r r' e h = let same : r ≡ r' = cc in subst IsListed same h
  add_all-IsListed (c ∷ rest) r r' e h =
      let (r₁, k, l) = >>=-eq-done (Measurement.add r c.0 c.1) (add_all rest) e in
      add_all-IsListed rest r₁ r' l (
        subst IsListed (sym (add-eq-done r r₁ c k))
          (if-IsListed (passes r.validator c) c.0 c.1 r h))

module _ {F : Type 0} ⦃fl : Floats F⦄ where
  -- A measurement that was made for a type of results, and then got results and probes.
  pub record IsGrown (m : Measurement F) : Type 0 where
    pub digest : Digest
    pub type : Text
    pub id : Text
    pub ip_version : Text
    pub cfg : Config F
    pub made : Measurement F
    pub calls : List (Call F)
    pub is_made : measurement_for_type digest type id ip_version cfg ≡ some made
    pub is_grown : add_all calls made ≡ done m

  pub IsGrown-IsListed : (m : Measurement F) → IsGrown m → IsListed m
  IsGrown-IsListed m g =
      add_all-IsListed g.calls g.made m g.is_grown
        (measurement_for_type-IsListed g.digest g.type g.id g.ip_version g.cfg g.made g.is_made)
