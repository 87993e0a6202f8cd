-- ===== src/Atlas/Types/Kept.antt =====
-- What `Add` keeps of a measurement, whichever strategy calls it.
use atlas_exporter.Probe.Labels.{HasLabels}
use atlas_exporter.Atlas.Lookup.Values.{IsOf}
use atlas_exporter.Prelude.Outcome.{done, >>=-eq-done}
use atlas_exporter.Atlas.Types.{measurement_for_type}
use atlas_exporter.Prelude.{List, ◌≡◌, All, some, subst, ◌∷◌, []}
use atlas_exporter.Probe.{Probe}
use atlas_exporter.Config.{Config}
use atlas_exporter.Exporter.Measurement.Add.{Call, add_all}
use atlas_exporter.Sslcert.{Digest}
use atlas_exporter.Result.{Result}
use atlas_exporter.Exporter.Measurement.{Measurement}
use atlas_exporter.Prelude.Text.{Text}
use atlas_exporter.Float.{Floats}
use atlas_exporter.Exporter.Measurement

-- `P id` is what is kept of the measurement with that id, for probes with their labels and results with `R`.
module _ {F : Type 0} ⦃fl : Floats F⦄ (P : Text → Measurement F → Type 0)
    (R : Result F → Type 0) where
  -- A new measurement has the property, and `Add` keeps it.
  pub record Keeps : Type 0 where
    pub new :
        (digest : Digest) (t id ip_version : Text) (cfg : Config F) (mes : Measurement F)
        → measurement_for_type digest t id ip_version cfg ≡ some mes
        → P id mes
    pub add :
        (id : Text) (mes mes' : Measurement F) (m : Result F) (p : Probe F)
        → IsOf HasLabels m.prb_id p
        → R m
        → P id mes
        → Measurement.add mes m (some p) ≡ done mes'
        → P id mes'

  -- A call with the probe of its result.
  abbrev pub IsGoodCall : Call F → Type 0
  IsGoodCall c = (p : Probe F) × (c.1 ≡ some p) × IsOf HasLabels c.0.prb_id p × R c.0

  pub add_all-kept :
      (id : Text) (calls : List (Call F)) (mes mes' : Measurement F)
      → Keeps
      → All IsGoodCall calls
      → P id mes
      → add_all calls mes ≡ done mes'
      → P id mes'
  unfolding add_all
  add_all-kept id [] mes mes' keeps good h e = let same : mes ≡ mes' = cc in subst (P id) same h
  add_all-kept id (c ∷ rest) mes mes' keeps good h e =
      let (mid, k, l) = >>=-eq-done (Measurement.add mes c.0 c.1) (add_all rest) e in
      let (p, is, own, ok) = good.0 in
      let k' : Measurement.add mes c.0 (some p) ≡ done mid =
        subst (λ o. Measurement.add mes c.0 o ≡ done mid) is k in
      add_all-kept id rest mid mes' keeps good.1 (keeps.add id mes mid c.0 p own ok h k') l
