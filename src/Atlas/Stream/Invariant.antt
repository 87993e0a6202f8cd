-- ===== src/Atlas/Stream/Invariant.antt =====
-- What `Add` keeps of a measurement is kept of all measurements of the streaming strategy.
use atlas_exporter.Probe.Cache.{Cache}
use atlas_exporter.Prelude.Equality.{list_eq, nat_eq, ◌==◌, eqb_list_iff}
use atlas_exporter.Prelude.Int.{ℤ}
use atlas_exporter.Prelude.Outcome.{Outcome-cases, Outcome}
use atlas_exporter.Probe.Labels.{HasLabels}
use atlas_exporter.Atlas.Lookup.{Fetch, probe_for_id}
use atlas_exporter.Probe.{Probe}
use atlas_exporter.Atlas.Lookup.Values.{Caches, IsOf, Fetches, Finds, probe_for_id-Finds}
use atlas_exporter.Prelude.Dict.{lookup, lookup-insert, insert}
use atlas_exporter.Prelude.{
  ◌∷◌, [], Option, ◌≡◌, some, sym, if◌then◌else◌, Option-cases, ◌∙◌, inl, Bool, Bool-cases, inr,
  List, subst, All, none, refl, ◌&&◌, false,
}
use atlas_exporter.Sslcert.{Digest}
use atlas_exporter.Atlas.Stream.{
  Strategy, World, put, add_to, measurement_for, add, add_found, process_measurement_result,
}
use atlas_exporter.Result.{Result}
use atlas_exporter.Exporter.Measurement.{Measurement}
use atlas_exporter.Prelude.Text.{Text, itoa}
use atlas_exporter.Float.{Floats}
use atlas_exporter.Atlas.Stream.Isolation.{measurement_for-new, measurement_for-found}
use atlas_exporter.Atlas.Types.Kept.{Keeps}
use atlas_exporter.Atlas.Stream.Processor.{process_measurement_results}
use atlas_exporter.Exporter.Measurement

-- `P id` is what is kept of the measurement with that id, for probes with their labels and results with `R`.
module _ {F : Type 0} ⦃fl : Floats F⦄ (P : Text → Measurement F → Type 0)
    (R : Result F → Type 0) where
  abbrev pub AllOf : Strategy F → Type 0
  AllOf s = (id : Text) (mes : Measurement F) → lookup id s.measurements ≡ some mes → P id mes

  -- The probes of the cache and the measurements of the strategy are in order.
  abbrev pub IsKept : World F → Type 0
  IsKept w = Caches HasLabels w.cache × AllOf w.strategy

  put-if :
      (msm id : Text) (o : Option (Measurement F)) (mes got : Measurement F)
      → P msm mes
      → (o ≡ some got → P id got)
      → (if msm == id then some mes else o) ≡ some got
      → P id got
  put-if msm id o mes got h k e = elim (Bool-cases (msm == id)) [
    | inl same ↦
        let is : mes ≡ got = (let e' = rw same at e in cc) in
        subst (λ i. P i got) ((eqb_list_iff msm id).0 same) (subst (P msm) is h)
    | inr other ↦ k (rw other at e)
  ]

  put-AllOf :
      (s : Strategy F) (msm : Text) (mes : Measurement F)
      → AllOf s
      → P msm mes
      → AllOf (put s msm mes)
  unfolding put
  put-AllOf s msm mes all h id got e =
      put-if msm id (lookup id s.measurements) mes got h (all id got)
        (sym (lookup-insert msm id mes s.measurements) ∙ e)

  module _ (keeps : Keeps P R) where
    add_to-AllOf :
        (s : Strategy F) (msm : Text) (mes : Measurement F) (m : Result F) (p : Probe F)
        → AllOf s
        → P msm mes
        → IsOf HasLabels m.prb_id p
        → R m
        → AllOf (add_to s msm mes m (some p)).0
    unfolding add_to
    add_to-AllOf s msm mes m p all h own ok =
        elim (Outcome-cases (Measurement.add mes m (some p))) [
          | inl bad ↦ rw (bad, add_to) (put-AllOf s msm mes all h)
          | inr (mes', good) ↦
              rw (good, add_to)
                (put-AllOf s msm mes' all (keeps.add msm mes mes' m p own ok h good))
        ]

    measurement_for-P :
        (digest : Digest) (s : Strategy F) (m : Result F) (mes : Measurement F)
        → AllOf s
        → measurement_for digest s m ≡ some mes
        → P (itoa m.msm_id) mes
    unfolding measurement_for
    measurement_for-P digest s m mes all e =
        elim (Option-cases (lookup (itoa m.msm_id) s.measurements)) [
          | inl new ↦
              keeps.new digest m.type _ _ s.cfg mes (sym (measurement_for-new digest s m new) ∙ e)
          | inr (old, h) ↦
              all (itoa m.msm_id) mes (h ∙ (sym (measurement_for-found digest s m old h) ∙ e))
        ]

    add-AllOf :
        (digest : Digest) (s : Strategy F) (m : Result F) (p : Probe F)
        → AllOf s
        → IsOf HasLabels m.prb_id p
        → R m
        → AllOf (add digest s m (some p)).0
    unfolding add
    add-AllOf digest s m p all own ok = elim (Option-cases (measurement_for digest s m)) [
      | inl unknown ↦ rw (unknown, add) all
      | inr (mes, e) ↦
          rw (e, add) (add_to-AllOf s _ mes m p all (measurement_for-P digest s m mes all e) own ok)
    ]

    module _ (digest : Digest) (fetch : Fetch F) (good : Fetches HasLabels fetch)
        (now read stored : Result F → ℤ) where
      abbrev pub handle : World F → Result F → World F × Outcome (Unit {0})
      handle w r = process_measurement_result digest fetch (now r) (read r) (stored r) w r

      add_found-IsKept :
          (w : World F) (r : Result F) (found : Cache F × Option (Probe F))
          → AllOf w.strategy
          → Finds HasLabels r.prb_id found
          → R r
          → IsKept (add_found digest w r found).0
      unfolding add_found
      add_found-IsKept w r (c, none) all f ok = (f.0, all)
      add_found-IsKept w r (c, some p) all f ok =
          (f.0, add-AllOf digest w.strategy r p all (f.1 p refl) ok)

      pub handle-IsKept : (w : World F) (r : Result F) → R r → IsKept w → IsKept (handle w r).0
      unfolding process_measurement_result
      handle-IsKept w r ok h =
          let w' = record w {
            strategy = record w.strategy { last_data_time = now r };
            last_data_timestamp = insert (itoa r.msm_id) (now r) w.last_data_timestamp;
          } in
          add_found-IsKept w' r (probe_for_id fetch (read r) (stored r) w.cache r.prb_id) h.1
            (probe_for_id-Finds HasLabels fetch (read r) (stored r) w.cache r.prb_id good h.0) ok

      pub processed-IsKept :
          (recovering : Bool) (rs : List (Result F × Bool)) (w : World F)
          → All (λ (r : Result F × Bool). R r.0) rs
          → IsKept w
          → IsKept (process_measurement_results handle recovering rs w)
      unfolding process_measurement_results
      processed-IsKept recovering [] w ok h = h
      processed-IsKept recovering ((r, ready) ∷ rest) w ok h =
          elim (Bool-cases (recovering && ready)) [
            | inl lost ↦
                rw (lost, process_measurement_results) (processed-IsKept false rest w ok.1 h)
            | inr kept ↦
                rw (kept, process_measurement_results)
                  (processed-IsKept _ rest (handle w r).0 ok.1 (handle-IsKept w r ok.0 h))
          ]
