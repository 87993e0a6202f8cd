-- ===== src/Atlas/Stream/Scrape.antt =====
-- Every measurement of the streaming strategy can be collected.
use atlas_exporter.Atlas.Types.Kept.{Keeps}
use atlas_exporter.Atlas.Stream.Invariant.{handle-IsKept, processed-IsKept}
use atlas_exporter.Atlas.Types.Laws.{new-IsServable, measurement_for_type-IsNew}
use atlas_exporter.Atlas.Stream.Processor.{process_measurement_results}
use atlas_exporter.Prelude.Int.{ℤ}
use atlas_exporter.Prelude.Equality.{list_eq, nat_eq}
use atlas_exporter.Exporter.Measurement.Scrape.{IsServable, add-IsServable}
use atlas_exporter.Prelude.Dict.{lookup}
use atlas_exporter.Atlas.Lookup.{Fetch}
use atlas_exporter.Result.{Result}
use atlas_exporter.Probe.Labels.{HasLabels}
use atlas_exporter.Exporter.Measurement.{Measurement}
use atlas_exporter.Sslcert.{Digest}
use atlas_exporter.Atlas.Lookup.Values.{Caches, Fetches}
use atlas_exporter.Prelude.Text.{Text}
use atlas_exporter.Float.{Floats}
use atlas_exporter.Prelude.{Bool, ◌≡◌, some, Option-cases, List, inl, All, inr, ◌∷◌, false, []}
use atlas_exporter.Atlas.Stream.{Strategy, World, process_measurement_result, measurement_results}

module _ {F : Type 0} where
  abbrev pub AllServable : Strategy F → Type 0
  AllServable s =
      (id : Text) (mes : Measurement F) → lookup id s.measurements ≡ some mes → IsServable mes

  -- The probes of the cache and the measurements of the strategy are in order.
  abbrev pub IsReady : World F → Type 0
  IsReady w = Caches HasLabels w.cache × AllServable w.strategy

module _ {F : Type 0} ⦃fl : Floats F⦄ where
  -- Nothing is asked of a result.
  pub IsServable-keeps : Keeps (λ _ mes. IsServable mes) (λ (r : Result F). Unit {0})
  IsServable-keeps = record {
    new = λ digest t id ip_version cfg mes made.
        new-IsServable mes (measurement_for_type-IsNew digest t id ip_version cfg mes made);
    add = λ id mes mes' m p own ok h e. add-IsServable mes mes' m (some p) own.1 h e;
  }

  pub measurement_results-All :
      (s : Strategy F) (ids : List Text)
      → AllServable s
      → All IsServable (measurement_results s ids)
  unfolding measurement_results
  measurement_results-All s [] all = tt
  measurement_results-All s (id ∷ ids) all = elim (Option-cases (lookup id s.measurements)) [
    | inl missing ↦ rw (missing, measurement_results) (measurement_results-All s ids all)
    | inr (mes, e) ↦ rw (e, measurement_results) (all id mes e, measurement_results-All s ids all)
  ]

  module _ (digest : Digest) (fetch : Fetch F) (good : Fetches HasLabels fetch)
      (now read stored : Result F → ℤ) where
    pub handle-IsReady :
        (w : World F) (r : Result F)
        → IsReady w
        → IsReady (process_measurement_result digest fetch (now r) (read r) (stored r) w r).0
    handle-IsReady w r =
        handle-IsKept (λ _ mes. IsServable mes) (λ _. Unit {0}) IsServable-keeps digest fetch good
          now read stored w r tt

    -- If the API gives for an id only the probe with that id, readable, the cache holds only such probes
    -- and every measurement of the streaming strategy can be served, then after the processor has
    -- handled any streamed results, with the panics that it recovers and the results that these lose,
    -- every measurement that `MeasurementResults` gives can be served: `Collect` on it does not panic.
    pub streamed-IsServable :
        (w : World F) (rs : List (Result F × Bool)) (ids : List Text)
        → IsReady w
        → All IsServable (
            measurement_results
              (process_measurement_results
                (λ w r. process_measurement_result digest fetch (now r) (read r) (stored r) w r)
                false
                rs
                w).strategy
              ids)
    streamed-IsServable w rs ids h =
        measurement_results-All _ ids
          (processed-IsKept (λ _ mes. IsServable mes) (λ _. Unit {0}) IsServable-keeps digest fetch
            good now read stored false rs w (all_of rs) h).1
      where
        all_of : (rs : List (Result F × Bool)) → All (λ (r : Result F × Bool). Unit {0}) rs
        all_of [] = tt
        all_of (r ∷ rs) = (tt, all_of rs)
