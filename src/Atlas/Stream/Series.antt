-- ===== src/Atlas/Stream/Series.antt =====
-- What a scrape of the streaming strategy sends: no series twice, if the ids are all different.
use atlas_exporter.Config.{Config}
use atlas_exporter.Atlas.Stream.Scrape.{AllServable, measurement_results-All}
use atlas_exporter.Collector.Total.{collect_all_total}
use atlas_exporter.Prelude.Equality.{list_eq, nat_eq}
use atlas_exporter.Prelude.Outcome.{done}
use atlas_exporter.Prelude.Dict.{lookup}
use atlas_exporter.Exporter.Measurement.Collect.{VisitOrder}
use atlas_exporter.Prelude.Int.{ℤ}
use atlas_exporter.Prelude.{
  List, Pairwise, ◌≢◌, map, ◌≡◌, All, ◌∷◌, Option-cases, inl, inr, ap, [], refl, some, none,
}
use atlas_exporter.Atlas.Stream.{measurement_results, Strategy, new_strategy}
use atlas_exporter.Exporter.Measurement.{Measurement, Sample}
use atlas_exporter.Float.{Floats}
use atlas_exporter.Prelude.Text.{Text}
use atlas_exporter.Result.{Result}
use atlas_exporter.Atlas.Types.Kept.{Keeps}
use atlas_exporter.Atlas.Stream.Invariant.{AllOf}
use atlas_exporter.Atlas.Types.Series.{measurement_for_type-HasSeries}
use atlas_exporter.Exporter.Measurement.Series.{HasSeries, add-HasSeries}
use atlas_exporter.Exporter.Series.{AtMostOne, Differ}
use atlas_exporter.Collector.Series.{measurement_of, Named, OtherId, collect_all-Differ}
use atlas_exporter.Collector.{new_collector, collect}

module _ {F : Type 0} where
  abbrev pub OneRequest : Result F → Type 0
  OneRequest r = AtMostOne r.http_results

module _ {F : Type 0} ⦃fl : Floats F⦄ where
  pub series_keeps : Keeps {F = F} HasSeries OneRequest
  series_keeps = record {
    new = measurement_for_type-HasSeries;
    add = λ id mes mes' m p own one h e. add-HasSeries id mes mes' m p h own.0 one e;
  }

  -- The measurements that are found, with their ids.
  pub measurement_results-named :
      (s : Strategy F) (ids : List Text)
      → AllOf HasSeries OneRequest s
      → Pairwise (λ a b. a ≢ b) ids
      → (named : Named F) × (map measurement_of named ≡ measurement_results s ids)
        × All (λ (e : Text × Measurement F). HasSeries e.0 e.1) named
        × Pairwise OtherId named
        × ((id : Text) → All (λ b. id ≢ b) ids → All (λ (e : Text × Measurement F). id ≢ e.0) named)
  unfolding measurement_results
  measurement_results-named s [] all apart = ([], refl, tt, tt, λ id h. tt)
  measurement_results-named s (id ∷ ids) all apart =
      let (named, same, own, other, among) = measurement_results-named s ids all apart.1 in
      elim (Option-cases (lookup id s.measurements)) [
        | inl missing ↦
            (named, rw (missing, measurement_results) same, own, other, λ i h. among i h.1)
        | inr (mes, e) ↦ (
          (id, mes) ∷ named,
          rw (e, measurement_results) (ap (◌∷◌ mes) same),
          (all id mes e, own),
          (among id apart.0, other),
          λ i h. (h.0, among i h.1),
        )
      ]

  -- What is sent of measurements of a strategy, in order.
  pub strategy_series :
      (s : Strategy F) (ids : List Text) (order : VisitOrder (Result F)) (clock : Result F → ℤ)
      (global : Text)
      → AllServable s
      → AllOf HasSeries OneRequest s
      → Pairwise (λ a b. a ≢ b) ids
      → (out : Text × List (Sample F)) × (collect
            (new_collector (measurement_results s ids))
            order.visit
            clock
            global
          ≡ done out)
        × Pairwise Differ out.1
  unfolding collect new_collector
  strategy_series s ids order clock global servable has apart =
      let (out, e, _) =
        collect_all_total (measurement_results s ids) order clock global
          (measurement_results-All s ids servable) in
      let (named, same, own, other, _) = measurement_results-named s ids has apart in
      (out, e, (collect_all-Differ named order clock global out own other (rw same e)).0)

  -- A new strategy has no measurements.
  pub started-AllOf :
      (P : Text → Measurement F → Type 0) (cfg : Config F) (id : Text) (mes : Measurement F)
      → lookup id (new_strategy cfg).measurements ≡ some mes
      → P id mes
  unfolding new_strategy lookup
  started-AllOf P cfg id mes e = absurd (none-ne-some e)
    where
      none-ne-some : {x : Measurement F} → none ≡ some x → ⊥
      none-ne-some h = cc
