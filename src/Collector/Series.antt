-- ===== src/Collector/Series.antt =====
-- The samples of one scrape are of different series.
use atlas_exporter.Probe.{Probe}
use atlas_exporter.Prelude.Equality.{eq_refl, int_eq}
use atlas_exporter.Prelude.Outcome.{done, >>=-eq-done}
use atlas_exporter.Exporter.{Histogram, Metric}
use atlas_exporter.Prelude.Int.{ℤ}
use atlas_exporter.Result.{Result}
use atlas_exporter.Exporter.Measurement.{Sample, Measurement, histogram, metric, export_results}
use atlas_exporter.Prelude.{
  List, ◌≡◌, none, Option, ◌∷◌, All, Pairwise, ◌≢◌, map, sym, arith, ◌∙◌, subst, [], ap, ◌++◌,
  All-Permᴰ, Pairwise-append, Pairwise-Permᴰ, All-append, All-imp, inl, inr, refl,
}
use atlas_exporter.Prelude.Text.{Text, itoa}
use atlas_exporter.Prelude.Dict.{lookup, Dict, values, IsMap}
use atlas_exporter.Exporter.Series.{Differ, series, AtMostOne}
use atlas_exporter.Exporter.Measurement.Series.{
  HasSeries, OwnEntry, Exportable, OtherProbe, export_results-Differ, By,
}
use atlas_exporter.Exporter.Measurement.Collect.{VisitOrder}
use atlas_exporter.Exporter.Laws.{In, All-In}
use atlas_exporter.Exporter.Measurement
use atlas_exporter.Collector.{collect_all}

-- Measurements with their ids.
abbrev pub Named : Type 0 → Type 0
Named F = List (Text × Measurement F)

abbrev pub measurement_of : {F : Type 0} → Text × Measurement F → Measurement F
measurement_of e = e.1

module _ {F : Type 0} where
  lookup-none-All :
      (k : ℤ) (m : Dict ℤ (Result F)) → lookup k m ≡ none → All (λ (e : ℤ × Result F). k ≢ e.0) m
  unfolding lookup
  lookup-none-All k [] h = tt
  lookup-none-All k ((j, w) ∷ m) h = (
    λ e. let clash = eq_refl j in ground (arith, int_eq.beq_iff j k),
    lookup-none-All k m (ground (arith, h)),
  )

  values-apart :
      (probes : Dict ℤ (Option (Probe F))) (latest : Dict ℤ (Result F))
      → IsMap latest
      → All (OwnEntry probes) latest
      → Pairwise OtherProbe (values latest)
  values-apart probes [] h k = tt
  values-apart probes ((i, m) ∷ latest) h k =
      (others latest (lookup-none-All i latest h.0) k.1, values-apart probes latest h.1 k.1)
    where
      others :
          (rest : Dict ℤ (Result F))
          → All (λ (e : ℤ × Result F). i ≢ e.0) rest
          → All (OwnEntry probes) rest
          → All (OtherProbe m) (values rest)
      others [] a o = tt
      others ((j, w) ∷ rest) a o = (λ same. a.0 (sym k.0.0 ∙ (same ∙ o.0.0)), others rest a.1 o.1)

  values-Exportable :
      (probes : Dict ℤ (Option (Probe F))) (latest : Dict ℤ (Result F))
      → All (OwnEntry probes) latest
      → All (Exportable probes) (values latest)
  values-Exportable probes [] h = tt
  values-Exportable probes ((k, m) ∷ rest) h =
      ((rw h.0.0 h.0.1, h.0.2), values-Exportable probes rest h.1)

  -- The first label names the measurement.
  abbrev pub Own : Text → Sample F → Type 0
  Own id s = (more : List Text) × ((series s).1 ≡ id ∷ more)

  histograms-Own :
      (id : Text) (hs : List (Histogram F))
      → All (λ (h : Histogram F). h.opts.measurement ≡ id) hs
      → All (Own id) (map histogram hs)
  histograms-Own id [] h = tt
  histograms-Own id (x ∷ hs) h =
      ((x.opts.ip_version ∷ [], ap (λ t. t ∷ x.opts.ip_version ∷ []) h.0), histograms-Own id hs h.1)

  histograms-Differ : (hs : List (Histogram F)) → AtMostOne hs → Pairwise Differ (map histogram hs)
  histograms-Differ [] h = tt
  histograms-Differ (x ∷ []) h = (tt, tt)
  histograms-Differ (x ∷ y ∷ hs) h = absurd (omega arith)

  metrics-Own :
      (id : Text) (vs : List (Result F)) (ms : List (Metric F))
      → All (By id vs) ms
      → All (Own id) (map metric ms)
  metrics-Own id vs [] h = tt
  metrics-Own id vs (m ∷ ms) ((w, among, (x, more, e)), h) =
      ((itoa w.prb_id ∷ x ∷ more, e), metrics-Own id vs ms h)

  -- A metric has at least three labels, a histogram two.
  metrics-histograms :
      (id : Text) (vs : List (Result F)) (ms : List (Metric F)) (hs : List (Histogram F))
      → All (By id vs) ms
      → All (λ s. All (Differ s) (map histogram hs)) (map metric ms)
  metrics-histograms id vs [] hs h = tt
  metrics-histograms id vs (m ∷ ms) hs ((w, among, (x, more, e)), h) =
      (others hs, metrics-histograms id vs ms hs h)
    where
      others : (hs : List (Histogram F)) → All (Differ (metric m)) (map histogram hs)
      others [] = tt
      others (y ∷ hs) = (
        λ same.
            let labels : id ∷ itoa w.prb_id ∷ x ∷ more
                ≡ y.opts.measurement ∷ y.opts.ip_version ∷ [] =
              sym e ∙ ap (λ (s : Text × List Text). s.1) same in
            cc,
        others hs,
      )

  collect-Differ :
      (id : Text) (r : Measurement F) (order : VisitOrder (Result F)) (clock : Result F → ℤ)
      (global : Text) (out : Text × List (Sample F))
      → HasSeries id r
      → Measurement.collect r order.visit clock global ≡ done out
      → Pairwise Differ out.1 × All (Own id) out.1
  unfolding Measurement.collect
  collect-Differ id r order clock global out h e =
      let p = order.visit-perm (values r.latest) in
      let vs = order.visit (values r.latest) in
      let (sent, k, f) = >>=-eq-done (export_results r clock vs global) _ e in
      let (d, by) =
        export_results-Differ id r clock vs global sent h.laws
          (All-Permᴰ _ p (values-Exportable r.probes r.latest h.entries))
          (Pairwise-Permᴰ OtherProbe (λ v w other same. other (sym same)) p
            (values-apart r.probes r.latest h.is_map h.entries))
          k in
      let same : map metric sent.1 ++ map histogram r.histograms ≡ out.1 = cc in
      subst (λ ss. Pairwise Differ ss × All (Own id) ss) same
        (
          Pairwise-append Differ (map metric sent.1) (map histogram r.histograms) d
              (histograms-Differ r.histograms h.one_histogram)
              (metrics-histograms id vs sent.1 r.histograms by),
          All-append (Own id) (map metric sent.1) (map histogram r.histograms)
              (metrics-Own id vs sent.1 by) (histograms-Own id r.histograms h.own_histograms),
        )

  abbrev pub OtherId : Text × Measurement F → Text × Measurement F → Type 0
  OtherId e f = e.0 ≢ f.0

  abbrev pub OfSome : Named F → Sample F → Type 0
  OfSome named s = (e : Text × Measurement F) × In e named × Own e.0 s

  across :
      (e : Text × Measurement F) (named : Named F) (ss ts : List (Sample F))
      → All (OtherId e) named
      → All (Own e.0) ss
      → All (OfSome named) ts
      → All (λ s. All (Differ s) ts) ss
  across e named [] ts others h k = tt
  across e named (s ∷ ss) ts others h k = (one ts k, across e named ss ts others h.1 k)
    where
      apart : (t : Sample F) (x y : Text) → x ≢ y → Own x s → Own y t → Differ s t
      apart t x y other (more, a) (more', b) same =
          let labels : x ∷ more ≡ y ∷ more' =
            sym a ∙ (ap (λ (l : Text × List Text). l.1) same ∙ b) in
          let ids : x ≡ y = cc in other ids

      one : (ts : List (Sample F)) → All (OfSome named) ts → All (Differ s) ts
      one [] k = tt
      one (t ∷ ts) ((f, among, own), k) =
          (apart t e.0 f.0 (All-In (OtherId e) named f others among) h.0 own, one ts k)

  -- Of measurements with different ids, each with series of its own, what is sent has no series twice, and
  -- each sample names one of them.
  pub collect_all-Differ :
      (named : Named F) (order : VisitOrder (Result F)) (clock : Result F → ℤ) (global : Text)
      (out : Text × List (Sample F))
      → All (λ (e : Text × Measurement F). HasSeries e.0 e.1) named
      → Pairwise OtherId named
      → collect_all order.visit clock (map (λ (e : Text × Measurement F). e.1) named) global
        ≡ done out
      → Pairwise Differ out.1 × All (OfSome named) out.1
  unfolding collect_all
  collect_all-Differ [] order clock global out h apart e =
      let same : [] ≡ out.1 = cc in
      subst (λ ss. Pairwise Differ ss × All (OfSome []) ss) same (tt, tt)
  collect_all-Differ ((id, r) ∷ named) order clock global out h apart e =
      let (one, k, f) = >>=-eq-done (Measurement.collect r order.visit clock global) _ e in
      let (rest, l, g) =
        >>=-eq-done
          (collect_all order.visit clock (map (λ (e : Text × Measurement F). e.1) named) one.0) _
          f in
      let same : one.1 ++ rest.1 ≡ out.1 = cc in
      let (d, own) = collect-Differ id r order clock global one h.0 k in
      let (d', of) = collect_all-Differ named order clock one.0 rest h.1 apart.1 l in
      subst (λ ss. Pairwise Differ ss × All (OfSome ((id, r) ∷ named)) ss) same
        (
          Pairwise-append Differ one.1 rest.1 d d'
              (across (id, r) named one.1 rest.1 apart.0 own of),
          All-append _ one.1 rest.1 (All-imp _ _ one.1 (λ s o. ((id, r), inl refl, o)) own)
              (All-imp _ _ rest.1 (λ s o. (o.0, inr o.1, o.2)) of),
        )
