-- ===== src/Exporter/Measurement/Series.antt =====
-- The samples that `Collect` of one measurement sends are of different series.
use mathlib.Core.List.{map-append}
use atlas_exporter.Prelude.Outcome.{done, >>=-eq-done}
use atlas_exporter.Prelude.Equality.{◌==◌, int_eq, eq_refl}
use atlas_exporter.Exporter.{Exporter, Metric, Histogram}
use atlas_exporter.Probe.{Probe}
use atlas_exporter.Exporter.Measurement.{
  store, export_results, Measurement, export_one, probe_at, metric, add, observe, is_stale,
}
use atlas_exporter.Result.{Result}
use atlas_exporter.Prelude.Int.{ℤ}
use atlas_exporter.Prelude.Text.{Text, itoa}
use atlas_exporter.Prelude.Dict.{Dict, IsMap, insert, insert-IsMap}
use atlas_exporter.Prelude.{
  Option, List, Bool, ◌≢◌, some, ◌≡◌, if◌then◌else◌, All, map, length, ap, Pairwise, none,
  Bool-cases, subst, ◌∷◌, true, inl, suc, ◌≤◌, sym, [], false, ◌∙◌, All-imp, refl, inr, ◌++◌,
  Pairwise-append, All-append,
}
use atlas_exporter.Exporter.Series.{SeriesLaws, Labelled, Differ, AtMostOne}
use atlas_exporter.Exporter.Measurement.Scrape.{probe_at-insert, All-insert}
use atlas_exporter.Exporter.Measurement.Add.{add-eq-done, passes}
use atlas_exporter.Prelude.Text.RoundTrip.{itoa_injective}
use atlas_exporter.Exporter.Laws.{In, All-In}

module _ {F : Type 0} where
  -- The probe that is stored under an id has that id.
  abbrev pub OwnProbe : Option (Probe F) → ℤ → Type 0
  OwnProbe none k = ⊥
  OwnProbe (some p) k = p.id ≡ k

  abbrev pub OwnEntry : Dict ℤ (Option (Probe F)) → ℤ × Result F → Type 0
  OwnEntry probes (k, m) =
      (m.prb_id ≡ k) × OwnProbe (probe_at k probes) k × AtMostOne m.http_results

  -- What makes the series of a measurement its own.
  pub record HasSeries (id : Text) (r : Measurement F) : Type 0 where
    pub laws : SeriesLaws id r.exporter
    pub is_map : IsMap r.latest
    pub entries : All (OwnEntry r.probes) r.latest
    pub own_histograms : All (λ (h : Histogram F). h.opts.measurement ≡ id) r.histograms
    pub one_histogram : AtMostOne r.histograms

  if-OwnProbe :
      (id k : ℤ) (p : Probe F) (q : Option (Probe F))
      → p.id ≡ id
      → OwnProbe q k
      → OwnProbe (if id == k then some p else q) k
  if-OwnProbe id k p q own h = elim (Bool-cases (id == k)) [
    | inl same ↦ rw same (own ∙ (int_eq.beq_iff id k).0 same)
    | inr other ↦ rw other h
  ]

  OwnEntry-insert :
      (probes : Dict ℤ (Option (Probe F))) (id : ℤ) (p : Probe F) (e : ℤ × Result F)
      → p.id ≡ id
      → OwnEntry probes e
      → OwnEntry (insert id (some p) probes) e
  OwnEntry-insert probes id p (k, m) own h = (
    h.0,
    rw (probe_at-insert probes id k (some p)) (if-OwnProbe id k p (probe_at k probes) own h.1),
    h.2,
  )

  observed-own :
      (id : Text) (m : Result F) (hs : List (Histogram F))
      → All (λ (h : Histogram F). h.opts.measurement ≡ id) hs
      → All (λ (h : Histogram F). h.opts.measurement ≡ id) (map (observe m) hs)
  observed-own id m [] h = tt
  observed-own id m (x ∷ hs) h = (h.0, observed-own id m hs h.1)

  length-observed :
      (m : Result F) (hs : List (Histogram F)) → length (map (observe m) hs) ≡ length hs
  length-observed m [] = refl
  length-observed m (x ∷ hs) = ap suc (length-observed m hs)

  store-HasSeries :
      (id : Text) (r : Measurement F) (m : Result F) (p : Probe F)
      → HasSeries id r
      → p.id ≡ m.prb_id
      → AtMostOne m.http_results
      → HasSeries id (store r m (some p))
  unfolding store
  store-HasSeries id r m p h own one = record {
    laws = h.laws;
    is_map = insert-IsMap m.prb_id m r.latest h.is_map;
    entries =
        All-insert (OwnEntry r.probes) (OwnEntry (insert m.prb_id (some p) r.probes)) m.prb_id m
          r.latest (λ e. OwnEntry-insert r.probes m.prb_id p e own)
          (
            refl,
            rw (probe_at-insert r.probes m.prb_id m.prb_id (some p), eq_refl m.prb_id) own,
            one,
          )
          h.entries;
    own_histograms = observed-own id m r.histograms h.own_histograms;
    one_histogram = subst (λ n. n ≤ 1) (sym (length-observed m r.histograms)) h.one_histogram;
  }

  if-HasSeries :
      (id : Text) (b : Bool) (r s : Measurement F)
      → HasSeries id r
      → HasSeries id s
      → HasSeries id (if b then r else s)
  if-HasSeries id true r s h k = h
  if-HasSeries id false r s h k = k

  pub add-HasSeries :
      (id : Text) (r r' : Measurement F) (m : Result F) (p : Probe F)
      → HasSeries id r
      → p.id ≡ m.prb_id
      → AtMostOne m.http_results
      → add r m (some p) ≡ done r'
      → HasSeries id r'
  add-HasSeries id r r' m p h own one e =
      subst (HasSeries id) (sym (add-eq-done r r' (m, some p) e)) (
        if-HasSeries id (passes r.validator (m, some p)) _ r (store-HasSeries id r m p h own one) h)

  -- The metric is of one of the results.
  abbrev pub By : Text → List (Result F) → Metric F → Type 0
  By id vs m = (w : Result F) × In w vs × Labelled id w.prb_id m

  abbrev pub Exportable : Dict ℤ (Option (Probe F)) → Result F → Type 0
  Exportable probes v = OwnProbe (probe_at v.prb_id probes) v.prb_id × AtMostOne v.http_results

  abbrev pub OtherProbe : Result F → Result F → Type 0
  OtherProbe v w = v.prb_id ≢ w.prb_id

  -- What is sent of a result, with the id of its probe.
  exported-own :
      (id : Text) (e : Exporter F) (global : Text) (v : Result F) (o : Option (Probe F)) (k : ℤ)
      (out : Text × List (Metric F))
      → SeriesLaws id e
      → OwnProbe o k
      → AtMostOne v.http_results
      → e.export global v o ≡ done out
      → All (Labelled id k) out.1 × Pairwise Differ (map metric out.1)
  exported-own id e global v none k out laws own one h = absurd own
  exported-own id e global v (some p) k out laws own one h = (
    subst (λ j. All (Labelled id j) out.1) own (laws.labelled global v p out h),
    laws.differ global v p out one h,
  )

  Labelled-Differ :
      (id : Text) (j k : ℤ) (m n : Metric F)
      → j ≢ k
      → Labelled id j m
      → Labelled id k n
      → Differ (metric m) (metric n)
  Labelled-Differ id j k m n other (x, more, e) (y, more', f) same =
      let labels : m.label_values ≡ n.label_values = ap (λ (s : Text × List Text). s.1) same in
      let all : id ∷ itoa j ∷ x ∷ more ≡ id ∷ itoa k ∷ y ∷ more' = sym e ∙ (labels ∙ f) in
      let second : itoa j ≡ itoa k = cc in other (itoa_injective j k second)

  across :
      (id : Text) (v : Result F) (vs : List (Result F)) (ms ns : List (Metric F))
      → All (OtherProbe v) vs
      → All (Labelled id v.prb_id) ms
      → All (By id vs) ns
      → All (λ s. All (Differ s) (map metric ns)) (map metric ms)
  across id v vs [] ns others h k = tt
  across id v vs (m ∷ ms) ns others h k = (one ns k, across id v vs ms ns others h.1 k)
    where
      one : (ns : List (Metric F)) → All (By id vs) ns → All (Differ (metric m)) (map metric ns)
      one [] k = tt
      one (n ∷ ns) ((w, among, own), k) = (
        Labelled-Differ id v.prb_id w.prb_id m n (All-In (OtherProbe v) vs w others among) h.0 own,
        one ns k,
      )

  pub export_results-Differ :
      (id : Text) (r : Measurement F) (clock : Result F → ℤ) (vs : List (Result F)) (global : Text)
      (out : Text × List (Metric F))
      → SeriesLaws id r.exporter
      → All (Exportable r.probes) vs
      → Pairwise OtherProbe vs
      → export_results r clock vs global ≡ done out
      → Pairwise Differ (map metric out.1) × All (By id vs) out.1
  unfolding export_results export_one
  export_results-Differ id r clock [] global out laws h apart e =
      let same : [] ≡ out.1 = cc in
      subst (λ ms. Pairwise Differ (map metric ms) × All (By id []) ms) same (tt, tt)
  export_results-Differ id r clock (v ∷ vs) global out laws h apart e =
      elim (Bool-cases (is_stale r.max_result_age (clock v) v)) [
        | inl stale ↦
            let (d, by) =
              export_results-Differ id r clock vs global out laws h.1 apart.1
                (rw (stale, export_results) at e) in
            (d, All-imp _ _ out.1 (λ m b. (b.0, inr b.1, b.2)) by)
        | inr fresh ↦
            let e' = rw (fresh, export_results) at e in
            let (one, k, f) =
              >>=-eq-done (r.exporter.export global v (probe_at v.prb_id r.probes)) _ e' in
            let (rest, l, g) = >>=-eq-done (export_results r clock vs one.0) _ f in
            let same : one.1 ++ rest.1 ≡ out.1 = cc in
            let (own, d) =
              exported-own id r.exporter global v (probe_at v.prb_id r.probes) v.prb_id one laws
                h.0.0 h.0.1 k in
            let (d', by) = export_results-Differ id r clock vs one.0 rest laws h.1 apart.1 l in
            subst (λ ms. Pairwise Differ (map metric ms) × All (By id (v ∷ vs)) ms) same
              (
                rw (map-append metric one.1 rest.1) (
                    Pairwise-append Differ (map metric one.1) (map metric rest.1) d d'
                      (across id v vs one.1 rest.1 apart.0 own by)),
                All-append _ one.1 rest.1 (All-imp _ _ one.1 (λ m own. (v, inl refl, own)) own)
                    (All-imp _ _ rest.1 (λ m b. (b.0, inr b.1, b.2)) by),
              )
      ]
