-- ===== src/Collector/Total.antt =====
-- The collector of measurements that can be collected.
use atlas_exporter.Exporter.Measurement.Add.{add_all}
use atlas_exporter.Prelude.Outcome.{done}
use atlas_exporter.Exporter.Measurement.Scrape.{IsServable, collect-add_all}
use atlas_exporter.Prelude.Text.{Text}
use atlas_exporter.Prelude.Int.{ℤ}
use atlas_exporter.Result.{Result}
use atlas_exporter.Exporter.Measurement.Collect.{VisitOrder}
use atlas_exporter.Exporter.Laws.{In, IsWellFormed}
use atlas_exporter.Collector.{collect_all, describe_all}
use atlas_exporter.Exporter.Measurement.{
  Sample, Measurement, Description, metric, desc, histogram, hist_desc,
}
use atlas_exporter.Exporter.{Desc, Metric, Histogram}
use atlas_exporter.Prelude.{
  List, ◌∷◌, ◌++◌, ◌≡◌, inl, inr, length, map, All, [], ap, All-imp, All-append, refl,
}
use atlas_exporter.Exporter.Measurement

module _ {A : Type 0} where
  pub In-left : (a : A) (xs ys : List A) → In a xs → In a (xs ++ ys)
  In-left a [] ys h = absurd h
  In-left a (x ∷ xs) ys (inl e) = inl e
  In-left a (x ∷ xs) ys (inr h) = inr (In-left a xs ys h)

  pub In-right : (a : A) (xs ys : List A) → In a ys → In a (xs ++ ys)
  In-right a [] ys h = h
  In-right a (x ∷ xs) ys h = inr (In-right a xs ys h)

In-desc :
    (F : Type 0) (d : Desc) (ds : List Desc)
    → In d ds
    → In {A = Description F} (desc d) (map desc ds)
In-desc _ d [] h = absurd h
In-desc _ d (x ∷ xs) (inl e) = inl (ap desc e)
In-desc F d (x ∷ xs) (inr h) = inr (In-desc F d xs h)

module _ {F : Type 0} where
  -- What is sent has been described: a metric with one value for each label, a histogram by its options.
  abbrev pub IsDescribed : List (Description F) → Sample F → Type 0
  IsDescribed ds (metric m) = In (desc m.desc) ds × (length m.label_values ≡ length m.desc.labels)
  IsDescribed ds (histogram h) = In (hist_desc h.opts) ds

  metrics-IsDescribed :
      (ds : List Desc) (more : List (Description F)) (ms : List (Metric F))
      → All (IsWellFormed ds) ms
      → All (IsDescribed (map desc ds ++ more)) (map metric ms)
  metrics-IsDescribed ds more [] h = tt
  metrics-IsDescribed ds more (m ∷ ms) h = (
    (In-left _ _ more (In-desc F m.desc ds h.0.described), h.0.labelled),
    metrics-IsDescribed ds more ms h.1,
  )

  histograms-IsDescribed :
      (ds : List (Description F)) (hs : List (Histogram F))
      → All (IsDescribed (map (λ h. hist_desc h.opts) hs)) (map histogram hs)
  histograms-IsDescribed ds [] = tt
  histograms-IsDescribed ds (h ∷ hs) = (
    inl refl,
    All-imp _ _ (map histogram hs) (λ s. later s (hist_desc h.opts) _)
        (histograms-IsDescribed ds hs),
  )
    where
      later :
          (s : Sample F) (d : Description F) (ds : List (Description F))
          → IsDescribed ds s
          → IsDescribed (d ∷ ds) s
      later (metric m) d ds k = (inr k.0, k.1)
      later (histogram h) d ds k = inr k

  left-IsDescribed :
      (s : Sample F) (ds more : List (Description F))
      → IsDescribed ds s
      → IsDescribed (ds ++ more) s
  left-IsDescribed (metric m) ds more h = (In-left _ ds more h.0, h.1)
  left-IsDescribed (histogram k) ds more h = In-left _ ds more h

  right-IsDescribed :
      (s : Sample F) (ds more : List (Description F))
      → IsDescribed more s
      → IsDescribed (ds ++ more) s
  right-IsDescribed (metric m) ds more h = (In-right _ ds more h.0, h.1)
  right-IsDescribed (histogram k) ds more h = In-right _ ds more h

  one_total :
      (mes : Measurement F) (order : VisitOrder (Result F)) (clock : Result F → ℤ) (global : Text)
      → IsServable mes
      → (out : Text × List (Sample F)) × (Measurement.collect mes order.visit clock global
          ≡ done out)
        × All (IsDescribed (Measurement.describe mes)) out.1
  unfolding Measurement.describe
  one_total mes order clock global h =
      let (global', ms, e, ok) =
        collect-add_all mes mes [] order clock global h.0 h.1 tt (unfold add_all in refl) in
      (
        (global', map metric ms ++ map histogram mes.histograms),
        e,
        All-append _ (map metric ms) (map histogram mes.histograms)
            (metrics-IsDescribed mes.exporter.describe _ ms ok)
            (All-imp _ _ (map histogram mes.histograms)
              (λ s. right-IsDescribed s (map desc mes.exporter.describe) _)
              (histograms-IsDescribed [] mes.histograms)),
      )

  -- Measurements that can be collected are collected without a panic, and what is sent has been described.
  pub collect_all_total :
      (ms : List (Measurement F)) (order : VisitOrder (Result F)) (clock : Result F → ℤ)
      (global : Text)
      → All IsServable ms
      → (out : Text × List (Sample F)) × (collect_all order.visit clock ms global ≡ done out)
        × All (IsDescribed (describe_all ms)) out.1
  unfolding collect_all describe_all
  collect_all_total [] order clock global h = ((global, []), refl, tt)
  collect_all_total (m ∷ ms) order clock global h =
      let (one, e, ok) = one_total m order clock global h.0 in
      let (rest, f, oks) = collect_all_total ms order clock one.0 h.1 in
      (
        (rest.0, one.1 ++ rest.1),
        rw (e, collect_all) (rw f),
        All-append _ one.1 rest.1
            (All-imp _ _ one.1 (λ s. left-IsDescribed s (Measurement.describe m) (describe_all ms))
              ok)
            (All-imp _ _ rest.1
              (λ s. right-IsDescribed s (Measurement.describe m) (describe_all ms)) oks),
      )
