-- ===== src/Exporter/Series.antt =====
-- Which series a sample belongs to: its full name and the values of its labels. A registry that gathers two
-- samples of one series reports an error. What an exporter has to do so that this does not happen.
use atlas_exporter.Exporter.Labelled.{labelled_export}
use atlas_exporter.Prelude.Outcome.{done, Outcome, >>=-eq-done}
use atlas_exporter.Prelude.Equality.{◌==◌, list_eq, nat_eq, eqb_list_iff}
use atlas_exporter.Probe.{Probe}
use atlas_exporter.Result.{Result}
use atlas_exporter.Prelude.Int.{ℤ}
use atlas_exporter.Prelude.{
  ◌≢◌, List, ◌++◌, ◌∷◌, length, Bool, ◌≡◌, [], ◌≤◌, false, true, some, not, All, Pairwise, ◌||◌,
  ◌&&◌, map, sym, arith, ap, subst, All-imp, ◌∙◌,
}
use atlas_exporter.Prelude.Text.{Text, itoa}
use atlas_exporter.Exporter.{Desc, Metric, Histogram, Exporter}
use atlas_exporter.Exporter.Measurement.{Sample, metric, histogram}

-- prometheus.BuildFQName of three parts that are not empty.
abbrev pub build_fq_name : Text → Text → Text → Text
build_fq_name ns sub name = ns ++ b'_' ∷ (sub ++ b'_' ∷ name)

abbrev pub fq_name : Desc → Text
fq_name d = build_fq_name d.ns d.sub d.name

-- A list of HTTP results may hold two of one address and one method, whose metrics nothing tells apart.
abbrev pub AtMostOne {ℓ} : {A : Type ℓ} → List A → Type 0
AtMostOne xs = length xs ≤ 1

module _ {F : Type 0} where
  abbrev pub hist_name : Histogram F → Text
  hist_name h = build_fq_name h.opts.ns h.opts.sub h.opts.name

  abbrev pub series : Sample F → Text × List Text
  series (metric m) = (fq_name m.desc, m.label_values)
  series (histogram h) = (hist_name h, h.opts.measurement ∷ h.opts.ip_version ∷ [])

  abbrev pub Differ : Sample F → Sample F → Type 0
  Differ s t = series s ≢ series t

  -- The label values of a metric of a measurement and a probe.
  abbrev pub Labelled : Text → ℤ → Metric F → Type 0
  Labelled id k m = (x : Text) × (rest : List Text) × (m.label_values ≡ id ∷ itoa k ∷ x ∷ rest)

  pub record SeriesLaws (id : Text) (e : Exporter F) : Type 0 where
    -- each metric says the measurement and the probe
    pub labelled :
        (global : Text) (res : Result F) (p : Probe F) (r : Text × List (Metric F))
        → e.export global res (some p) ≡ done r
        → All (Labelled id p.id) r.1
    -- no two metrics of one result are of one series
    pub differ :
        (global : Text) (res : Result F) (p : Probe F) (r : Text × List (Metric F))
        → AtMostOne res.http_results
        → e.export global res (some p) ≡ done r
        → Pairwise Differ (map metric r.1)

  name_in : Text → List (Metric F) → Bool
  name_in name [] = false
  name_in name (m ∷ ms) = let rest = name_in name ms in fq_name m.desc == name || rest

  -- The names of the metrics are all different.
  unfoldable pub names_differ : List (Metric F) → Bool
  unfolding name_in
  names_differ [] = true
  names_differ (m ∷ ms) = let rest = names_differ ms in not (name_in (fq_name m.desc) ms) && rest

  name_in-false :
      (m : Metric F) (ms : List (Metric F))
      → name_in (fq_name m.desc) ms ≡ false
      → All (Differ (metric m)) (map metric ms)
  unfolding name_in
  name_in-false m [] h = tt
  name_in-false m (n ∷ ms) h = (
    λ e.
        let same : fq_name n.desc ≡ fq_name m.desc = sym (ap (λ (x : Text × List Text). x.0) e) in
        let clash : false ≡ true = ground (arith, eqb_list_iff (fq_name n.desc) (fq_name m.desc)) in
        cc,
    name_in-false m ms (ground (arith, h)),
  )

  pub names_differ-Pairwise :
      (ms : List (Metric F)) → names_differ ms ≡ true → Pairwise Differ (map metric ms)
  unfolding names_differ
  names_differ-Pairwise [] h = tt
  names_differ-Pairwise (m ∷ ms) h =
      (name_in-false m ms (ground (arith, h)), names_differ-Pairwise ms (ground (arith, h)))

pub labels_of :
    (a b c : Text) (rest vs : List Text)
    → done (a ∷ b ∷ c ∷ rest) ≡ done vs
    → (x : Text) × (more : List Text) × (vs ≡ a ∷ b ∷ x ∷ more)
labels_of a b c rest vs h = (c, rest, let same : a ∷ b ∷ c ∷ rest ≡ vs = cc in sym same)

-- The exporters that send each metric of a result with the same label values.
module _ {F : Type 0} (next : Text → Result F → Text)
    (label_values : Text → Result F → Probe F → Outcome (List Text))
    (metrics : Result F → List Text → List (Metric F)) (ds : List Desc) (id : Text)
    (labels : (global : Text) (res : Result F) (p : Probe F) (vs : List Text)
      → label_values global res p ≡ done vs
      → (x : Text) × (more : List Text) × (vs ≡ id ∷ itoa p.id ∷ x ∷ more))
    (shared : (res : Result F) (vs : List Text) → All (λ m. m.label_values ≡ vs) (metrics res vs))
    (names : (res : Result F) (vs : List Text) → names_differ (metrics res vs) ≡ true) where
  abbrev e : Exporter F
  e = record { export = labelled_export next label_values metrics; describe = ds }

  labelled :
      (global : Text) (res : Result F) (p : Probe F) (r : Text × List (Metric F))
      → e.export global res (some p) ≡ done r
      → All (Labelled id p.id) r.1
  labelled global res p r h =
      let (vs, k, f) = >>=-eq-done (label_values (next global res) res p) _ h in
      let (x, more, same) = labels (next global res) res p vs k in
      let sent : metrics res vs ≡ r.1 = cc in
      subst (All (Labelled id p.id)) sent
        (All-imp _ _ (metrics res vs) (λ m own. (x, more, own ∙ same)) (shared res vs))

  differ :
      (global : Text) (res : Result F) (p : Probe F) (r : Text × List (Metric F))
      → AtMostOne res.http_results
      → e.export global res (some p) ≡ done r
      → Pairwise Differ (map metric r.1)
  differ global res p r one h =
      let (vs, k, f) = >>=-eq-done (label_values (next global res) res p) _ h in
      let sent : metrics res vs ≡ r.1 = cc in
      subst (λ ms. Pairwise Differ (map metric ms)) sent
        (names_differ-Pairwise (metrics res vs) (names res vs))

  pub labelled-SeriesLaws : SeriesLaws id e
  labelled-SeriesLaws = record { labelled = labelled; differ = differ }
