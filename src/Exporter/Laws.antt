-- ===== src/Exporter/Laws.antt =====
-- What a measurement relies on in the exporter that it is given.
use atlas_exporter.Probe.Labels.{IsReadable}
use atlas_exporter.Prelude.Outcome.{done}
use atlas_exporter.Probe.{Probe}
use atlas_exporter.Result.{Result}
use atlas_exporter.Prelude.Text.{Text}
use atlas_exporter.Prelude.{List, ◌∷◌, length, ◌≡◌, Option, ◌⊎◌, [], All, inl, subst, sym, inr}
use atlas_exporter.Exporter.{Desc, Metric, Exporter}

abbrev pub In : {A : Type 0} → A → List A → Type 0
In d [] = ⊥
In d (x ∷ xs) = (d ≡ x) ⊎ In d xs

pub All-In : {A : Type 0} (P : A → Type 0) (xs : List A) (a : A) → All P xs → In a xs → P a
All-In P [] a h m = absurd m
All-In P (x ∷ xs) a h (inl e) = subst P (sym e) h.0
All-In P (x ∷ xs) a h (inr m) = All-In P xs a h.1 m

module _ {F : Type 0} where
  -- The metric is of a described kind, and has a value for each label of its description, without
  -- which prometheus.MustNewConstMetric panics.
  pub record IsWellFormed (ds : List Desc) (m : Metric F) : Type 0 where
    pub described : In m.desc ds
    pub labelled : length m.label_values ≡ length m.desc.labels

  pub record ExporterLaws (e : Exporter F) : Type 0 where
    -- every metric that is exported is well formed
    pub consistent :
        (global : Text) (res : Result F) (probe : Option (Probe F)) {r : Text × List (Metric F)}
        → e.export global res probe ≡ done r
        → All (IsWellFormed e.describe) r.1
    -- a readable probe is exported without a panic
    pub total :
        (global : Text) (res : Result F) (probe : Option (Probe F))
        → IsReadable probe
        → (r : Text × List (Metric F)) × (e.export global res probe ≡ done r)
