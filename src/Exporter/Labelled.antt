-- ===== src/Exporter/Labelled.antt =====
-- The shape of `Export` in packages ping, traceroute, ntp, dns and sslcert, which collect the label
-- values of a result first and then send each metric with them; and when it meets the laws.
use atlas_exporter.Probe.Labels.{IsReadable}
use atlas_exporter.Exporter.Laws.{IsWellFormed, ExporterLaws}
use atlas_exporter.Prelude.{List, Option, ℕ, ◌≡◌, length, All, ◌≢◌, some, none, subst}
use atlas_exporter.Prelude.Outcome.{Outcome, ◌>>=◌, deref, done, panic, >>=-eq-done}
use atlas_exporter.Probe.{Probe}
use atlas_exporter.Result.{Result}
use atlas_exporter.Prelude.Text.{Text}
use atlas_exporter.Exporter.{Metric, Desc, Exporter}

module _ {F : Type 0} where
  abbrev pub labelled_export :
      (Text → Result F → Text)
      → (Text → Result F → Probe F → Outcome (List Text))
      → (Result F → List Text → List (Metric F))
      → Text
      → Result F
      → Option (Probe F)
      → Outcome (Text × List (Metric F))
  labelled_export next label_values metrics global res probe = do
    p ← deref probe
    values ← label_values (next global res) res p
    done (next global res, metrics res values)

module _ {F : Type 0} (next : Text → Result F → Text)
    (label_values : Text → Result F → Probe F → Outcome (List Text))
    (metrics : Result F → List Text → List (Metric F)) (ds : List Desc) (n : ℕ)
    (counted : (global : Text) (res : Result F) (p : Probe F) (vs : List Text)
      → label_values global res p ≡ done vs
      → length vs ≡ n)
    (formed : (res : Result F) (vs : List Text)
      → length vs ≡ n
      → All (IsWellFormed ds) (metrics res vs))
    (readable : (global : Text) (res : Result F) (p : Probe F)
      → length p.coordinates ≢ 1
      → (vs : List Text) × (label_values global res p ≡ done vs)) where
  abbrev e : Exporter F
  e = record { export = labelled_export next label_values metrics; describe = ds }

  abbrev Formed : Outcome (Text × List (Metric F)) → Type 0
  Formed (done r) = All (IsWellFormed ds) r.1
  Formed panic = ⊥

  consistent :
      (global : Text) (res : Result F) (probe : Option (Probe F)) {r : Text × List (Metric F)}
      → e.export global res probe ≡ done r
      → All (IsWellFormed ds) r.1
  consistent global res none h = cc
  consistent global res (some p) h =
      let (vs, k, f) = >>=-eq-done (label_values (next global res) res p) _ h in
      subst Formed f (formed res vs (counted (next global res) res p vs k))

  total :
      (global : Text) (res : Result F) (probe : Option (Probe F))
      → IsReadable probe
      → (r : Text × List (Metric F)) × (e.export global res probe ≡ done r)
  total global res none h = absurd h
  total global res (some p) h =
      let (vs, k) = readable (next global res) res p h in ((next global res, metrics res vs), rw k)

  pub labelled-Laws : ExporterLaws e
  labelled-Laws = record { consistent = consistent; total = total }
