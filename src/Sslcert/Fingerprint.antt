-- ===== src/Sslcert/Fingerprint.antt =====
-- Which fingerprint a result is labelled with.
use atlas_exporter.Prelude.Outcome.{done, >>=-eq-done}
use atlas_exporter.Probe.{Probe}
use atlas_exporter.Prelude.{get_elem?, List, ◌≡◌, some, [], arith, All, subst}
use atlas_exporter.Result.{Result}
use atlas_exporter.Exporter.{Metric}
use atlas_exporter.Prelude.Text.{Text}
use atlas_exporter.Sslcert.{Digest, next_fingerprint, export, metrics, label_values}
use atlas_exporter.Float.{Floats}

module _ {F : Type 0} ⦃fl : Floats F⦄ where
  -- The metric has the label value under `cert_fingerprint`, the last label.
  abbrev pub HasFingerprint : Text → Metric F → Type 0
  HasFingerprint t m = get_elem? m.label_values 8 ≡ some t

  label_values-fingerprint :
      (id t : Text) (res : Result F) (p : Probe F) (vs : List Text)
      → label_values id t res p ≡ done vs
      → get_elem? vs 8 ≡ some t
  unfolding label_values
  label_values-fingerprint id t res p vs e = ground arith

  metrics-fingerprint :
      (t : Text) (res : Result F) (vs : List Text)
      → get_elem? vs 8 ≡ some t
      → All (HasFingerprint t) (metrics res vs)
  unfolding metrics
  metrics-fingerprint t res vs e = ground arith

  next_fingerprint-nil :
      (digest : Digest) (t : Text) (res : Result F)
      → res.cert ≡ []
      → next_fingerprint digest t res ≡ t
  unfolding next_fingerprint
  next_fingerprint-nil digest t res e = rw (e, next_fingerprint)

  -- All metrics of a result carry the fingerprint that the package variable has after its first lines,
  -- and the variable keeps it for the next result.
  export-fingerprint :
      (digest : Digest) (id t : Text) (res : Result F) (p : Probe F) (r : Text × List (Metric F))
      → export digest id t res (some p) ≡ done r
      → (r.0 ≡ next_fingerprint digest t res)
        × All (HasFingerprint (next_fingerprint digest t res)) r.1
  unfolding export
  export-fingerprint digest id t res p r h =
      let u = next_fingerprint digest t res in
      let (vs, k, f) = >>=-eq-done (label_values id u res p) _ h in
      let same : metrics res vs ≡ r.1 = cc in
      (
        cc,
        subst (All (HasFingerprint u)) same
            (metrics-fingerprint u res vs (label_values-fingerprint id u res p vs k)),
      )

  -- The fingerprint is kept in a package variable, and a result with no certificate does not reset it.
  -- All metrics that are exported of a result with no certificate, for a probe that does not panic,
  -- carry the fingerprint that was set before, whatever result of whatever measurement set it, and it
  -- stays for the next result.
  pub fingerprint_leaks :
      (digest : Digest) (id cert_fingerprint : Text) (res : Result F) (p : Probe F)
      (r : Text × List (Metric F))
      → res.cert ≡ []
      → export digest id cert_fingerprint res (some p) ≡ done r
      → (r.0 ≡ cert_fingerprint) × All (HasFingerprint cert_fingerprint) r.1
  fingerprint_leaks digest id cert_fingerprint res p r e h =
      rw (next_fingerprint-nil digest cert_fingerprint res e) at
        (export-fingerprint digest id cert_fingerprint res p r h)
