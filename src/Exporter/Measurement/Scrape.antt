-- ===== src/Exporter/Measurement/Scrape.antt =====
-- When a scrape of a measurement succeeds, and what its samples look like.
use atlas_exporter.Prelude.Text.{Text}
use atlas_exporter.Exporter.{Exporter, Metric}
use atlas_exporter.Prelude.Outcome.{done, >>=-eq-done}
use atlas_exporter.Exporter.Measurement.Add.{add_all, Call, add-eq-done, passes}
use atlas_exporter.Prelude.Equality.{int_eq, ◌==◌, eq_refl}
use atlas_exporter.Probe.Labels.{IsReadable}
use atlas_exporter.Probe.{Probe}
use atlas_exporter.Result.{Result}
use atlas_exporter.Prelude.Int.{ℤ}
use atlas_exporter.Prelude.Dict.{Dict, insert, lookup-insert, values}
use atlas_exporter.Prelude.{
  List, All, Option, ◌≡◌, subst, if◌then◌else◌, Bool, arith, true, refl, false, ◌∷◌, Bool-cases,
  inl, All-imp, [], inr, ◌∙◌, ◌++◌, All-append, map, sym, All-Permᴰ,
}
use atlas_exporter.Exporter.Measurement.{
  Measurement, collect, probe_at, store, add, export_results, metric, export_one, histogram,
  is_stale,
}
use atlas_exporter.Exporter.Measurement.Collect.{VisitOrder}
use atlas_exporter.Exporter.Laws.{ExporterLaws, IsWellFormed}

module _ {F : Type 0} where
  -- An entry of the map of the latest results: it stands under the id of its probe, and the probe
  -- that was stored with it can be exported.
  abbrev pub EntryOk : Dict ℤ (Option (Probe F)) → ℤ × Result F → Type 0
  EntryOk probes (k, m) = (m.prb_id ≡ k) × IsReadable (probe_at k probes)

  abbrev pub IsSound : Measurement F → Type 0
  IsSound r = All (EntryOk r.probes) r.latest

  pub probe_at-insert :
      (probes : Dict ℤ (Option (Probe F))) (id k : ℤ) (p : Option (Probe F))
      → probe_at k (insert id p probes) ≡ (if id == k then p else probe_at k probes)
  unfolding probe_at
  probe_at-insert probes id k p = ground (arith, lookup-insert id k p probes)

  if-IsReadable :
      (b : Bool) (p q : Option (Probe F))
      → IsReadable p
      → IsReadable q
      → IsReadable (if b then p else q)
  if-IsReadable true p q h k = h
  if-IsReadable false p q h k = k

  EntryOk-insert :
      (probes : Dict ℤ (Option (Probe F))) (id : ℤ) (p : Option (Probe F)) (e : ℤ × Result F)
      → IsReadable p
      → EntryOk probes e
      → EntryOk (insert id p probes) e
  EntryOk-insert probes id p (k, m) h ok = (
    ok.0,
    rw (probe_at-insert probes id k p) (if-IsReadable (id == k) p (probe_at k probes) h ok.1),
  )

  pub All-insert :
      (P Q : ℤ × Result F → Type 0) (k : ℤ) (v : Result F) (m : Dict ℤ (Result F))
      → ((e : ℤ × Result F) → P e → Q e)
      → Q (k, v)
      → All P m
      → All Q (insert k v m)
  unfolding insert
  All-insert P Q k v [] f q h = (q, tt)
  All-insert P Q k v ((j, w) ∷ m) f q h = elim (Bool-cases (j == k)) [
    | inl same ↦ rw same (q, All-imp P Q m f h.1)
    | inr other ↦ rw other (f (j, w) h.0, All-insert P Q k v m f q h.1)
  ]

  -- Storing a result whose probe can be exported keeps every stored probe exportable.
  pub store-IsSound :
      (r : Measurement F) (m : Result F) (p : Option (Probe F))
      → IsReadable p
      → IsSound r
      → IsSound (store r m p)
  unfolding store
  store-IsSound r m p h s =
      All-insert (EntryOk r.probes) (EntryOk (insert m.prb_id p r.probes)) m.prb_id m r.latest
        (λ e. EntryOk-insert r.probes m.prb_id p e h)
        (refl, rw (probe_at-insert r.probes m.prb_id m.prb_id p, eq_refl m.prb_id) h) s

  if-IsSound :
      (e : Exporter F) (b : Bool) (r : Measurement F) (c : Call F)
      → IsReadable c.1
      → IsSound r × (r.exporter ≡ e)
      → let r' = if b then store r c.0 c.1 else r in IsSound r' × (r'.exporter ≡ e)
  if-IsSound e true r c h k = (store-IsSound r c.0 c.1 h k.0, store-exporter r c ∙ k.1)
    where
      store-exporter : (r : Measurement F) (c : Call F) → (store r c.0 c.1).exporter ≡ r.exporter
      store-exporter r c = unfold store in refl
  if-IsSound e false r c h k = k

  pub add_all-IsSound :
      (e : Exporter F) (calls : List (Call F)) (r r' : Measurement F)
      → All (λ c. IsReadable c.1) calls
      → add_all calls r ≡ done r'
      → IsSound r × (r.exporter ≡ e)
      → IsSound r' × (r'.exporter ≡ e)
  unfolding add_all
  add_all-IsSound e [] r r' h a k =
      let same : r ≡ r' = cc in subst (λ (q : Measurement F). IsSound q × (q.exporter ≡ e)) same k
  add_all-IsSound e (c ∷ rest) r r' h a k =
      let (r₁, f, g) = >>=-eq-done (add r c.0 c.1) (add_all rest) a in
      add_all-IsSound e rest r₁ r' h.1 g
        (rw (add-eq-done r r₁ c f) (if-IsSound e (passes r.validator c) r c h.0 k))

  exportable :
      (probes : Dict ℤ (Option (Probe F))) (latest : Dict ℤ (Result F))
      → All (EntryOk probes) latest
      → All (λ v. IsReadable (probe_at v.prb_id probes)) (values latest)
  exportable probes [] h = tt
  exportable probes ((k, m) ∷ rest) h = (rw h.0.0 h.0.1, exportable probes rest h.1)

  -- The loop ends without a panic, and its metrics are well formed.
  export_results_total :
      (r : Measurement F) (clock : Result F → ℤ) (vs : List (Result F)) (global : Text)
      → ExporterLaws r.exporter
      → All (λ v. IsReadable (probe_at v.prb_id r.probes)) vs
      → (out : Text × List (Metric F)) × (export_results r clock vs global ≡ done out)
        × All (IsWellFormed r.exporter.describe) out.1
  unfolding export_results export_one
  export_results_total r clock [] global laws h = ((global, []), refl, tt)
  export_results_total r clock (v ∷ vs) global laws h =
      elim (Bool-cases (is_stale r.max_result_age (clock v) v)) [
        | inl stale ↦ rw (stale, export_results) (export_results_total r clock vs global laws h.1)
        | inr fresh ↦
            let (one, e) = laws.total global v (probe_at v.prb_id r.probes) h.0 in
            let (out, f, ok) = export_results_total r clock vs one.0 laws h.1 in
            (
              (out.0, one.1 ++ out.1),
              rw (fresh, export_results) (rw (e, export_one) (rw f)),
              All-append _ one.1 out.1 (laws.consistent global v _ e) ok,
            )
      ]

  -- Take a measurement whose exporter meets the laws of the interface and whose entries stand under the
  -- ids of their probes with readable probes. After any calls of `Add` that end without a panic and
  -- bring readable probes, `Collect` ends without a panic in whatever order the map is visited and at
  -- whatever times the clock shows; it sends metrics that are all well formed, and then the histograms.
  pub collect-add_all :
      (r r' : Measurement F) (calls : List (Call F)) (order : VisitOrder (Result F))
      (clock : Result F → ℤ) (global : Text)
      → ExporterLaws r.exporter
      → IsSound r
      → All (λ c. IsReadable c.1) calls
      → add_all calls r ≡ done r'
      → (global' : Text) × (ms : List (Metric F)) × (collect r' order.visit clock global
          ≡ done (global', map metric ms ++ map histogram r'.histograms))
        × All (IsWellFormed r.exporter.describe) ms
  unfolding collect
  collect-add_all r r' calls order clock global laws s h a =
      let (s', same) = add_all-IsSound r.exporter calls r r' h a (s, refl) in
      let vs = order.visit (values r'.latest) in
      let (out, e, ok) =
        export_results_total r' clock vs global (subst ExporterLaws (sym same) laws)
          (All-Permᴰ _ (order.visit-perm (values r'.latest)) (exportable r'.probes r'.latest s')) in
      (out.0, out.1, rw e, subst (λ (x : Exporter F). All (IsWellFormed x.describe) out.1) same ok)

  -- The exporter meets the laws, and every entry has a probe that can be exported.
  abbrev pub IsServable : Measurement F → Type 0
  IsServable mes = ExporterLaws mes.exporter × IsSound mes

  pub add-IsServable :
      (mes mes' : Measurement F) (m : Result F) (p : Option (Probe F))
      → IsReadable p
      → IsServable mes
      → add mes m p ≡ done mes'
      → IsServable mes'
  add-IsServable mes mes' m p h s e =
      let (sound, same) =
        add_all-IsSound mes.exporter ((m, p) ∷ []) mes mes' (h, tt) (unfold add_all in rw e)
          (s.1, refl) in
      (subst ExporterLaws (sym same) s.0, sound)
