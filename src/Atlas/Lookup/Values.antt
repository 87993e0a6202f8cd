-- ===== src/Atlas/Lookup/Values.antt =====
-- What is known of all probes of the API and the cache, which give for an id only the probe with that
-- id, is known of all probes that are looked up.
use atlas_exporter.Atlas.Lookup.Found.{probe_for_id-hit, probe_for_id-error, probe_for_id-fetched}
use atlas_exporter.Probe.Cache.Reads.{get-add}
use atlas_exporter.Result.{Result}
use atlas_exporter.Prelude.Equality.{◌==◌, int_eq}
use atlas_exporter.Prelude.{
  ◌≡◌, Option, List, some, Option-cases, subst, ℕ, inl, ◌∷◌, ◌∙◌, inr, none, Bool, [],
  if◌then◌else◌, suc, refl, true, false, zero,
}
use atlas_exporter.Prelude.Int.{ℤ, ltb_ℤ, ◌+ℤ◌}
use atlas_exporter.Prelude.Dict.{Dict, lookup, insert, lookup-insert}
use atlas_exporter.Probe.Cache.{Cache}
use atlas_exporter.Atlas.Lookup.{
  Fetch, receive, probes_for_results, probe_for_id, receive_next, produce,
}
use atlas_exporter.Probe.{Probe}
use atlas_exporter.Probe.Cache

module _ {F : Type 0} (P : Probe F → Type 0) where
  -- The probe with that id, and the property.
  abbrev pub IsOf : ℤ → Probe F → Type 0
  IsOf id p = (p.id ≡ id) × P p

  abbrev pub Fetches : Fetch F → Type 0
  Fetches fetch = (id : ℤ) (p : Probe F) → fetch id ≡ some p → IsOf id p

  abbrev pub Caches : Cache F → Type 0
  Caches c = (t id : ℤ) (p : Probe F) → Cache.get c t id ≡ some p → IsOf id p

  abbrev pub Holds : Dict ℤ (Probe F) → Type 0
  Holds probes = (j : ℤ) (p : Probe F) → lookup j probes ≡ some p → IsOf j p

  abbrev Known : ℤ → Option (Probe F) → Type 0
  Known id o = (q : Probe F) → o ≡ some q → IsOf id q

  Known-some : (id : ℤ) (p : Probe F) → IsOf id p → Known id (some p)
  Known-some id p h q e = let same : p ≡ q = cc in subst (IsOf id) same h

  Known-none : (id : ℤ) → Known id none
  Known-none id q e = cc

  Known-if :
      (id : ℤ) (b : Bool) (o o' : Option (Probe F))
      → (b ≡ true → Known id o)
      → Known id o'
      → Known id (if b then o else o')
  Known-if id true o o' h k = h refl
  Known-if id false o o' h k = k

  add-Caches :
      (c : Cache F) (now id : ℤ) (p : Probe F)
      → IsOf id p
      → Caches c
      → Caches (Cache.add c now id p)
  add-Caches c now id p k h t j = rw (get-add c id j now t p) (
      Known-if j (id == j) _ _
        (λ same.
          Known-if j (ltb_ℤ t (now +ℤ c.ttl)) _ _
            (λ _. Known-some j p (k.0 ∙ (int_eq.beq_iff id j).0 same, k.1)) (Known-none j))
        (h t j))

  abbrev pub Finds : ℤ → Cache F × Option (Probe F) → Type 0
  Finds id (c, found) = Caches c × ((p : Probe F) → found ≡ some p → IsOf id p)

  pub probe_for_id-Finds :
      (fetch : Fetch F) (t t' : ℤ) (c : Cache F) (id : ℤ)
      → Fetches fetch
      → Caches c
      → Finds id (probe_for_id fetch t t' c id)
  probe_for_id-Finds fetch t t' c id good cached = elim (Option-cases (Cache.get c t id)) [
    | inr (p, hit) ↦
        rw (probe_for_id-hit fetch t t' c id p hit) (cached, λ q e. cached t id q (hit ∙ e))
    | inl miss ↦ elim (Option-cases (fetch id)) [
      | inl bad ↦ rw (probe_for_id-error fetch t t' c id miss bad) (cached, λ q e. cc)
      | inr (p, ok) ↦
          rw (probe_for_id-fetched fetch t t' c id p miss ok)
            (add-Caches c t' id p (good id p ok) cached, λ q e. good id q (ok ∙ e))
    ]
  ]

  insert-Holds :
      (p : Probe F) (probes : Dict ℤ (Probe F)) → P p → Holds probes → Holds (insert p.id p probes)
  insert-Holds p probes h all j = rw (lookup-insert p.id j p probes) (
      Known-if j (p.id == j) _ _ (λ same. Known-some j p ((int_eq.beq_iff p.id j).0 same, h))
        (all j))

  Holds-nil : Holds []
  Holds-nil j = unfold lookup in Known-none j

  Holds-some : (d probes : Dict ℤ (Probe F)) → Holds d → some d ≡ some probes → Holds probes
  Holds-some d probes h e = let same : d ≡ probes = cc in subst Holds same h

  abbrev Gives : Cache F × Option (Dict ℤ (Probe F)) → Type 0
  Gives (c, found) = Caches c × ((probes : Dict ℤ (Probe F)) → found ≡ some probes → Holds probes)

  receive-Gives :
      (fetch : Fetch F) (clock : ℤ → ℤ) (ids : List ℤ) (c : Cache F) (probes : Dict ℤ (Probe F))
      → Fetches fetch
      → Caches c
      → Holds probes
      → Gives (receive fetch clock ids c probes)
  unfolding receive
  receive-Gives fetch clock [] c probes good cached all = (cached, λ d. Holds-some probes d all)
  receive-Gives fetch clock (id ∷ ids) c probes good cached all =
      go (λ c' d. receive-Gives fetch clock ids c' d good)
        (probe_for_id fetch (clock id) (clock id) c id)
        (probe_for_id-Finds fetch (clock id) (clock id) c id good cached)
    where
      go :
          ((c' : Cache F) (d : Dict ℤ (Probe F))
            → Caches c'
            → Holds d
            → Gives (receive fetch clock ids c' d))
          → (r : Cache F × Option (Probe F)) → Finds id r
          → Gives (receive_next (receive fetch clock ids) probes r)
      go ih (c', none) f = (f.0, λ d e. cc)
      go ih (c', some p) f =
          ih c' (insert p.id p probes) f.0 (insert-Holds p probes (f.1 p refl).1 all)

  -- Whatever the number of workers.
  pub probes_for_results-Gives :
      (fetch : Fetch F) (clock : ℤ → ℤ) (arrival : List ℤ → List ℤ) (workers : ℕ) (c : Cache F)
      (res : List (Result F))
      → Fetches fetch
      → Caches c
      → Gives (probes_for_results fetch clock arrival workers c res)
  unfolding probes_for_results
  probes_for_results-Gives fetch clock arrival zero c res good cached =
      (cached, λ d. Holds-some [] d Holds-nil)
  probes_for_results-Gives fetch clock arrival (suc workers) c res good cached =
      receive-Gives fetch clock (arrival (produce [] res)) c [] good cached Holds-nil
