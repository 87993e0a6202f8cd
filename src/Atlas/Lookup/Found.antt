-- ===== src/Atlas/Lookup/Found.antt =====
-- Which probes a list of results gets.
use atlas_exporter.Exporter.Measurement.Collect.{VisitOrder}
use atlas_exporter.Prelude.Dict.{Dict, lookup, insert, lookup-insert}
use atlas_exporter.Prelude.Equality.{int_eq, eq_refl, ◌==◌}
use atlas_exporter.Result.{Result}
use mathlib.Core.List.{Permᴰ}
use atlas_exporter.Prelude.Int.{ℤ}
use atlas_exporter.Prelude.{
  List, ◌∷◌, ◌≡◌, ◌||◌, [], false, arith, true, ◌∙◌, refl, Bool-cases, map, some, inl, Option-cases,
  inr, none, Option, ◌⊎◌, subst, ℕ, suc, sym,
}
use atlas_exporter.Atlas.Lookup.{
  Fetch, found_in, probe_for_id, produce, receive, probes_for_results, receive_next,
}
use atlas_exporter.Probe.Cache
use atlas_exporter.Probe.Cache.{Cache}
use atlas_exporter.Probe.Cache.Reads.{get-add}
use atlas_exporter.Probe.{Probe}

-- No id is sent twice.
abbrev pub Distinct : List ℤ → Type 0
Distinct [] = Unit
Distinct (x ∷ xs) = (found_in x xs ≡ false) × Distinct xs

found_in-Permᴰ : (j : ℤ) {xs ys : List ℤ} → Permᴰ xs ys → found_in j xs ≡ found_in j ys
unfolding found_in
found_in-Permᴰ j Permᴰ.nil = refl
found_in-Permᴰ j (Permᴰ.cons {a = a} {b = b} e p) = rw (e, found_in-Permᴰ j p)
found_in-Permᴰ j (Permᴰ.swap {a = a} {b = b} e f) = rw (e, f) (ground arith)
found_in-Permᴰ j (Permᴰ.trans p q) = found_in-Permᴰ j p ∙ found_in-Permᴰ j q

pub found_in_self : (j : ℤ) (added : List ℤ) → found_in j (j ∷ added) ≡ true
unfolding found_in
found_in_self j added = rw (eq_refl j)

pub found_in-cons : (j k : ℤ) (ks : List ℤ) → found_in j ks ≡ true → found_in j (k ∷ ks) ≡ true
unfolding found_in
found_in-cons j k ks h = ground arith

module _ {F : Type 0} where
  -- Exactly the ids of the results that were not sent before are sent.
  pub found_in-produce :
      (j : ℤ) (added : List ℤ) (ms : List (Result F))
      → found_in j added ≡ true
      → found_in j (produce added ms) ≡ false
  unfolding produce found_in
  found_in-produce j added [] h = refl
  found_in-produce j added (m ∷ ms) h = ground (
    arith,
    int_eq.beq_iff m.prb_id j,
    found_in-produce j added ms,
    found_in-produce j (m.prb_id ∷ added) ms,
  )

  -- The producer sends no id twice.
  pub produce-Distinct : (added : List ℤ) (ms : List (Result F)) → Distinct (produce added ms)
  unfolding produce
  produce-Distinct added [] = tt
  produce-Distinct added (m ∷ ms) = elim (Bool-cases (found_in m.prb_id added)) [
    | inl old ↦ rw (old, produce) (produce-Distinct added ms)
    | inr new ↦
        rw (new, produce)
          (
            found_in-produce m.prb_id (m.prb_id ∷ added) ms (found_in_self m.prb_id added),
            produce-Distinct (m.prb_id ∷ added) ms,
          )
  ]

  abbrev pub prb_ids : List (Result F) → List ℤ
  prb_ids ms = map (λ m. m.prb_id) ms

  -- The producer sends the id of each result, unless it was sent before.
  pub produce_complete :
      (j : ℤ) (added : List ℤ) (ms : List (Result F))
      → found_in j (prb_ids ms) ≡ true
      → (found_in j added || found_in j (produce added ms)) ≡ true
  unfolding produce found_in
  produce_complete j added [] h = cc
  produce_complete j added (m ∷ ms) h = ground (
    arith,
    int_eq.beq_iff m.prb_id j,
    produce_complete j added ms,
    produce_complete j (m.prb_id ∷ added) ms,
  )

  -- The API and the cache give a probe with the id that was asked for.
  abbrev pub IsOwn : Fetch F → Type 0
  IsOwn fetch = (id : ℤ) (p : Probe F) → fetch id ≡ some p → p.id ≡ id

  abbrev pub CacheIsOwn : Cache F → Type 0
  CacheIsOwn c = (t id : ℤ) (p : Probe F) → Cache.get c t id ≡ some p → p.id ≡ id

  add-CacheIsOwn :
      (c : Cache F) (now id : ℤ) (p : Probe F)
      → p.id ≡ id
      → CacheIsOwn c
      → CacheIsOwn (Cache.add c now id p)
  add-CacheIsOwn c now id p e own t j q h =
      ground (arith, get-add c id j now t p, own t j q, int_eq.beq_iff id j)

  -- The three ways in which a lookup ends.
  pub probe_for_id-hit :
      (fetch : Fetch F) (t t' : ℤ) (c : Cache F) (id : ℤ) (p : Probe F)
      → Cache.get c t id ≡ some p
      → probe_for_id fetch t t' c id ≡ (c, some p)
  unfolding probe_for_id
  probe_for_id-hit fetch t t' c id p e = rw (e, probe_for_id)

  pub probe_for_id-fetched :
      (fetch : Fetch F) (t t' : ℤ) (c : Cache F) (id : ℤ) (p : Probe F)
      → Cache.get c t id ≡ none
      → fetch id ≡ some p
      → probe_for_id fetch t t' c id ≡ (Cache.add c t' id p, some p)
  unfolding probe_for_id
  probe_for_id-fetched fetch t t' c id p e f = rw (e, f, probe_for_id)

  pub probe_for_id-error :
      (fetch : Fetch F) (t t' : ℤ) (c : Cache F) (id : ℤ)
      → Cache.get c t id ≡ none
      → fetch id ≡ none
      → probe_for_id fetch t t' c id ≡ (c, none)
  unfolding probe_for_id
  probe_for_id-error fetch t t' c id e f = rw (e, f, probe_for_id)

  -- What a lookup leaves and finds is the probe of that id.
  abbrev FindsOwn : ℤ → Cache F × Option (Probe F) → Type 0
  FindsOwn id (c, found) = CacheIsOwn c × ((p : Probe F) → found ≡ some p → p.id ≡ id)

  probe_for_id-IsOwn :
      (fetch : Fetch F) (t t' : ℤ) (c : Cache F) (id : ℤ)
      → IsOwn fetch
      → CacheIsOwn c
      → FindsOwn id (probe_for_id fetch t t' c id)
  probe_for_id-IsOwn fetch t t' c id own cached = elim (Option-cases (Cache.get c t id)) [
    | inr (p, hit) ↦
        rw (probe_for_id-hit fetch t t' c id p hit) (cached, λ q e. cached t id q (hit ∙ e))
    | inl miss ↦ elim (Option-cases (fetch id)) [
      | inl bad ↦ rw (probe_for_id-error fetch t t' c id miss bad) (cached, λ q e. cc)
      | inr (p, ok) ↦
          rw (probe_for_id-fetched fetch t t' c id p miss ok)
            (add-CacheIsOwn c t' id p (own id p ok) cached, λ q e. own id q (ok ∙ e))
    ]
  ]

  abbrev IsFound : ℤ → Dict ℤ (Probe F) → Type 0
  IsFound j probes = (p : Probe F) × (lookup j probes ≡ some p) × (p.id ≡ j)

  receive_next-IsFound :
      (j id : ℤ) (ids : List ℤ) (probes : Dict ℤ (Probe F)) (p : Probe F)
      → p.id ≡ id
      → (found_in j (id ∷ ids) ≡ true) ⊎ IsFound j probes
      → (found_in j ids ≡ true) ⊎ IsFound j (insert p.id p probes)
  unfolding found_in
  receive_next-IsFound j id ids probes p e h = elim (Bool-cases (p.id == j)) [
    | inl same ↦ inr (p, rw (lookup-insert p.id j p probes, same), (int_eq.beq_iff p.id j).0 same)
    | inr other ↦ elim h [
      | inl f ↦ inl (rw (← e, other) at f)
      | inr (q, l, o) ↦ inr (q, rw (lookup-insert p.id j p probes, other) l, o)
    ]
  ]

  -- If the loop ends without an error, each id that it received has its probe, and what was there stays.
  receive-IsFound :
      (fetch : Fetch F) (clock : ℤ → ℤ) (ids : List ℤ) (c : Cache F)
      (probes done' : Dict ℤ (Probe F)) (j : ℤ)
      → IsOwn fetch
      → CacheIsOwn c
      → (receive fetch clock ids c probes).1 ≡ some done'
      → (found_in j ids ≡ true) ⊎ IsFound j probes
      → IsFound j done'
  unfolding receive found_in
  receive-IsFound fetch clock [] c probes done' j own cached e (inl f) = cc
  receive-IsFound fetch clock [] c probes done' j own cached e (inr (p, l, o)) =
      let same : probes ≡ done' = cc in
      (p, subst (λ (d : Dict ℤ (Probe F)). lookup j d ≡ some p) same l, o)
  receive-IsFound fetch clock (id ∷ ids) c probes done' j own cached e h =
      go (λ c'. λ d. receive-IsFound fetch clock ids c' d done' j own)
        (probe_for_id fetch (clock id) (clock id) c id)
        (probe_for_id-IsOwn fetch (clock id) (clock id) c id own cached) e
    where
      go :
          ((c' : Cache F) (d : Dict ℤ (Probe F))
            → CacheIsOwn c'
            → (receive fetch clock ids c' d).1 ≡ some done'
            → (found_in j ids ≡ true) ⊎ IsFound j d
            → IsFound j done')
          → (r : Cache F × Option (Probe F)) → FindsOwn id r
          → (receive_next (receive fetch clock ids) probes r).1 ≡ some done'
          → IsFound j done'
      go ih (c', none) own' k = cc
      go ih (c', some p) own' k =
          ih c' (insert p.id p probes) own'.0 k
            (receive_next-IsFound j id ids probes p (own'.1 p refl) h)

  -- If the API and the cache give for an id only the probe with that id, there is at least one worker,
  -- and `probesForResults` returns no error, then every probe id of the results is in its map with the
  -- probe of that id, whatever the order of the answers.
  pub probes_for_results-found :
      (fetch : Fetch F) (clock : ℤ → ℤ) (arrival : VisitOrder ℤ) (workers : ℕ) (c : Cache F)
      (res : List (Result F)) (probes : Dict ℤ (Probe F)) (j : ℤ)
      → IsOwn fetch
      → CacheIsOwn c
      → (probes_for_results fetch clock arrival.visit (suc workers) c res).1 ≡ some probes
      → found_in j (prb_ids res) ≡ true
      → (p : Probe F) × (lookup j probes ≡ some p) × (p.id ≡ j)
  unfolding probes_for_results
  probes_for_results-found fetch clock arrival workers c res probes j own cached e h =
      receive-IsFound fetch clock (arrival.visit (produce [] res)) c [] probes j own cached e
        (inl (sym (found_in-Permᴰ j (arrival.visit-perm (produce [] res))) ∙ sent))
    where
      sent : found_in j (produce [] res) ≡ true
      sent = unfold found_in in produce_complete j [] res h
