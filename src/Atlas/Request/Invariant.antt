-- ===== src/Atlas/Request/Invariant.antt =====
-- What `Add` keeps of a measurement holds of every measurement that is requested.
use atlas_exporter.Prelude.Equality.{int_eq}
use atlas_exporter.Atlas.Types.{measurement_for_type}
use atlas_exporter.Atlas.Lookup.Found.{
  prb_ids, probes_for_results-found, found_in_self, found_in-cons,
}
use atlas_exporter.Atlas.Request.Entries.{read_results-some, calls_of, fill-eq-some}
use atlas_exporter.Exporter.Measurement.Collect.{VisitOrder}
use atlas_exporter.Probe.{Probe}
use atlas_exporter.Probe.Labels.{HasLabels}
use atlas_exporter.Prelude.Outcome.{done, Outcome, panic}
use atlas_exporter.Prelude.Int.{ℤ}
use atlas_exporter.Atlas.Lookup.Values.{Caches, Fetches, probes_for_results-Gives, IsOf}
use atlas_exporter.Config.{Config}
use atlas_exporter.Atlas.Lookup.{Fetch, found_in, probes_for_results}
use atlas_exporter.Prelude.Dict.{Dict, lookup}
use atlas_exporter.Probe.Cache.{Cache}
use atlas_exporter.Exporter.Measurement.{Measurement}
use atlas_exporter.Prelude.Text.{Text, itoa}
use atlas_exporter.Atlas.Request.{
  Api, read_results, fill, build, get_measurement_for_id, send_all, from_results, fill_new,
}
use atlas_exporter.Prelude.{
  Option, List, some, ◌≡◌, All, map, none, ◌∷◌, [], ℕ, subst, suc, sym, true, Pairwise, ◌≢◌,
  Option-cases, ap, inl, refl, inr,
}
use atlas_exporter.Float.{Floats}
use atlas_exporter.Result.{Result}
use atlas_exporter.Atlas.Types.Kept.{Keeps, IsGoodCall, add_all-kept}
use atlas_exporter.Collector.Series.{Named, measurement_of, OtherId}

module _ {F : Type 0} (R : Result F → Type 0) where
  abbrev pub IfSome : Option (Result F) → Type 0
  IfSome none = Unit
  IfSome (some m) = R m

  -- All results that the API delivers have the property.
  abbrev pub Delivers : Api F → Type 0
  Delivers api =
      (id : Text) (ms : List (Option (Result F))) → api.latest id ≡ some ms → All IfSome ms

  delivered-All : (res : List (Result F)) → All IfSome (map some res) → All R res
  delivered-All [] h = tt
  delivered-All (r ∷ rs) h = (h.0, delivered-All rs h.1)

  read_results-All :
      (ms : List (Option (Result F))) (out : List (Result F))
      → All IfSome ms
      → read_results ms [] ≡ done (some out)
      → All R out
  read_results-All ms out h e =
      let (res, same, all, _) = read_results-some ms [] out e in
      subst (All R) (sym all) (delivered-All res (subst (All IfSome) same h))

module _ {F : Type 0} ⦃fl : Floats F⦄ (P : Text → Measurement F → Type 0)
    (R : Result F → Type 0) where
  abbrev pub Serves : Text → Cache F × Option (Measurement F) → Type 0
  Serves id (c, sent) = Caches HasLabels c × ((mes : Measurement F) → sent ≡ some mes → P id mes)

  all-good :
      (probes : Dict ℤ (Probe F)) (res : List (Result F))
      → All R res
      → ((j : ℤ)
          → found_in j (prb_ids res) ≡ true
          → (p : Probe F) × (lookup j probes ≡ some p) × IsOf HasLabels j p)
      → All (IsGoodCall P R) (calls_of probes res)
  all-good probes [] ok f = tt
  all-good probes (r ∷ rs) ok f =
      let (p, e, own) = f r.prb_id (found_in_self r.prb_id (prb_ids rs)) in
      (
        (p, e, own, ok.0),
        all-good probes rs ok.1 (λ j h. f j (found_in-cons j r.prb_id (prb_ids rs) h)),
      )

  found-good :
      (fetch : Fetch F) (clock : ℤ → ℤ) (arrival : VisitOrder ℤ) (workers : ℕ) (c : Cache F)
      (res : List (Result F)) (probes : Dict ℤ (Probe F))
      → Fetches HasLabels fetch
      → Caches HasLabels c
      → All R res
      → (probes_for_results fetch clock arrival.visit (suc workers) c res).1 ≡ some probes
      → All (IsGoodCall P R) (calls_of probes res)
  found-good fetch clock arrival workers c res probes good cached ok e =
      all-good probes res ok λ j h.
        let (p, found, own) =
          probes_for_results-found fetch clock arrival workers c res probes j
            (λ id p k. (good id p k).0) (λ t id p k. (cached t id p k).0) e h in
        (
          p,
          found,
          (probes_for_results-Gives HasLabels fetch clock arrival.visit (suc workers) c res good
                cached).1
              probes e j p found,
        )

  module _ (keeps : Keeps P R) where
    fill-Serves :
        (id : Text) (res : List (Result F)) (new : Measurement F)
        (found : Cache F × Option (Dict ℤ (Probe F)))
        → P id new
        → Caches HasLabels found.0
        → ((probes : Dict ℤ (Probe F))
            → found.1 ≡ some probes
            → All (IsGoodCall P R) (calls_of probes res))
        → Serves id (fill res new found)
    unfolding fill
    fill-Serves id res new (c, none) s cached f = (cached, λ mes e. cc)
    fill-Serves id res new (c, some probes) s cached f = (
      cached,
      λ mes e.
          let (d, k, added) = fill-eq-some res new mes (c, some probes) e in
          add_all-kept P R id (calls_of d res) new mes keeps (f d k) s added,
    )

    module _ (api : Api F) (cfg : Config F) (workers : ℕ) (good : Fetches HasLabels api.fetch)
        (delivered : Delivers R api) where
      build-Serves :
          (c : Cache F) (id : Text) (first : Result F) (rest : List (Result F))
          → Caches HasLabels c
          → All R (first ∷ rest)
          → Serves id (build api cfg (suc workers) c id first rest)
      unfolding build
      build-Serves c id first rest cached ok =
          go (measurement_for_type api.digest first.type id (itoa first.af) cfg) refl
        where
          found : Cache F × Option (Dict ℤ (Probe F))
          found =
              probes_for_results api.fetch (api.clock id) api.arrival.visit (suc workers) c
                (first ∷ rest)

          go :
              (o : Option (Measurement F))
              → measurement_for_type api.digest first.type id (itoa first.af) cfg ≡ o
              → Serves id (
                  fill_new c
                    (first ∷ rest)
                    (probes_for_results api.fetch
                      (api.clock id)
                      api.arrival.visit
                      (suc workers)
                      c
                      (first ∷ rest))
                    o)
          go none made = (cached, λ mes e. cc)
          go (some new) made =
              fill-Serves id (first ∷ rest) new _ (keeps.new _ _ id _ cfg new made)
                (probes_for_results-Gives HasLabels api.fetch (api.clock id) api.arrival.visit
                  (suc workers) c (first ∷ rest) good cached).0
                (λ probes e.
                  found-good api.fetch (api.clock id) api.arrival workers c (first ∷ rest) probes
                    good cached ok e)

      get_measurement_for_id-Serves :
          (c : Cache F) (id : Text)
          → Caches HasLabels c
          → Serves id (get_measurement_for_id api cfg (suc workers) c id)
      unfolding get_measurement_for_id
      get_measurement_for_id-Serves c id cached = elim (Option-cases (api.latest id)) [
        | inl bad ↦ rw (bad, get_measurement_for_id) (cached, λ mes e. cc)
        | inr (ms, ok) ↦
            rw (ok, get_measurement_for_id)
              (go (read_results ms []) (λ out. read_results-All R ms out (delivered id ms ok)))
      ]
        where
          go :
              (o : Outcome (Option (List (Result F))))
              → ((out : List (Result F)) → o ≡ done (some out) → All R out)
              → Serves id (from_results api cfg (suc workers) c id o)
          go panic ok = (cached, λ mes e. cc)
          go (done none) ok = (cached, λ mes e. cc)
          go (done (some [])) ok = (cached, λ mes e. cc)
          go (done (some (first ∷ rest))) ok =
              build-Serves c id first rest cached (ok (first ∷ rest) refl)

      -- What is sent, with the ids of the measurements.
      pub send_all-named :
          (c : Cache F) (ids : List Text)
          → Caches HasLabels c
          → let (c', sent) = send_all api cfg (suc workers) c ids in
            Caches HasLabels c'
            × ((named : Named F) × (map measurement_of named ≡ sent)
                × All (λ (e : Text × Measurement F). P e.0 e.1) named
                × (Pairwise (λ a b. a ≢ b) ids → Pairwise OtherId named)
                × ((id : Text)
                    → All (λ b. id ≢ b) ids
                    → All (λ (e : Text × Measurement F). id ≢ e.0) named))
      unfolding send_all
      send_all-named c [] cached = (cached, ([], refl, tt, (λ h. tt), λ id h. tt))
      send_all-named c (id ∷ ids) cached =
          let got = get_measurement_for_id api cfg (suc workers) c id in
          let (cached', one) = get_measurement_for_id-Serves c id cached in
          let (cached'', (named, same, all, apart, among)) = send_all-named got.0 ids cached' in
          (cached'', go got.1 one named same all apart among)
        where
          go :
              (sent : Option (Measurement F))
              → ((mes : Measurement F) → sent ≡ some mes → P id mes)
              → (named : Named F) {more : List (Measurement F)} → map measurement_of named ≡ more
              → All (λ (e : Text × Measurement F). P e.0 e.1) named
              → (Pairwise (λ a b. a ≢ b) ids → Pairwise OtherId named)
              → ((i : Text)
                  → All (λ b. i ≢ b) ids
                  → All (λ (e : Text × Measurement F). i ≢ e.0) named)
              → (named : Named F) × (map measurement_of named
                  ≡ (elim sent [ none ↦ more | some mes ↦ mes ∷ more ]))
                × All (λ (e : Text × Measurement F). P e.0 e.1) named
                × (Pairwise (λ a b. a ≢ b) (id ∷ ids) → Pairwise OtherId named)
                × ((i : Text)
                    → All (λ b. i ≢ b) (id ∷ ids)
                    → All (λ (e : Text × Measurement F). i ≢ e.0) named)
          go none one named same all apart among =
              (named, same, all, λ h. apart h.1, λ i h. among i h.1)
          go (some mes) one named same all apart among = (
            (id, mes) ∷ named,
            ap (◌∷◌ mes) same,
            (one mes refl, all),
            (λ h. (among id h.0, apart h.1)),
            λ i h. (h.0, among i h.1),
          )
