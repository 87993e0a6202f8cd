-- ===== src/Atlas/Request/Entries.antt =====
-- What a requested measurement holds.
use atlas_exporter.Atlas.Types.Laws.{measurement_for_type-IsNew}
use mathlib.Core.List.{append_assoc, append-nil}
use atlas_exporter.Atlas.Lookup.{probes_for_results}
use atlas_exporter.Atlas.Types.{measurement_for_type}
use atlas_exporter.Prelude.Equality.{int_eq}
use atlas_exporter.Prelude.Text.{Text, itoa}
use mathlib.Core.Path.{fun_ext}
use atlas_exporter.Probe.Cache.{Cache}
use atlas_exporter.Prelude.Outcome.{done, Outcome, panic}
use atlas_exporter.Exporter.Measurement.{Measurement}
use atlas_exporter.Config.{Config}
use atlas_exporter.Probe.{Probe}
use atlas_exporter.Prelude.{
  ◌≡◌, List, none, Option, ℕ, map, ◌∷◌, some, ◌++◌, All, [], Option-cases, refl, inr, inl, ap, ◌∙◌,
  sym, subst, arith,
}
use atlas_exporter.Exporter.Measurement.Add.{add_all, Call, entry, newest, or_else, entry-add_all}
use atlas_exporter.Prelude.Int.{ℤ}
use atlas_exporter.Float.{Floats}
use atlas_exporter.Result.{Result}
use atlas_exporter.Atlas.Request.{
  add_results, read_results, Api, fill, build, get_measurement_for_id, recovered, from_results,
  fill_new,
}
use atlas_exporter.Prelude.Dict.{Dict, lookup}

module _ {F : Type 0} where
  -- The calls of `Add` for the results, each with its probe, or nil.
  abbrev pub calls_of : Dict ℤ (Probe F) → List (Result F) → List (Call F)
  calls_of probes res = map (λ r. (r, lookup r.prb_id probes)) res

  pub add_results-add_all :
      (probes : Dict ℤ (Probe F)) (res : List (Result F)) (mes : Measurement F)
      → add_results probes res mes ≡ add_all (calls_of probes res) mes
  unfolding add_results add_all
  add_results-add_all probes [] mes = refl
  add_results-add_all probes (r ∷ rs) mes = rw (fun_ext (add_results-add_all probes rs)) refl

  abbrev Parsed : Result F → Type 0
  Parsed m = m.parse_error ≡ none

  read_results-error :
      (m : Result F) (ms : List (Option (Result F))) (read : List (Result F)) (error : Text)
      → m.parse_error ≡ some error
      → read_results (some m ∷ ms) read ≡ done none
  unfolding read_results
  read_results-error m ms read error e = rw (e, read_results)

  read_results-parsed :
      (m : Result F) (ms : List (Option (Result F))) (read : List (Result F))
      → m.parse_error ≡ none
      → read_results (some m ∷ ms) read ≡ read_results ms (read ++ m ∷ [])
  unfolding read_results
  read_results-parsed m ms read e = ground arith

  -- The loop ends well only if no pointer is nil and no result has a parse error; it returns them all.
  pub read_results-some :
      (ms : List (Option (Result F))) (read out : List (Result F))
      → read_results ms read ≡ done (some out)
      → (res : List (Result F)) × (ms ≡ map some res) × (out ≡ read ++ res) × All Parsed res
  unfolding read_results
  read_results-some [] read out h =
      ([], refl, (let same : read ≡ out = cc in sym same ∙ sym (append-nil read)), tt)
  read_results-some (none ∷ ms) read out h = cc
  read_results-some (some m ∷ ms) read out h = elim (Option-cases m.parse_error) [
    | inr (error, e) ↦ let h' = sym (read_results-error m ms read error e) ∙ h in cc
    | inl ok ↦
        let (res, same, all, parsed) =
          read_results-some ms (read ++ m ∷ []) out (sym (read_results-parsed m ms read ok) ∙ h) in
        (m ∷ res, ap (◌∷◌ (some m)) same, all ∙ append_assoc read (m ∷ []) res, (ok, parsed))
  ]

  pub fill-eq-some :
      (res : List (Result F)) (new mes : Measurement F)
      (found : Cache F × Option (Dict ℤ (Probe F)))
      → (fill res new found).1 ≡ some mes
      → (probes : Dict ℤ (Probe F)) × (found.1 ≡ some probes)
        × (add_all (calls_of probes res) new ≡ done mes)
  unfolding fill
  fill-eq-some res new mes (c, none) e = cc
  fill-eq-some res new mes (c, some probes) e = (
    probes,
    refl,
    sym (add_results-add_all probes res new) ∙ done_of (add_results probes res new) e,
  )
    where
      done_of : (o : Outcome (Measurement F)) → recovered o ≡ some mes → o ≡ done mes
      done_of (done r) k = cc
      done_of panic k = cc

module _ {F : Type 0} ⦃fl : Floats F⦄ where
  -- How a measurement that is sent has come about: from results that were all parsed, of which the first
  -- says the type, and the probes that were looked up for them. For each probe the maps hold the last
  -- result that the validator passed.
  pub record IsRequested (api : Api F) (cfg : Config F) (workers : ℕ) (c : Cache F) (id : Text)
      (ms : List (Option (Result F))) (mes : Measurement F) : Type 0 where
    pub first : Result F
    pub rest : List (Result F)
    pub delivered : ms ≡ map some (first ∷ rest)
    pub parsed : All Parsed (first ∷ rest)
    pub new : Measurement F
    pub made : measurement_for_type api.digest first.type id (itoa first.af) cfg ≡ some new
    pub probes : Dict ℤ (Probe F)
    pub looked_up :
        (probes_for_results api.fetch (api.clock id) api.arrival.visit workers c (first ∷ rest)).1
        ≡ some probes
    pub entries : (j : ℤ) → entry j mes ≡ newest new.validator j (calls_of probes (first ∷ rest))

  entry_new : (new : Measurement F) (j : ℤ) → new.latest ≡ [] → entry j new ≡ none
  unfolding entry lookup
  entry_new new j e = rw e

  or_else-none : (o : Option (Call F)) → or_else o none ≡ o
  or_else-none none = refl
  or_else-none (some a) = refl

  build-IsRequested :
      (api : Api F) (cfg : Config F) (workers : ℕ) (c : Cache F) (id : Text)
      (ms : List (Option (Result F))) (first : Result F) (rest : List (Result F))
      (mes : Measurement F)
      → ms ≡ map some (first ∷ rest)
      → All Parsed (first ∷ rest)
      → (build api cfg workers c id first rest).1 ≡ some mes
      → IsRequested api cfg workers c id ms mes
  unfolding build
  build-IsRequested api cfg workers c id ms first rest mes same parsed e =
      go (measurement_for_type api.digest first.type id (itoa first.af) cfg) refl e
    where
      go :
          (o : Option (Measurement F))
          → measurement_for_type api.digest first.type id (itoa first.af) cfg ≡ o
          → (fill_new c
              (first ∷ rest)
              (probes_for_results api.fetch
                (api.clock id)
                api.arrival.visit
                workers
                c
                (first ∷ rest))
              o).1
            ≡ some mes
          → IsRequested api cfg workers c id ms mes
      go none made k = cc
      go (some new) made k =
          let (probes, looked, added) = fill-eq-some (first ∷ rest) new mes _ k in
          record {
            first = first;
            rest = rest;
            delivered = same;
            parsed = parsed;
            new = new;
            made = made;
            probes = probes;
            looked_up = looked;
            entries = λ j.
                entry-add_all (calls_of probes (first ∷ rest)) new mes j added
                ∙ rw (entry_new new j (measurement_for_type-IsNew _ _ _ _ cfg new made).0)
                    (or_else-none _);
          }

  -- If the API delivers results for an id, and `getMeasurementForID` sends a measurement, then none of
  -- the pointers that were delivered is nil, no result has a parse error, the measurement was made for
  -- the type and the address family of the first result, the probes of all results were looked up
  -- without an error, and the maps of the measurement hold for each probe the last result that the
  -- validator passed, with the probe found for its id.
  pub get_measurement_for_id-IsRequested :
      (api : Api F) (cfg : Config F) (workers : ℕ) (c : Cache F) (id : Text)
      (ms : List (Option (Result F))) (mes : Measurement F)
      → api.latest id ≡ some ms
      → (get_measurement_for_id api cfg workers c id).1 ≡ some mes
      → IsRequested api cfg workers c id ms mes
  unfolding get_measurement_for_id
  get_measurement_for_id-IsRequested api cfg workers c id ms mes e k =
      go (read_results ms []) refl (rw (e, get_measurement_for_id) at k)
    where
      go :
          (o : Outcome (Option (List (Result F))))
          → read_results ms [] ≡ o
          → (from_results api cfg workers c id o).1 ≡ some mes
          → IsRequested api cfg workers c id ms mes
      go panic r h = cc
      go (done none) r h = cc
      go (done (some [])) r h = cc
      go (done (some (first ∷ rest))) r h =
          let (res, same, all, parsed) = read_results-some ms [] (first ∷ rest) r in
          build-IsRequested api cfg workers c id ms first rest mes (same ∙ ap (map some) (sym all))
            (subst (All Parsed) (sym all) parsed) h
