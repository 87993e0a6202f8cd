-- ===== src/Atlas/Stream/Isolation.antt =====
-- atlas/stream_strategy.go: each measurement of the streaming strategy is built from its own results.
use atlas_exporter.Atlas.Types.{measurement_for_type}
use atlas_exporter.Prelude.Outcome.{done, Outcome-cases, ◌>>=◌, >>=-eq-done}
use atlas_exporter.Prelude.Equality.{◌==◌, list_eq, nat_eq, eq_refl}
use atlas_exporter.Probe.{Probe}
use atlas_exporter.Result.{Result}
use atlas_exporter.Prelude.Dict.{lookup, lookup-insert}
use atlas_exporter.Prelude.{
  List, ◌∷◌, ◌≡◌, Option, if◌then◌else◌, some, [], false, ◌∙◌, Option-cases, inl, inr, true, refl,
  Bool-cases, subst, sym, none,
}
use atlas_exporter.Exporter.Measurement.Add.{add_all, Call}
use atlas_exporter.Atlas.Stream.{put, add_to, add, Strategy, measurement_for}
use atlas_exporter.Prelude.Text.{Text, itoa}
use atlas_exporter.Sslcert.{Digest}
use atlas_exporter.Exporter.Measurement
use atlas_exporter.Exporter.Measurement.{Measurement}
use atlas_exporter.Float.{Floats}

module _ {F : Type 0} ⦃fl : Floats F⦄ where
  -- The results in the order in which they are processed; a panic is recovered by the loop around.
  unfoldable pub add_stream : Digest → List (Call F) → Strategy F → Strategy F
  add_stream digest [] s = s
  add_stream digest (c ∷ rest) s = add_stream digest rest (add digest s c.0 c.1).0

  -- The results of the measurement with this ID.
  unfoldable pub results_of : Text → List (Call F) → List (Call F)
  results_of id [] = []
  results_of id (c ∷ rest) =
      let others = results_of id rest in if itoa c.0.msm_id == id then c ∷ others else others

  lookup-put :
      (s : Strategy F) (msm j : Text) (mes : Measurement F)
      → lookup j (put s msm mes).measurements
        ≡ (if msm == j then some mes else lookup j s.measurements)
  unfolding put
  lookup-put s msm j mes = lookup-insert msm j mes s.measurements

  lookup-add_to :
      (s : Strategy F) (msm j : Text) (mes : Measurement F) (m : Result F) (p : Option (Probe F))
      → (msm == j) ≡ false
      → lookup j (add_to s msm mes m p).0.measurements ≡ lookup j s.measurements
  unfolding add_to
  lookup-add_to s msm j mes m p h = elim (Outcome-cases (Measurement.add mes m p)) [
    | inl bad ↦ rw (bad, add_to) (lookup-put s msm j mes ∙ rw h)
    | inr (mes', good) ↦ rw (good, add_to) (lookup-put s msm j mes' ∙ rw h)
  ]

  lookup-add_other :
      (digest : Digest) (s : Strategy F) (j : Text) (m : Result F) (p : Option (Probe F))
      → (itoa m.msm_id == j) ≡ false
      → lookup j (add digest s m p).0.measurements ≡ lookup j s.measurements
  unfolding add
  lookup-add_other digest s j m p h = elim (Option-cases (measurement_for digest s m)) [
    | inl unknown ↦ rw (unknown, add)
    | inr (mes, e) ↦ rw (e, add) (lookup-add_to s (itoa m.msm_id) j mes m p h)
  ]

  pub measurement_for-new :
      (digest : Digest) (s : Strategy F) (m : Result F)
      → lookup (itoa m.msm_id) s.measurements ≡ none
      → measurement_for digest s m
        ≡ measurement_for_type digest m.type (itoa m.msm_id) (itoa m.af) s.cfg
  unfolding measurement_for
  measurement_for-new digest s m h = rw (h, measurement_for) refl

  pub measurement_for-found :
      (digest : Digest) (s : Strategy F) (m : Result F) (mes : Measurement F)
      → lookup (itoa m.msm_id) s.measurements ≡ some mes
      → measurement_for digest s m ≡ some mes
  unfolding measurement_for
  measurement_for-found digest s m mes h = rw (h, measurement_for) refl

  lookup-add_own :
      (digest : Digest) (s : Strategy F) (m : Result F) (p : Option (Probe F))
      (mes mes' : Measurement F)
      → lookup (itoa m.msm_id) s.measurements ≡ some mes
      → Measurement.add mes m p ≡ done mes'
      → lookup (itoa m.msm_id) (add digest s m p).0.measurements ≡ some mes'
  unfolding add
  lookup-add_own digest s m p mes mes' h e =
      let id = itoa m.msm_id in
      rw (measurement_for-found digest s m mes h, add)
        (rw (e, add_to) (lookup-put s id id mes' ∙ rw (eq_refl id)))

  -- When results of many measurements are added to the streaming strategy, a measurement that it has
  -- already is at the end exactly what the calls of `Add` for its own results, in their order and with
  -- no panic, make of it: results of other measurements, even those whose `Add` panics or whose type is
  -- unknown, do not touch it.
  pub add_stream-add_all :
      (digest : Digest) (calls : List (Call F)) (s : Strategy F) (id : Text)
      (mes mes' : Measurement F)
      → lookup id s.measurements ≡ some mes
      → add_all (results_of id calls) mes ≡ done mes'
      → lookup id (add_stream digest calls s).measurements ≡ some mes'
  unfolding add_stream results_of add_all
  add_stream-add_all digest [] s id mes mes' h e = h ∙ cc e
  add_stream-add_all digest (c ∷ rest) s id mes mes' h e =
      elim (Bool-cases (itoa c.0.msm_id == id)) [
        | inl own ↦
            let same : itoa c.0.msm_id ≡ id = (list_eq.beq_iff _ _).0 own in
            let (mes₁, f, g) =
              >>=-eq-done (Measurement.add mes c.0 c.1) (add_all (results_of id rest))
                (chosen own e) in
            let now : lookup id (add digest s c.0 c.1).0.measurements ≡ some mes₁ =
              subst (λ k. lookup k (add digest s c.0 c.1).0.measurements ≡ some mes₁) same
                (lookup-add_own digest s c.0 c.1 mes mes₁
                  (subst (λ k. lookup k s.measurements ≡ some mes) (sym same) h) f) in
            add_stream-add_all digest rest _ id mes₁ mes' now g
        | inr other ↦
            add_stream-add_all digest rest _ id mes mes'
              (lookup-add_other digest s id c.0 c.1 other ∙ h) (left_out other e)
      ]
    where
      chosen :
          (itoa c.0.msm_id == id) ≡ true
          → add_all (results_of id (c ∷ rest)) mes ≡ done mes'
          → (Measurement.add mes c.0 c.1 >>= add_all (results_of id rest)) ≡ done mes'
      chosen own a =
          let kept : results_of id (c ∷ rest) ≡ c ∷ results_of id rest =
            rw (own, results_of) refl in
          subst (λ cs. add_all cs mes ≡ done mes') kept a

      left_out :
          (itoa c.0.msm_id == id) ≡ false
          → add_all (results_of id (c ∷ rest)) mes ≡ done mes'
          → add_all (results_of id rest) mes ≡ done mes'
      left_out other a =
          let gone : results_of id (c ∷ rest) ≡ results_of id rest = rw (other, results_of) refl in
          subst (λ cs. add_all cs mes ≡ done mes') gone a
