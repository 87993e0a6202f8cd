-- ===== src/Exporter/Measurement/Add.antt =====
-- What `Add` keeps: the newest valid result of each probe, with the probe that came with it, and what
-- the histograms observe.
use atlas_exporter.Exporter.{ResultValidator}
use atlas_exporter.Prelude.Equality.{◌==◌, int_eq}
use atlas_exporter.Prelude.Dict.{lookup, lookup-insert}
use atlas_exporter.Prelude.Int.{ℤ}
use atlas_exporter.Prelude.Outcome.{Outcome, done, panic, ◌>>=◌, >>=-eq-done}
use atlas_exporter.Probe.{Probe}
use atlas_exporter.Result.{Result}
use atlas_exporter.Prelude.{
  List, Option, ◌≡◌, false, true, if◌then◌else◌, some, ◌∷◌, arith, none, Bool, ◌&&◌, [], refl, ◌∙◌,
}
use atlas_exporter.Exporter.Measurement.{Measurement, add, store, probe_at, is_valid}

-- A call of `Add`: its result, and its probe, which may be nil.
abbrev pub Call : Type 0 → Type 0
Call F = Result F × Option (Probe F)

module _ {F : Type 0} where
  -- A sequence of calls of `Add`.
  unfoldable pub add_all : List (Call F) → Measurement F → Outcome (Measurement F)
  add_all [] r = done r
  add_all (c ∷ rest) r = add r c.0 c.1 >>= add_all rest

  unfoldable pub passes : Option (ResultValidator F) → Call F → Bool
  passes v c = elim (is_valid v c.0 c.1) [ done b ↦ b | panic ↦ false ]

  -- The last call in the list for probe j that the validator passes.
  unfoldable pub newest : Option (ResultValidator F) → ℤ → List (Call F) → Option (Call F)
  newest v j [] = none
  newest v j (c ∷ rest) = elim (newest v j rest) [
    | some later ↦ some later
    | none ↦ if passes v c && c.0.prb_id == j then some c else none
  ]

  -- What the maps hold for probe j.
  unfoldable pub entry : ℤ → Measurement F → Option (Call F)
  entry j r = elim (lookup j r.latest) [ none ↦ none | some m ↦ some (m, probe_at j r.probes) ]

  abbrev pub or_else : Option (Call F) → Option (Call F) → Option (Call F)
  or_else (some a) b = some a
  or_else none b = b

  pub add-eq-done :
      (r r' : Measurement F) (c : Call F)
      → add r c.0 c.1 ≡ done r'
      → r' ≡ (if passes r.validator c then store r c.0 c.1 else r)
  unfolding add passes is_valid
  add-eq-done r r' c h = ground arith

  entry-store :
      (j : ℤ) (r : Measurement F) (c : Call F)
      → entry j (store r c.0 c.1) ≡ (if c.0.prb_id == j then some c else entry j r)
  unfolding entry store probe_at
  entry-store j r c =
      ground
        (arith, lookup-insert c.0.prb_id j c.0 r.latest, lookup-insert c.0.prb_id j c.1 r.probes)

  pub if-validator :
      (b : Bool) (r : Measurement F) (c : Call F)
      → (if b then store r c.0 c.1 else r).validator ≡ r.validator
  unfolding store
  if-validator b r c = ground arith

  entry-if :
      (j : ℤ) (b : Bool) (r : Measurement F) (c : Call F)
      → entry j (if b then store r c.0 c.1 else r)
        ≡ (if b && c.0.prb_id == j then some c else entry j r)
  entry-if j true r c = entry-store j r c
  entry-if j false r c = refl

  or_else-step :
      (later : Option (Call F)) (b : Bool) (c : Call F) (old : Option (Call F))
      → or_else later (if b then some c else old)
        ≡ or_else (elim later [ some l ↦ some l | none ↦ if b then some c else none ]) old
  or_else-step none true c old = refl
  or_else-step none false c old = refl
  or_else-step (some l) b c old = refl

  -- After any calls of `Add` that end without a panic, the maps hold for each probe the last of the
  -- results that the validator passed, with the probe that came with it; a probe of which none was
  -- passed has what it had before.
  pub entry-add_all :
      (calls : List (Call F)) (r r' : Measurement F) (j : ℤ)
      → add_all calls r ≡ done r'
      → entry j r' ≡ or_else (newest r.validator j calls) (entry j r)
  unfolding add_all newest
  entry-add_all [] r r' j h = cc
  entry-add_all (c ∷ rest) r r' j h =
      let (r₁, e, k) = >>=-eq-done (add r c.0 c.1) (add_all rest) h in
      let b = passes r.validator c in
      let s = add-eq-done r r₁ c e in
      entry-add_all rest r₁ r' j k
      ∙ rw (s, if-validator b r c, entry-if j b r c)
          (or_else-step (newest r.validator j rest) (b && c.0.prb_id == j) c (entry j r))
