-- ===== src/Exporter/Measurement/Collect.antt =====
-- What `Collect` sends.
use mathlib.Core.Path.{fun_ext}
use mathlib.Core.List.{Permᴰ}
use atlas_exporter.Prelude.Text.{Text}
use atlas_exporter.Result.{Result}
use atlas_exporter.Prelude.Int.{
  ℤ, pos, ◌<ℤ◌, ◌+ℤ◌, ◌-ℤ◌, negsuc, ltb_ℤ_iff, pos_part, ltb_ℤ, neg_part, -ℤ_parts, +ℤ_parts,
  eq_of_parts,
}
use atlas_exporter.Prelude.{
  List, ◌∷◌, ◌≡◌, false, Bool-cases, [], arith, inl, inr, refl, ap, ℕ, true, ◌↔◌, ◌*◌, ◌/◌, ◌<◌,
  ◌+◌, ◌-◌,
}
use atlas_exporter.Exporter.Measurement.{Measurement, is_stale, export_results, export_one}

-- The order in which Go visits a map is unspecified, but each entry is visited once.
pub record VisitOrder (A : Type 0) : Type 0 where
  pub visit : List A → List A
  pub visit-perm : (xs : List A) → Permᴰ xs (visit xs)

-- More than whole seconds is more than the nanoseconds that were rounded down to them.
whole_seconds-old :
    (n : ℕ) (t now : ℤ)
    → (t <ℤ now -ℤ pos (n / 1000000000)) ↔ ((m : ℕ) × (t +ℤ pos m ≡ now) × (n < m * 1000000000))
whole_seconds-old n t now =
    let q = n / 1000000000 in
    (
      (λ h.
          let m = pos_part now + neg_part t - (neg_part now + pos_part t) in
          let parts = -ℤ_parts now (pos q) in
          let sum = +ℤ_parts t (pos m) in
          (
            m,
            eq_of_parts (t +ℤ pos m) now (omega (arith, h, parts, sum)),
            omega (arith, h, parts),
          )),
      (λ (m, e, h).
          let parts = -ℤ_parts now (pos q) in
          let sum = +ℤ_parts t (pos m) in
          omega (arith, h, parts, sum, ap pos_part e, ap neg_part e)),
    )

module _ {F : Type 0} where
  -- With a maximal age in nanoseconds, a result of a Unix time in seconds is too old if it is `m` seconds
  -- old, and these are more nanoseconds.
  abbrev pub TooOld : ℤ → ℤ → Result F → Type 0
  TooOld age now v =
      (pos 0 <ℤ age) × (m : ℕ) × (v.timestamp +ℤ pos m ≡ now) × (age <ℤ pos (m * 1000000000))

  -- The results without those that are too old when they are reached.
  pub data Young (age : ℤ) (clock : Result F → ℤ) : List (Result F) → List (Result F) → Type 0 where
    nil : Young age clock [] []
    drop :
        (v : Result F) {vs ws : List (Result F)}
        → TooOld age (clock v) v
        → Young age clock vs ws
        → Young age clock (v ∷ vs) ws
    keep :
        (v : Result F) {vs ws : List (Result F)}
        → ¬ (TooOld age (clock v) v)
        → Young age clock vs ws
        → Young age clock (v ∷ vs) (v ∷ ws)

  is_stale_iff : (age now : ℤ) (v : Result F) → (is_stale age now v ≡ true) ↔ TooOld age now v
  unfolding is_stale
  is_stale_iff (negsuc n) now v =
      (λ h. absurd (ground (arith, h)), λ h. absurd (omega (arith, h.0)))
  is_stale_iff (pos n) now v =
      let old = whole_seconds-old n v.timestamp now in
      let test = ltb_ℤ_iff v.timestamp (now -ℤ pos (n / 1000000000)) in
      let some_age = ltb_ℤ_iff (pos 0) (pos n) in
      (
        (λ h.
            let late : ltb_ℤ v.timestamp (now -ℤ pos (n / 1000000000)) ≡ true = ground (arith, h) in
            let aged : ltb_ℤ (pos 0) (pos n) ≡ true = ground (arith, h) in
            let (m, e, k) = old.0 (test.0 late) in (some_age.0 aged, m, e, omega (arith, k))),
        (λ (a, m, e, k).
            let late = test.1 (old.1 (m, e, omega (arith, k))) in
            let aged = some_age.1 a in rw (aged, late) refl),
      )

  is_stale-zero : (now : ℤ) (v : Result F) → is_stale (pos 0) now v ≡ false
  unfolding is_stale
  is_stale-zero now v = ground arith

  -- The loop of `Collect` does with any results what it does, with no maximal age, with those among them
  -- that are not too old when they are reached, in their order. A result is too old if the maximal age
  -- is positive, and the result was made so many whole seconds before the clock that these are, in
  -- nanoseconds, more than the maximal age.
  pub export_results-Young :
      (r : Measurement F) (clock : Result F → ℤ) (vs : List (Result F))
      → (ws : List (Result F)) × Young r.max_result_age clock vs ws
        × ((global : Text)
            → export_results r clock vs global
              ≡ export_results (record r { max_result_age = pos 0 }) clock ws global)
  unfolding export_results
  export_results-Young r clock [] = ([], nil, λ global. refl)
  export_results-Young r clock (v ∷ vs) =
      let (ws, young, same) = export_results-Young r clock vs in
      elim (Bool-cases (is_stale r.max_result_age (clock v) v)) [
        | inl stale ↦ (
          ws,
          drop v ((is_stale_iff r.max_result_age (clock v) v).0 stale) young,
          λ global. rw (stale, export_results) (same global),
        )
        | inr fresh ↦ (
          v ∷ ws,
          keep v (λ old. let stale = (is_stale_iff r.max_result_age (clock v) v).1 old in cc) young,
          λ global.
              rw (fresh, export_results)
                (rw (is_stale-zero (clock v) v, export_results)
                  (ap (export_one r.exporter r.probes global v) (fun_ext same))),
        )
      ]
