-- ===== src/Atlas/Stream/Processor.antt =====
-- atlas/stream_strategy.go, `processMeasurementResults`: the loop around the handler of one result, with
-- its recovery from panics.
use atlas_exporter.Prelude.{
  Bool, List, ◌≡◌, false, true, ◌∷◌, ◌&&◌, [], refl, ℕ, Bool-cases, ◌+◌, inl, arith, inr, map,
  length, ◌≤◌,
}
use atlas_exporter.Prelude.Outcome.{Outcome, done, panic}
use mathlib.Core.List.{Sublistᴰ}
use atlas_exporter.Result.{Result}

-- Each result that is sent comes with whether it is in the channel already when the loop looks for it
-- after a panic. `handle` is `processMeasurementResult`.
module _ {F S : Type 0} (handle : S → Result F → S × Outcome (Unit {0})) where
  abbrev pub panicked : Outcome (Unit {0}) → Bool
  panicked (done _) = false
  panicked panic = true

  -- `recovering` says that the last call of the handler panicked: the `select` that follows receives a
  -- result that is there, and goes on.
  unfoldable pub process_measurement_results : Bool → List (Result F × Bool) → S → S
  process_measurement_results recovering [] s = s
  process_measurement_results recovering ((r, ready) ∷ rest) s = elim (recovering && ready) [
    | true ↦ process_measurement_results false rest s
    | false ↦ process_measurement_results (panicked (handle s r).1) rest (handle s r).0
  ]

  -- The state after these results, each handled once, and how many of them the handler panicked at.
  abbrev pub after : List (Result F) → S → S
  after [] s = s
  after (r ∷ rs) s = after rs (handle s r).0

  abbrev pub one_if : Bool → ℕ
  one_if true = 1
  one_if false = 0

  abbrev pub panics : List (Result F) → S → ℕ
  panics [] s = 0
  panics (r ∷ rs) s = one_if (panicked (handle s r).1) + panics rs (handle s r).0

  -- How many of the results are there already when the loop looks for them.
  abbrev pub readies : List (Result F × Bool) → ℕ
  readies [] = 0
  readies ((_, ready) ∷ rest) = one_if ready + readies rest

  -- What a run of the loop amounts to.
  abbrev pub Handles : Bool → List (Result F × Bool) → S → S → Type 0
  Handles recovering rs s s' =
      (ws : List (Result F)) × Sublistᴰ ws (map (λ (r : Result F × Bool). r.0) rs)
      × (s' ≡ after ws s)
      × (length rs ≤ length ws + panics ws s + one_if recovering)
      × (length rs ≤ length ws + readies rs)

  run-Handles :
      (recovering : Bool) (rs : List (Result F × Bool)) (s : S)
      → Handles recovering rs s (process_measurement_results recovering rs s)
  unfolding process_measurement_results
  run-Handles recovering [] s = ([], Sublistᴰ.slnil, refl, omega arith, omega arith)
  run-Handles recovering ((r, ready) ∷ rest) s = elim (Bool-cases (recovering && ready)) [
    | inl lost ↦
        let (ws, among, same, count, there) = run-Handles false rest s in
        let was : recovering ≡ true = ground (arith, lost) in
        let is_ready : ready ≡ true = ground (arith, lost) in
        (
          ws,
          Sublistᴰ.cons among,
          rw (lost, process_measurement_results) same,
          rw was (omega (arith, count)),
          rw is_ready (omega (arith, there)),
        )
    | inr seen ↦
        let (ws, among, same, count, there) =
          run-Handles (panicked (handle s r).1) rest (handle s r).0 in
        (
          r ∷ ws,
          Sublistᴰ.cons-cons refl among,
          rw (seen, process_measurement_results) same,
          omega (arith, count),
          omega (arith, there),
        )
  ]

  -- Whatever the handler does, the state that the processor reaches is that of handling some of the
  -- results, each once and in their order, and those that it leaves out are not more than the panics of
  -- the handler at those that it handles: a panic loses at most one other result. Nor are they more than
  -- the results that are there already when the loop looks for them.
  pub processed-after :
      (rs : List (Result F × Bool)) (s : S)
      → (ws : List (Result F)) × Sublistᴰ ws (map (λ (r : Result F × Bool). r.0) rs)
        × (process_measurement_results false rs s ≡ after ws s)
        × (length rs ≤ length ws + panics ws s)
        × (length rs ≤ length ws + readies rs)
  processed-after rs s =
      let (ws, among, same, count, there) = run-Handles false rs s in
      (ws, among, same, omega (arith, count), there)
