-- ===== src/Atlas/Backoff/Bounds.antt =====
-- What `getRetryDelay` returns, and at which attempt its int64 shift overflows.
use atlas_exporter.Prelude.Outcome.{done, panic}
use atlas_exporter.Prelude.{
  ℕ, zero, suc, ◌*◌, ◌^◌, ◌<◌, ◌≡◌, refl, Bool, true, ◌&&◌, arith, if◌then◌else◌, ltb, ◌-◌, ◌%◌,
  ◌/◌, ◌+◌, lt→ltb, ap,
}
use atlas_exporter.Prelude.Int.{pos, eqb_ℤ, eqb_ℤ_iff, ℤ, ◌+ℤ◌, ◌-ℤ◌, ◌≤ℤ◌, ◌<ℤ◌, int_laws}
use atlas_exporter.Atlas.Backoff.{second, max_retry_delay, capped_delay, get_retry_delay}

-- A test of every number below a bound, by running it.
each_below : (ℕ → Bool) → ℕ → Bool
each_below test zero = true
each_below test (suc bound) = each_below test bound && test bound

each_below-lt :
    (test : ℕ → Bool) (bound a : ℕ) → a < bound → each_below test bound ≡ true → test a ≡ true
unfolding each_below
each_below-lt test zero a lt h = absurd (omega arith)
each_below-lt test (suc bound) a lt h = ground (arith, each_below-lt test bound a)

-- The delay that the source's comment describes: 1s, 2s, 4s, ..., capped at 60s.
unfoldable pub nominal : ℕ → ℕ
nominal a = if ltb a 6 then 2 ^ a * second else max_retry_delay

capped_delay_table :
    each_below (λ a. eqb_ℤ (capped_delay a) (pos (nominal a)) && ltb 3 (nominal a)) 34 ≡ true
unfolding each_below capped_delay nominal
capped_delay_table = refl

pub capped_delay-nominal : (a : ℕ) → a < 34 → capped_delay a ≡ pos (nominal a)
capped_delay-nominal a h =
    (eqb_ℤ_iff (capped_delay a) (pos (nominal a))).0
      (ground (arith, each_below-lt _ 34 a h capped_delay_table))

pub nominal_pos : (a : ℕ) → a < 34 → 3 < nominal a
nominal_pos a h = ground (arith, each_below-lt _ 34 a h capped_delay_table)

-- The jittered delay stands between 3/4 and 5/4 of a delay of D nanoseconds.
jittered : ℕ → ℕ → ℤ
jittered D draw = pos (D - D / 4 + draw % (D / 2))

jittered_eq : (D draw : ℕ) → 3 < D → pos D +ℤ pos (draw % (D / 2)) -ℤ pos (D / 4) ≡ jittered D draw
unfolding jittered
jittered_eq D draw h = omega int_laws

jittered_range :
    (D draw : ℕ)
    → 3 < D
    → (pos (D - D / 4) ≤ℤ jittered D draw) × (jittered D draw <ℤ pos (D - D / 4 + D / 2))
unfolding jittered
jittered_range D draw h = omega arith

-- A delay of D nanoseconds, D above 3, is jittered and returned.
get_retry_delay-pos :
    (a D draw : ℕ)
    → capped_delay a ≡ pos D
    → 3 < D
    → get_retry_delay a draw ≡ done (jittered D draw)
unfolding get_retry_delay
get_retry_delay-pos a D draw e h =
    rw (e, lt→ltb 0 (D / 2 + 0) (omega arith)) (ap done (jittered_eq D draw h))

-- At every attempt below 34 and for every random draw, `getRetryDelay` returns a delay that is at least
-- the nominal one (1s, 2s, 4s, ..., capped at 60s) less a quarter of it, and less than that plus half of
-- the nominal one.
pub get_retry_delay_bounds :
    (retry_attempt draw : ℕ)
    → retry_attempt < 34
    → let D = nominal retry_attempt in
      (d : ℤ) × (get_retry_delay retry_attempt draw ≡ done d)
      × (pos (D - D / 4) ≤ℤ d)
      × (d <ℤ pos (D - D / 4 + D / 2))
get_retry_delay_bounds a draw h =
    let D = nominal a in
    let (low, high) = jittered_range D draw (nominal_pos a h) in
    (
      jittered D draw,
      get_retry_delay-pos a D draw (capped_delay-nominal a h) (nominal_pos a h),
      low,
      high,
    )

-- At attempt 34 the shift has overflowed to a negative delay, and `rand.Int63n` panics.
pub get_retry_delay-overflow : (draw : ℕ) → get_retry_delay 34 draw ≡ panic
unfolding get_retry_delay capped_delay
get_retry_delay-overflow draw = refl
