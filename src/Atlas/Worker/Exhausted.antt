-- ===== src/Atlas/Worker/Exhausted.antt =====
-- The overflow of the backoff ends a worker: what happens when the stream stays unreachable.
use native.Mathlib.Decide.{dec_lt}
use atlas_exporter.Prelude.Int.{ℤ}
use atlas_exporter.Prelude.Text.{Text}
use atlas_exporter.Prelude.{List, ℕ, ◌∷◌, false, ◌≡◌, arith, [], suc, ◌<◌, ◌+◌, refl, ◌≤◌, length}
use atlas_exporter.Atlas.Worker.{
  Worker, Phase, Shared, Event, step, step_in, enter_wait, subscribe, dial, timer, wait_phase,
}
use atlas_exporter.Atlas.Backoff.Bounds.{get_retry_delay_bounds, get_retry_delay-overflow}

subscribe-false : (id : Text) → subscribe id false ≡ false
unfolding subscribe
subscribe-false id = ground arith

abbrev retried : Worker → Worker
retried w = record w { retry_attempt = suc w.retry_attempt; phase = Phase.subscribing }

module _ {F : Type 0} where
  -- Subscriptions that fail one after the other, each with its draw, and the timer after each.
  unfoldable pub outage : List ℕ → Worker → Shared F → Worker × Shared F
  outage [] w s = (w, s)
  outage (draw ∷ draws) w s =
      let (w', s') = step (dial false draw) w s in
      let (w'', s'') = step timer w' s' in outage draws w'' s''

  -- A failed subscription only starts the wait.
  dial-false :
      (draw : ℕ) (w : Worker) (s : Shared F)
      → w.phase ≡ Phase.subscribing
      → step (dial false draw) w s ≡ (enter_wait draw w, s)
  unfolding step
  dial-false draw w s e = rw (e, step_in) (rw (subscribe-false w.id))

  step-waiting :
      (d : ℤ) (w : Worker) (s : Shared F)
      → w.phase ≡ Phase.waiting d
      → step timer w s ≡ (record w { phase = Phase.subscribing }, s)
  unfolding step
  step-waiting d w s e = rw (e, step_in)

  -- A worker that has stopped takes no further step.
  pub step-stopped :
      (e : Event F) (w : Worker) (s : Shared F) → w.phase ≡ Phase.stopped → step e w s ≡ (w, s)
  unfolding step
  step-stopped e w s h = rw (h, step_in)

  outage-stopped :
      (draws : List ℕ) (w : Worker) (s : Shared F)
      → w.phase ≡ Phase.stopped
      → outage draws w s ≡ (w, s)
  unfolding outage
  outage-stopped [] w s h = refl
  outage-stopped (draw ∷ draws) w s h =
      rw (step-stopped (dial false draw) w s h)
        (rw (step-stopped timer w s h) (outage-stopped draws w s h))

  -- Below attempt 33 a failure is followed by the next try.
  outage-retried :
      (draw : ℕ) (draws : List ℕ) (w : Worker) (s : Shared F)
      → w.phase ≡ Phase.subscribing
      → suc w.retry_attempt < 34
      → outage (draw ∷ draws) w s ≡ outage draws (retried w) s
  unfolding outage
  outage-retried draw draws w s e h =
      let (d, f, low, high) = get_retry_delay_bounds (suc w.retry_attempt) draw h in
      rw (dial-false draw w s e) (
        rw (step-waiting d (enter_wait draw w) s (unfold enter_wait wait_phase in rw f))
          (unfold enter_wait in refl))

  outage-over :
      (draw : ℕ) (draws : List ℕ) (w : Worker) (s : Shared F)
      → w.phase ≡ Phase.subscribing
      → (enter_wait draw w).phase ≡ Phase.stopped
      → outage (draw ∷ draws) w s ≡ (enter_wait draw w, s)
  unfolding outage
  outage-over draw draws w s e over = rw (dial-false draw w s e) (
      rw (step-stopped timer (enter_wait draw w) s over)
        (outage-stopped draws (enter_wait draw w) s over))

  outage-last :
      (draw : ℕ) (draws : List ℕ) (w : Worker) (s : Shared F)
      → w.phase ≡ Phase.subscribing
      → w.retry_attempt ≡ 33
      → (outage (draw ∷ draws) w s).0.phase ≡ Phase.stopped
  outage-last draw draws w s e h = rw (outage-over draw draws w s e over) over
    where
      over : (enter_wait draw w).phase ≡ Phase.stopped
      over = unfold enter_wait wait_phase in rw (h, get_retry_delay-overflow draw)

  -- A worker that is about to subscribe with fewer than 34 attempts counted, and that meets a row of
  -- failed subscriptions that brings the count to 34 or more, has stopped at the end, whatever the
  -- random draws: the overflowed delay makes `rand.Int63n` panic, and `run` returns.
  pub outage_stops :
      (draws : List ℕ) (w : Worker) (s : Shared F)
      → w.phase ≡ Phase.subscribing
      → w.retry_attempt < 34
      → 34 ≤ w.retry_attempt + length draws
      → (outage draws w s).0.phase ≡ Phase.stopped
  outage_stops [] w s e h k = absurd (omega arith)
  outage_stops (draw ∷ draws) w s e h k = elim (dec_lt (suc w.retry_attempt) 34) [
    | yes more ↦
        rw (outage-retried draw draws w s e more)
          (outage_stops draws (retried w) s refl more (omega arith))
    | no over ↦ outage-last draw draws w s e (omega arith)
  ]

  -- A worker that is about to subscribe, and that meets a row of failed subscriptions with which the
  -- count stays below 34, is about to subscribe again at the end, and has counted each of them.
  pub outage_retries :
      (draws : List ℕ) (w : Worker) (s : Shared F)
      → w.phase ≡ Phase.subscribing
      → w.retry_attempt + length draws < 34
      → ((outage draws w s).0.phase ≡ Phase.subscribing)
        × ((outage draws w s).0.retry_attempt ≡ w.retry_attempt + length draws)
  outage_retries [] w s e h = (unfold outage in e, unfold outage in omega arith)
  outage_retries (draw ∷ draws) w s e h =
      let (again, counted) = outage_retries draws (retried w) s refl (omega arith) in
      rw (outage-retried draw draws w s e (omega arith)) (again, omega arith)
