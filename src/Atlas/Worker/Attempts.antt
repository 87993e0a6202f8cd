-- ===== src/Atlas/Worker/Attempts.antt =====
-- How long a worker waits, whatever happens to it.
use atlas_exporter.Result.{Result}
use native.Mathlib.Decide.{dec_lt}
use atlas_exporter.Prelude.{
  ℕ, ◌<◌, ◌*◌, suc, ◌≤◌, arith, zero, ◌≡◌, Bool, refl, if◌then◌else◌, ◌++◌, true, ◌∷◌, some, false,
  [], none,
}
use atlas_exporter.Prelude.Int.{ℤ, pos, ◌≤ℤ◌, ◌<ℤ◌}
use atlas_exporter.Atlas.Worker.{
  Worker, Phase, Shared, Event, step, enter_wait, wait_phase, connect, disconnect, step_in, dial,
  subscribe, deliver, is_disconnect, close, cancel, timer,
}
use atlas_exporter.Atlas.Backoff.{second, get_retry_delay}
use atlas_exporter.Atlas.Backoff.Bounds.{nominal, get_retry_delay_bounds, get_retry_delay-overflow}

-- From 1.5 to 75 seconds.
abbrev pub InRange : ℤ → Type 0
InRange d = (pos 1500000000 ≤ℤ d) × (d <ℤ pos (75 * second))

-- What is true of the attempt counter in each phase.
abbrev pub Fits : Phase → ℕ → Type 0
Fits Phase.subscribing a = a < 34
Fits Phase.listening a = a < 34
Fits (Phase.waiting d) a = (0 < a) × (a < 34) × InRange d
Fits Phase.stopped a = Unit

abbrev pub IsBounded : Worker → Type 0
IsBounded w = Fits w.phase w.retry_attempt

nominal_range : (a : ℕ) → 0 < a → (2 * second ≤ nominal a) × (nominal a ≤ 60 * second)
unfolding nominal
nominal_range zero h = elim h [ ]
nominal_range (suc zero) h = omega arith
nominal_range (suc (suc zero)) h = omega arith
nominal_range (suc (suc (suc zero))) h = omega arith
nominal_range (suc (suc (suc (suc zero)))) h = omega arith
nominal_range (suc (suc (suc (suc (suc zero))))) h = omega arith
nominal_range (suc (suc (suc (suc (suc (suc a)))))) h = ground arith

-- At the attempt after a number below 34 the worker waits, or its counter has passed 33.
wait_phase-Fits : (a draw : ℕ) → a < 34 → Fits (wait_phase (get_retry_delay (suc a) draw)) (suc a)
unfolding wait_phase
wait_phase-Fits a draw h = elim (dec_lt (suc a) 34) [
  | yes more ↦
      let (d, e, low, high) = get_retry_delay_bounds (suc a) draw more in
      rw e (
        omega arith,
        more,
        (omega (arith, nominal_range (suc a)), omega (arith, nominal_range (suc a))),
      )
  | no over ↦ let last : suc a ≡ 34 = omega arith in rw (last, get_retry_delay-overflow draw) tt
]

enter_wait-IsBounded :
    (draw : ℕ) (w : Worker) → w.retry_attempt < 34 → IsBounded (enter_wait draw w)
unfolding enter_wait
enter_wait-IsBounded draw w h = wait_phase-Fits w.retry_attempt draw h

module _ {F : Type 0} where
  dial-IsBounded :
      (accepted : Bool) (draw : ℕ) (w : Worker) (s : Shared F)
      → w.retry_attempt < 34
      → IsBounded (if accepted then connect w s else (enter_wait draw w, s)).0
  unfolding connect
  dial-IsBounded true draw w s h = omega arith
  dial-IsBounded false draw w s h = enter_wait-IsBounded draw w h

  deliver-IsBounded :
      (b : Bool) (m : Result F) (draw : ℕ) (w : Worker) (s : Shared F)
      → w.retry_attempt < 34
      → IsBounded w
      → IsBounded (if b then disconnect draw w s else (w, record s { queue = s.queue ++ m ∷ [] })).0
  unfolding disconnect
  deliver-IsBounded true m draw w s h k = enter_wait-IsBounded draw w h
  deliver-IsBounded false m draw w s h k = k

  step_in-IsBounded :
      (ph : Phase) (e : Event F) (w : Worker) (s : Shared F)
      → w.phase ≡ ph
      → Fits ph w.retry_attempt
      → IsBounded (step_in ph e w s).0
  unfolding step_in disconnect
  step_in-IsBounded Phase.subscribing (dial accepted draw) w s eq h =
      dial-IsBounded (subscribe w.id accepted) draw w s h
  step_in-IsBounded Phase.listening (deliver none draw) w s eq h = rw eq h
  step_in-IsBounded Phase.listening (deliver (some m) draw) w s eq h =
      deliver-IsBounded (is_disconnect m.parse_error) m draw w s h (rw eq h)
  step_in-IsBounded Phase.listening (close draw) w s eq h = enter_wait-IsBounded draw w h
  step_in-IsBounded Phase.listening (cancel draw) w s eq h = enter_wait-IsBounded draw w h
  step_in-IsBounded (Phase.waiting d) timer w s eq h = h.1
  step_in-IsBounded (Phase.waiting d) (cancel draw) w s eq h = tt
  step_in-IsBounded _ _ w s eq h = rw eq h

  -- Every step keeps the bounds: a worker that has not stopped has counted at most 33 attempts, and
  -- whenever it waits, it waits at least 1.5 and less than 75 seconds.
  pub step-IsBounded :
      (e : Event F) (w : Worker) (s : Shared F) → IsBounded w → IsBounded (step e w s).0
  unfolding step
  step-IsBounded e w s h = step_in-IsBounded w.phase e w s refl h
