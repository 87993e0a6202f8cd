-- ===== src/Atlas/Worker/Start.antt =====
-- atlas/stream_strategy.go, `start`: the workers at the start, and what /readyz may conclude from them.
use atlas_exporter.Atlas.Backoff.{get_retry_delay}
use atlas_exporter.Atlas.Stream.Health.{is_healthy_iff}
use atlas_exporter.Atlas.Stream.{is_healthy}
use atlas_exporter.Prelude.Outcome.{Outcome, done, panic}
use atlas_exporter.Atlas.Stream.{Strategy}
use atlas_exporter.Atlas.Worker.Attempts.{IsBounded}
use atlas_exporter.Prelude.Int.{pos, ℤ, pos_part, neg_part, ltb_ℤ, negsuc}
use atlas_exporter.Config.{MeasurementConfig}
use atlas_exporter.Float.{Floats}
use atlas_exporter.Atlas.Worker.Connected.{listening_count, run, run-Counts}
use atlas_exporter.Atlas.Worker.{
  Shared, step, Event, enter_wait, Worker, cancel, Phase, step_in, wait_phase, disconnect, dial,
  connect, subscribe,
}
use atlas_exporter.Prelude.{
  List, [], ◌≡◌, All, ℕ, ◌∷◌, arith, refl, true, ◌<◌, suc, ap, Bool, ◌≢◌, if◌then◌else◌, sym, ◌∙◌,
  false, ltb, ◌↔◌, ◌^◌, ◌||◌, ◌≤◌, ◌⊎◌, ◌-◌, Bool-cases, inl, inr,
}

-- The conversion of a uint of 64 bits to int.
unfoldable pub int_of_uint : ℕ → ℤ
int_of_uint n = if ltb n (2 ^ 63) then pos n else negsuc (2 ^ 64 - 1 - n)

-- `make(chan ..., int(bufferSize))`, which panics for a negative capacity and for one that is greater than
-- `limit`, the greatest that it can provide.
unfoldable pub make_chan : ℕ → ℕ → Outcome (Unit {0})
unfolding int_of_uint
make_chan limit buffer_size =
    let capacity = int_of_uint buffer_size in
    if ltb_ℤ capacity (pos 0) || ltb_ℤ (pos limit) capacity then panic else done tt

pub make_chan-panic_iff :
    (limit buffer_size : ℕ)
    → (make_chan limit buffer_size ≡ panic)
      ↔ ((9223372036854775808 ≤ buffer_size) ⊎ (limit < buffer_size))
unfolding make_chan int_of_uint
make_chan-panic_iff limit buffer_size = elim (Bool-cases (ltb buffer_size (2 ^ 63))) [
  | inl small ↦ rw small (ground arith)
  | inr big ↦ rw big (ground arith)
]

-- One worker for each configured measurement.
unfoldable pub start : List MeasurementConfig → List Worker
start [] = []
start (m ∷ ms) = record { id = m.id; retry_attempt = 0; phase = Phase.subscribing } ∷ start ms

-- What the workers share when the strategy has been made.
unfoldable pub idle : {F : Type 0} → Shared F
idle = record { connected_workers = pos 0; stream_connected = []; queue = [] }

listening_count-start : (ms : List MeasurementConfig) → listening_count (start ms) ≡ 0
unfolding listening_count start
listening_count-start [] = refl
listening_count-start (m ∷ ms) = omega (arith, listening_count-start ms)

pub start-IsBounded : (ms : List MeasurementConfig) → All IsBounded (start ms)
unfolding start
start-IsBounded [] = tt
start-IsBounded (m ∷ ms) = (omega arith, start-IsBounded ms)

module _ {F : Type 0} ⦃fl : Floats F⦄ where
  -- When /readyz reports that the streaming strategy is healthy, after whatever interleaving of the
  -- events of the workers that `start` launches, at least one of them listens to a stream.
  pub is_healthy-listening :
      (ms : List MeasurementConfig) (events : List (ℕ × Event F)) (s : Strategy F) (now : ℤ)
      → is_healthy
          (record s { connected_workers = (run events (start ms) idle).1.connected_workers })
          now
        ≡ true
      → 0 < listening_count (run events (start ms) idle).0
  unfolding idle
  is_healthy-listening ms events s now h =
      let counted = run-Counts events (start ms) idle (rw (listening_count-start ms)) in
      let some_connected = ((is_healthy_iff _ now).0 h).0 in
      omega (arith, ap pos_part counted, ap neg_part counted)

abbrev IsEnding : Phase → Type 0
IsEnding (Phase.waiting d) = Unit
IsEnding Phase.stopped = Unit
IsEnding _ = ⊥

wait_phase-IsEnding : (o : Outcome ℤ) → IsEnding (wait_phase o)
unfolding wait_phase
wait_phase-IsEnding (done d) = tt
wait_phase-IsEnding panic = tt

enter_wait-IsEnding : (draw : ℕ) (w : Worker) → IsEnding (enter_wait draw w).phase
unfolding enter_wait
enter_wait-IsEnding draw w = wait_phase-IsEnding (get_retry_delay (suc w.retry_attempt) draw)

ending-ne-subscribing : (ph : Phase) → IsEnding ph → ph ≢ Phase.subscribing
ending-ne-subscribing Phase.subscribing h e = h
ending-ne-subscribing Phase.listening h e = h
ending-ne-subscribing (Phase.waiting d) h e = cc
ending-ne-subscribing Phase.stopped h e = cc

module _ {F : Type 0} where
  abbrev pub after : List (Event F) → Worker → Shared F → Worker
  after [] w s = w
  after (e ∷ es) w s = after es (step e w s).0 (step e w s).1

  -- A worker that waits sees in its `select` that the context is done.
  ending-stops :
      (ph : Phase) (draw : ℕ) (w : Worker) (s : Shared F)
      → w.phase ≡ ph
      → IsEnding ph
      → (step_in ph (cancel draw) w s).0.phase ≡ Phase.stopped
  unfolding step_in
  ending-stops Phase.subscribing draw w s e h = absurd h
  ending-stops Phase.listening draw w s e h = absurd h
  ending-stops (Phase.waiting d) draw w s e h = refl
  ending-stops Phase.stopped draw w s e h = e

  cancel-IsEnding :
      (ph : Phase) (draw : ℕ) (w : Worker) (s : Shared F)
      → w.phase ≡ ph
      → ph ≢ Phase.subscribing
      → IsEnding (step_in ph (cancel draw) w s).0.phase
  unfolding step_in disconnect
  cancel-IsEnding Phase.subscribing draw w s e h = absurd (h refl)
  cancel-IsEnding Phase.listening draw w s e h = enter_wait-IsEnding draw w
  cancel-IsEnding (Phase.waiting d) draw w s e h = tt
  cancel-IsEnding Phase.stopped draw w s e h = rw e tt

  dial-ne-subscribing :
      (ph : Phase) (accepted : Bool) (draw : ℕ) (w : Worker) (s : Shared F)
      → w.phase ≡ ph
      → (step_in ph (dial accepted draw) w s).0.phase ≢ Phase.subscribing
  unfolding step_in connect
  dial-ne-subscribing Phase.subscribing accepted draw w s e h = go (subscribe w.id accepted) h
    where
      go :
          (b : Bool)
          → (if b then connect w s else (enter_wait draw w, s)).0.phase ≢ Phase.subscribing
      go true h = cc
      go false h = ending-ne-subscribing _ (enter_wait-IsEnding draw w) h
  dial-ne-subscribing Phase.listening accepted draw w s e h = let k = sym e ∙ h in cc
  dial-ne-subscribing (Phase.waiting d) accepted draw w s e h = let k = sym e ∙ h in cc
  dial-ne-subscribing Phase.stopped accepted draw w s e h = let k = sym e ∙ h in cc

  -- Once the context is done a worker ends: whatever its state was, after the dial that may be under way
  -- and at most two steps that see the end of the context it has stopped, whatever the answer of the
  -- dial and the random draws.
  pub cancelled_stops :
      (accepted : Bool) (draw draw' draw'' : ℕ) (w : Worker) (s : Shared F)
      → (after (dial accepted draw ∷ cancel draw' ∷ cancel draw'' ∷ []) w s).phase ≡ Phase.stopped
  unfolding step
  cancelled_stops accepted draw draw' draw'' w s =
      let (w₁, s₁) = step (dial accepted draw) w s in
      let (w₂, s₂) = step (cancel draw') w₁ s₁ in
      ending-stops w₂.phase draw'' w₂ s₂ refl (
        cancel-IsEnding w₁.phase draw' w₁ s₁ refl
          (dial-ne-subscribing w.phase accepted draw w s refl))
