-- ===== src/Atlas/Worker/Connected.antt =====
-- Several workers that share one strategy, in any interleaving of their steps.
use atlas_exporter.Atlas.Backoff.{get_retry_delay}
use atlas_exporter.Prelude.Int.{int_laws, pos, ℤ, pos_part, eq_of_parts, neg_part}
use atlas_exporter.Prelude.Outcome.{Outcome, done, panic}
use atlas_exporter.Prelude.{
  ℕ, List, ◌≡◌, ◌∷◌, Bool, refl, ◌+◌, if◌then◌else◌, suc, [], true, zero, some, false, none, arith,
  All, ap,
}
use atlas_exporter.Atlas.Worker.{
  Worker, Phase, Shared, Event, step, step_in, connect, disconnect, enter_wait, dial, subscribe,
  wait_phase, deliver, is_disconnect, close, cancel, timer,
}
use atlas_exporter.Atlas.Worker.Attempts.{IsBounded, step-IsBounded}

abbrev pub listens : Phase → ℕ
listens Phase.listening = 1
listens _ = 0

unfoldable pub listening_count : List Worker → ℕ
listening_count [] = 0
listening_count (w ∷ ws) = listens w.phase + listening_count ws

-- Entering the `select` is not listening.
pub enter_wait-listens : (draw : ℕ) (w : Worker) → listens (enter_wait draw w).phase ≡ 0
unfolding enter_wait
enter_wait-listens draw w = go (get_retry_delay (suc w.retry_attempt) draw)
  where
    go : (o : Outcome ℤ) → listens (wait_phase o) ≡ 0
    go (done d) = unfold wait_phase in refl
    go panic = unfold wait_phase in refl

-- The counter changes from c to c' by as much as the number of listeners from n to n'.
abbrev Moves : ℤ → ℕ → ℤ → ℕ → Type 0
Moves c n c' n' = pos_part c' + neg_part c + n ≡ neg_part c' + pos_part c + n'

module _ {F : Type 0} where
  abbrev Balanced : ℕ → Shared F → Worker × Shared F → Type 0
  Balanced before s (w', s') =
      Moves s.connected_workers before s'.connected_workers (listens w'.phase)

  disconnect-Balanced : (draw : ℕ) (w : Worker) (s : Shared F) → Balanced 1 s (disconnect draw w s)
  unfolding disconnect
  disconnect-Balanced draw w s = rw (enter_wait-listens draw w) (omega int_laws)

  if-Balanced :
      (before : ℕ) (s : Shared F) (b : Bool) (x y : Worker × Shared F)
      → Balanced before s x
      → Balanced before s y
      → Balanced before s (if b then x else y)
  if-Balanced before s true x y h k = h
  if-Balanced before s false x y h k = k

  step_in-Balanced :
      (ph : Phase) (e : Event F) (w : Worker) (s : Shared F)
      → w.phase ≡ ph
      → Balanced (listens ph) s (step_in ph e w s)
  unfolding step_in connect
  step_in-Balanced Phase.subscribing (dial accepted draw) w s eq =
      if-Balanced 0 s (subscribe w.id accepted) _ _ (omega int_laws)
        (rw (enter_wait-listens draw w) (omega arith))
  step_in-Balanced Phase.listening (deliver none draw) w s eq = rw eq (omega arith)
  step_in-Balanced Phase.listening (deliver (some m) draw) w s eq =
      if-Balanced 1 s (is_disconnect m.parse_error) _ _ (disconnect-Balanced draw w s)
        (rw eq (omega arith))
  step_in-Balanced Phase.listening (close draw) w s eq = disconnect-Balanced draw w s
  step_in-Balanced Phase.listening (cancel draw) w s eq = disconnect-Balanced draw w s
  step_in-Balanced (Phase.waiting d) timer w s eq = omega arith
  step_in-Balanced (Phase.waiting d) (cancel draw) w s eq = omega arith
  step_in-Balanced _ _ w s eq = rw eq (omega arith)

  step-Balanced :
      (e : Event F) (w : Worker) (s : Shared F) → Balanced (listens w.phase) s (step e w s)
  unfolding step
  step-Balanced e w s = step_in-Balanced w.phase e w s refl

  -- The worker at index i takes a step; with no such worker nothing happens.
  unfoldable pub step_at : ℕ → Event F → List Worker → Shared F → List Worker × Shared F
  step_at i e [] s = ([], s)
  step_at zero e (w ∷ ws) s = let (w', s') = step e w s in (w' ∷ ws, s')
  step_at (suc i) e (w ∷ ws) s = let (ws', s') = step_at i e ws s in (w ∷ ws', s')

  -- Any interleaving: each entry names a worker and its event.
  unfoldable pub run : List (ℕ × Event F) → List Worker → Shared F → List Worker × Shared F
  run [] ws s = (ws, s)
  run ((i, e) ∷ rest) ws s = let (ws', s') = step_at i e ws s in run rest ws' s'

  abbrev pub Counts : List Worker → Shared F → Type 0
  Counts ws s = s.connected_workers ≡ pos (listening_count ws)

  step_at-Moves :
      (i : ℕ) (e : Event F) (ws : List Worker) (s : Shared F)
      → let (ws', s') = step_at i e ws s in
        Moves s.connected_workers (listening_count ws) s'.connected_workers (listening_count ws')
  unfolding step_at listening_count
  step_at-Moves i e [] s = omega arith
  step_at-Moves zero e (w ∷ ws) s = omega (arith, step-Balanced e w s)
  step_at-Moves (suc i) e (w ∷ ws) s = omega (arith, step_at-Moves i e ws s)

  step_at-Counts :
      (i : ℕ) (e : Event F) (ws : List Worker) (s : Shared F)
      → Counts ws s
      → let (ws', s') = step_at i e ws s in Counts ws' s'
  step_at-Counts i e ws s h =
      let (ws', s') = step_at i e ws s in
      eq_of_parts s'.connected_workers (pos (listening_count ws'))
        (omega (arith, ap pos_part h, ap neg_part h, step_at-Moves i e ws s))

  -- In every interleaving of the events of the workers `connectedWorkers` is the number of workers that
  -- listen to a stream, if it was so at the start. A worker that stops or panics has left the count.
  pub run-Counts :
      (events : List (ℕ × Event F)) (ws : List Worker) (s : Shared F)
      → Counts ws s
      → let (ws', s') = run events ws s in Counts ws' s'
  unfolding run
  run-Counts [] ws s h = h
  run-Counts ((i, e) ∷ rest) ws s h =
      let (ws', s') = step_at i e ws s in run-Counts rest ws' s' (step_at-Counts i e ws s h)

  step_at-IsBounded :
      (i : ℕ) (e : Event F) (ws : List Worker) (s : Shared F)
      → All IsBounded ws
      → All IsBounded (step_at i e ws s).0
  unfolding step_at
  step_at-IsBounded i e [] s h = tt
  step_at-IsBounded zero e (w ∷ ws) s h = (step-IsBounded e w s h.0, h.1)
  step_at-IsBounded (suc i) e (w ∷ ws) s h = (h.0, step_at-IsBounded i e ws s h.1)

  -- In every interleaving each worker that has not stopped has counted at most 33 attempts since its
  -- last connection, and each worker that waits, waits at least 1.5 and less than 75 seconds, if it was
  -- so at the start.
  pub run-IsBounded :
      (events : List (ℕ × Event F)) (ws : List Worker) (s : Shared F)
      → All IsBounded ws
      → All IsBounded (run events ws s).0
  unfolding run
  run-IsBounded [] ws s h = h
  run-IsBounded ((i, e) ∷ rest) ws s h =
      let (ws', s') = step_at i e ws s in run-IsBounded rest ws' s' (step_at-IsBounded i e ws s h)
