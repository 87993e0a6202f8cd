-- ===== src/Atlas/Worker/Gauge.antt =====
-- The gauge stream_connected of package atlas, which the workers set.
use atlas_exporter.Prelude.Equality.{list_eq, nat_eq, eqb_list_iff}
use atlas_exporter.Prelude.Int.{pos, ℤ}
use atlas_exporter.Prelude.Text.{Text}
use atlas_exporter.Prelude.Dict.{lookup, Dict, insert, lookup-insert}
use atlas_exporter.Prelude.{
  Option, ◌≢◌, ◌≡◌, Bool, ℕ, List, if◌then◌else◌, ◌∙◌, All, map, Pairwise, some, ap, ◌∷◌, refl,
  true, sym, suc, none, false, [], arith, ◌++◌, All-imp, zero,
}
use atlas_exporter.Atlas.Worker.{
  Worker, Phase, Shared, Event, step, step_in, connect, disconnect, enter_wait, dial, subscribe,
  deliver, is_disconnect, close, cancel, timer,
}
use atlas_exporter.Atlas.Worker.Connected.{listens, enter_wait-listens, step_at, run}

-- A series that was never set does not show a connection either.
abbrev pub gauge_value : Option ℤ → ℤ
gauge_value none = pos 0
gauge_value (some v) = v

abbrev pub OtherId : Worker → Worker → Type 0
OtherId v w = v.id ≢ w.id

other-lookup :
    (id j : Text) (v : ℤ) (m : Dict Text ℤ) → id ≢ j → lookup j (insert id v m) ≡ lookup j m
other-lookup id j v m other = ground (arith, lookup-insert id j v m, eqb_list_iff id j)

own-lookup : (id : Text) (v : ℤ) (m : Dict Text ℤ) → gauge_value (lookup id (insert id v m)) ≡ v
own-lookup id v m = ground (arith, lookup-insert id id v m, eqb_list_iff id id)

ids-Pairwise :
    (vs ws : List Worker)
    → map (λ (w : Worker). w.id) vs ≡ map (λ (w : Worker). w.id) ws
    → Pairwise OtherId ws
    → Pairwise OtherId vs
ids-Pairwise [] ws e h = tt
ids-Pairwise (v ∷ vs) [] e h = cc
ids-Pairwise (v ∷ vs) (w ∷ ws) e h =
    let first : v.id ≡ w.id = cc in
    let more : map (λ (w : Worker). w.id) vs ≡ map (λ (w : Worker). w.id) ws = cc in
    (others vs ws first more h.0, ids-Pairwise vs ws more h.1)
  where
    others :
        (vs ws : List Worker)
        → v.id ≡ w.id
        → map (λ (w : Worker). w.id) vs ≡ map (λ (w : Worker). w.id) ws
        → All (OtherId w) ws
        → All (OtherId v) vs
    others [] ws first e h = tt
    others (x ∷ vs) [] first e h = cc
    others (x ∷ vs) (y ∷ ws) first e h =
        let here : x.id ≡ y.id = cc in
        let more : map (λ (w : Worker). w.id) vs ≡ map (λ (w : Worker). w.id) ws = cc in
        ((λ same. h.0 (sym first ∙ (same ∙ here))), others vs ws first more h.1)

module _ {F : Type 0} where
  -- The gauge of a worker is 1 if it listens, and else 0.
  abbrev pub Shows : Shared F → Worker → Type 0
  Shows s w = gauge_value (lookup w.id s.stream_connected) ≡ pos (listens w.phase)

  -- What a step leaves alone.
  abbrev Leaves : Worker → Shared F → Worker × Shared F → Type 0
  Leaves w s (w', s') =
      (w'.id ≡ w.id)
      × ((id : Text) → w.id ≢ id → lookup id s'.stream_connected ≡ lookup id s.stream_connected)

  abbrev Keeps : Worker → Shared F → Worker × Shared F → Type 0
  Keeps w s r = Shows r.1 r.0 × Leaves w s r

  if-Keeps :
      (w : Worker) (s : Shared F) (b : Bool) (x y : Worker × Shared F)
      → Keeps w s x
      → Keeps w s y
      → Keeps w s (if b then x else y)
  if-Keeps w s true x y h k = h
  if-Keeps w s false x y h k = k

  connect-Keeps : (w : Worker) (s : Shared F) → Keeps w s (connect w s)
  unfolding connect
  connect-Keeps w s = (
    own-lookup w.id (pos 1) s.stream_connected,
    (refl, λ id. other-lookup w.id id (pos 1) s.stream_connected),
  )

  disconnect-Keeps : (draw : ℕ) (w : Worker) (s : Shared F) → Keeps w s (disconnect draw w s)
  unfolding disconnect enter_wait
  disconnect-Keeps draw w s = (
    own-lookup w.id (pos 0) s.stream_connected ∙ ap pos (sym (enter_wait-listens draw w)),
    (refl, λ id. other-lookup w.id id (pos 0) s.stream_connected),
  )

  -- The gauge is left alone, and the worker listens as it did.
  stay-Keeps :
      (w w' : Worker) (s s' : Shared F)
      → Shows s w
      → w'.id ≡ w.id
      → listens w'.phase ≡ listens w.phase
      → s'.stream_connected ≡ s.stream_connected
      → Keeps w s (w', s')
  stay-Keeps w w' s s' h same phase gauge =
      (rw (same, gauge, phase) h, (same, λ id other. rw gauge))

  step_in-Keeps :
      (ph : Phase) (e : Event F) (w : Worker) (s : Shared F)
      → w.phase ≡ ph
      → Shows s w
      → Keeps w s (step_in ph e w s)
  unfolding step_in
  step_in-Keeps Phase.subscribing (dial accepted draw) w s eq h =
      if-Keeps w s (subscribe w.id accepted) _ _ (connect-Keeps w s) (
        stay-Keeps w (enter_wait draw w) s s h (unfold enter_wait in refl)
          (enter_wait-listens draw w ∙ ap listens (sym eq)) refl)
  step_in-Keeps Phase.listening (deliver none draw) w s eq h = stay-Keeps w w s s h refl refl refl
  step_in-Keeps Phase.listening (deliver (some m) draw) w s eq h =
      if-Keeps w s (is_disconnect m.parse_error) _ _ (disconnect-Keeps draw w s)
        (stay-Keeps w w s (record s { queue = s.queue ++ m ∷ [] }) h refl refl refl)
  step_in-Keeps Phase.listening (close draw) w s eq h = disconnect-Keeps draw w s
  step_in-Keeps Phase.listening (cancel draw) w s eq h = disconnect-Keeps draw w s
  step_in-Keeps (Phase.waiting d) timer w s eq h =
      stay-Keeps w (record w { phase = Phase.subscribing }) s s h refl (ap listens (sym eq)) refl
  step_in-Keeps (Phase.waiting d) (cancel draw) w s eq h =
      stay-Keeps w (record w { phase = Phase.stopped }) s s h refl (ap listens (sym eq)) refl
  step_in-Keeps _ _ w s eq h = stay-Keeps w w s s h refl refl refl

  step-Keeps : (e : Event F) (w : Worker) (s : Shared F) → Shows s w → Keeps w s (step e w s)
  unfolding step
  step-Keeps e w s h = step_in-Keeps w.phase e w s refl h

  others-Shows :
      (w : Worker) (s s' : Shared F) (ws : List Worker)
      → ((id : Text) → w.id ≢ id → lookup id s'.stream_connected ≡ lookup id s.stream_connected)
      → All (OtherId w) ws
      → All (Shows s) ws
      → All (Shows s') ws
  others-Shows w s s' [] same other h = tt
  others-Shows w s s' (v ∷ ws) same other h =
      (rw (same v.id other.0) h.0, others-Shows w s s' ws same other.1 h.1)

  -- The workers keep their ids, and the gauges of other ids stay.
  step_at-Leaves :
      (i : ℕ) (e : Event F) (ws : List Worker) (s : Shared F)
      → All (Shows s) ws
      → Pairwise OtherId ws
      → let (ws', s') = step_at i e ws s in
        All (Shows s') ws'
        × (map (λ (w : Worker). w.id) ws' ≡ map (λ (w : Worker). w.id) ws)
        × ((id : Text)
            → All (λ (w : Worker). w.id ≢ id) ws
            → lookup id s'.stream_connected ≡ lookup id s.stream_connected)
  unfolding step_at
  step_at-Leaves i e [] s h apart = (tt, refl, λ id other. refl)
  step_at-Leaves zero e (w ∷ ws) s h apart =
      let (shows, (same, gauges)) = step-Keeps e w s h.0 in
      (
        (shows, others-Shows w s (step e w s).1 ws gauges apart.0 h.1),
        rw same,
        λ id other. gauges id other.0,
      )
  step_at-Leaves (suc i) e (w ∷ ws) s h apart =
      let (shows, same, gauges) = step_at-Leaves i e ws s h.1 apart.1 in
      (
        (rw (gauges w.id (flip ws apart.0)) h.0, shows),
        ap (◌∷◌ w.id) same,
        λ id other. gauges id other.1,
      )
    where
      flip : (vs : List Worker) → All (OtherId w) vs → All (λ (v : Worker). v.id ≢ w.id) vs
      flip vs = All-imp (OtherId w) (λ (v : Worker). v.id ≢ w.id) vs (λ v other e. other (sym e))

  -- For workers with different measurement ids whose gauges show whether they listen (1 if a worker
  -- listens to its stream, and else 0, or not set), the gauges still show it after any interleaving of
  -- steps of the workers.
  pub run-Shows :
      (events : List (ℕ × Event F)) (ws : List Worker) (s : Shared F)
      → Pairwise OtherId ws
      → All (Shows s) ws
      → let (ws', s') = run events ws s in All (Shows s') ws'
  unfolding run
  run-Shows [] ws s apart h = h
  run-Shows ((i, e) ∷ rest) ws s apart h =
      let (shows, same, gauges) = step_at-Leaves i e ws s h apart in
      run-Shows rest (step_at i e ws s).0 (step_at i e ws s).1 (ids-Pairwise _ ws same apart) shows
