-- ===== src/Atlas/Worker.antt =====
-- atlas/stream_strategy_worker.go: the life of a worker, as steps. The environment chooses the events:
-- whether a subscription is accepted, what the stream delivers, when the timer fires or the context is
-- cancelled, and the random draw of the backoff. Blocking sends and the size of the result channel are
-- left out: what is sent is in `queue`.
pub mod Attempts
pub mod Connected
pub mod Exhausted
pub mod Gauge
pub mod Start
use atlas_exporter.Prelude.Equality.{list_eq, nat_eq}
use atlas_exporter.Prelude.Dict.{Dict, insert}
use atlas_exporter.Prelude.Outcome.{Outcome, done, panic}
use atlas_exporter.Prelude.{
  Bool, Option, ℕ, if◌then◌else◌, false, suc, some, List, ◌++◌, none, ◌∷◌, [],
}
use atlas_exporter.Prelude.Text.{Text, atoi, has_prefix, codes}
use atlas_exporter.Prelude.Int.{ℤ, ◌+ℤ◌, pos, ◌-ℤ◌}
use atlas_exporter.Atlas.Backoff.{get_retry_delay}
use atlas_exporter.Result.{Result}

pub data Phase : Type 0 where
  -- about to call `subscribe`
  subscribing : Phase
  -- in `listenForResults`
  listening : Phase
  -- in the `select` of `run`, with a timer of that many nanoseconds
  waiting : ℤ → Phase
  -- `run` has returned
  stopped : Phase

pub record Worker : Type 0 where
  -- the ID of the configured measurement
  pub id : Text
  pub retry_attempt : ℕ
  pub phase : Phase

-- What the workers share: a field of the strategy, a metric of package atlas and the result channel.
pub record Shared (F : Type 0) : Type 0 where
  pub connected_workers : ℤ
  pub stream_connected : Dict Text ℤ
  pub queue : List (Result F)

pub data Event (F : Type 0) : Type 0 where
  dial : Bool → ℕ → Event F
  deliver : Option (Result F) → ℕ → Event F
  close : ℕ → Event F
  cancel : ℕ → Event F
  timer : Event F

-- The ID has to be a number, and the stream has to accept.
unfoldable pub subscribe : Text → Bool → Bool
subscribe id accepted = elim (atoi id) [ none ↦ false | some msm ↦ accepted ]

unfoldable pub is_disconnect : Option Text → Bool
is_disconnect none = false
is_disconnect (some error) = has_prefix error (codes "c.On(disconnect)")

-- Entering the `select`: the delay is computed also when the context is done. A panic is recovered by
-- the deferred function of `run`, which then returns.
unfoldable pub wait_phase : Outcome ℤ → Phase
wait_phase (done d) = waiting d
wait_phase panic = stopped

unfoldable pub enter_wait : ℕ → Worker → Worker
unfolding wait_phase
enter_wait draw w = record w {
  retry_attempt = suc w.retry_attempt;
  phase = wait_phase (get_retry_delay (suc w.retry_attempt) draw);
}

module _ {F : Type 0} where
  unfoldable pub connect : Worker → Shared F → Worker × Shared F
  connect w s = (
    record w { retry_attempt = 0; phase = listening },
    record s {
      connected_workers = s.connected_workers +ℤ pos 1;
      stream_connected = insert w.id (pos 1) s.stream_connected;
    },
  )

  -- `listenForResults` has returned.
  unfoldable pub disconnect : ℕ → Worker → Shared F → Worker × Shared F
  disconnect draw w s = (
    enter_wait draw w,
    record s {
      connected_workers = s.connected_workers -ℤ pos 1;
      stream_connected = insert w.id (pos 0) s.stream_connected;
    },
  )

  unfoldable pub step_in : Phase → Event F → Worker → Shared F → Worker × Shared F
  unfolding connect disconnect
  step_in subscribing (dial accepted draw) w s =
      if subscribe w.id accepted then connect w s else (enter_wait draw w, s)
  step_in listening (deliver none draw) w s = (w, s)
  step_in listening (deliver (some m) draw) w s =
      if is_disconnect m.parse_error
      then disconnect draw w s
      else (w, record s { queue = s.queue ++ m ∷ [] })
  step_in listening (close draw) w s = disconnect draw w s
  step_in listening (cancel draw) w s = disconnect draw w s
  step_in (waiting d) timer w s = (record w { phase = subscribing }, s)
  step_in (waiting d) (cancel draw) w s = (record w { phase = stopped }, s)
  step_in _ _ w s = (w, s)

  -- An event that does not fit the phase changes nothing.
  unfoldable pub step : Event F → Worker → Shared F → Worker × Shared F
  unfolding step_in
  step e w s = step_in w.phase e w s
