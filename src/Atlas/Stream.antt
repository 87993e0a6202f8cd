-- ===== src/Atlas/Stream.antt =====
-- atlas/stream_strategy.go: the state that the streamed results build up. `digest` and `fetch` stand for
-- library calls (see Sslcert and Atlas/Lookup). Unix times are in seconds, other times in nanoseconds.
pub mod Health
pub mod Invariant
pub mod Isolation
pub mod Processor
pub mod Scrape
pub mod Series
use atlas_exporter.Atlas.Types.{measurement_for_type}
use atlas_exporter.Prelude.Equality.{list_eq, nat_eq, ◌==◌, int_eq}
use atlas_exporter.Prelude.Outcome.{Outcome, done, panic}
use atlas_exporter.Probe.{Probe}
use atlas_exporter.Atlas.Lookup.{Fetch, probe_for_id}
use atlas_exporter.Sslcert.{Digest}
use atlas_exporter.Prelude.Text.{Text, itoa}
use atlas_exporter.Prelude.{
  [], List, Bool, Option, ◌∷◌, ◌*◌, if◌then◌else◌, not, none, false, some, suc, true,
}
use atlas_exporter.Prelude.Int.{ℤ, pos, negsuc, sub_ℕ, ltb_ℤ, ◌-ℤ◌}
use atlas_exporter.Prelude.Dict.{Dict, insert, lookup}
use atlas_exporter.Exporter.Measurement.{Measurement}
use atlas_exporter.Exporter.Measurement
use atlas_exporter.Config.{Config}
use atlas_exporter.Float.{Floats}
use atlas_exporter.Result.{Result}
use atlas_exporter.Probe.Cache.{Cache}

pub record Strategy (F : Type 0) : Type 0 where
  pub measurements : Dict Text (Measurement F)
  pub cfg : Config F
  pub connected_workers : ℤ
  pub last_data_time : ℤ

-- What package atlas keeps beside the strategy: the probe cache and the gauge of the last data.
pub record World (F : Type 0) : Type 0 where
  pub strategy : Strategy F
  pub cache : Cache F
  pub last_data_timestamp : Dict Text ℤ

-- A Unix time in nanoseconds.
abbrev pub seconds : ℤ → ℤ
seconds (pos n) = pos (n * 1000000000)
seconds (negsuc n) = sub_ℕ 0 (suc n * 1000000000)

-- `now` is the time in nanoseconds; `age` is `time.Since(time.Unix(lastData, 0))`.
unfoldable pub fresh_enough : ℤ → ℤ → ℤ → Bool
fresh_enough max_data_age last_data now =
    if last_data == pos 0 then false else not (ltb_ℤ max_data_age (now -ℤ seconds last_data))

module _ {F : Type 0} ⦃fl : Floats F⦄ where
  unfoldable pub new_strategy : Config F → Strategy F
  new_strategy cfg = record {
    measurements = [];
    cfg = cfg;
    connected_workers = pos 0;
    last_data_time = pos 0;
  }

  unfoldable pub put : Strategy F → Text → Measurement F → Strategy F
  put s msm mes = record s { measurements = insert msm mes s.measurements }

  -- `mes.Add(m, probe)` on the measurement that the map points to. If it panics, the map stays as the
  -- lines before left it, and the lock is released.
  unfoldable pub add_to :
      Strategy F
      → Text
      → Measurement F
      → Result F
      → Option (Probe F)
      → Strategy F × Outcome (Unit {0})
  add_to s msm mes m probe = elim (Measurement.add mes m probe) [
    | done mes' ↦ (put s msm mes', done tt)
    | panic ↦ (put s msm mes, panic)
  ]

  -- The measurement of the map, or else a new one for the type of the result.
  unfoldable pub measurement_for : Digest → Strategy F → Result F → Option (Measurement F)
  measurement_for digest s m = elim (lookup (itoa m.msm_id) s.measurements) [
    | some mes ↦ some mes
    | none ↦ measurement_for_type digest m.type (itoa m.msm_id) (itoa m.af) s.cfg
  ]

  unfoldable pub add :
      Digest → Strategy F → Result F → Option (Probe F) → Strategy F × Outcome (Unit {0})
  unfolding measurement_for add_to put
  add digest s m probe = elim (measurement_for digest s m) [
    | none ↦ (s, done tt)
    | some mes ↦ add_to s (itoa m.msm_id) mes m probe
  ]

  -- After the lookup of the probe: an error is logged, and the result is dropped.
  unfoldable pub add_found :
      Digest → World F → Result F → Cache F × Option (Probe F) → World F × Outcome (Unit {0})
  add_found digest w r (c, none) = (record w { cache = c }, done tt)
  add_found digest w r (c, some p) =
      let (s, o) = add digest w.strategy r (some p) in (record w { cache = c; strategy = s }, o)

  -- `now` is the Unix time, `read` and `stored` are the instants at which the cache is used.
  unfoldable pub process_measurement_result :
      Digest → Fetch F → ℤ → ℤ → ℤ → World F → Result F → World F × Outcome (Unit {0})
  unfolding add_found
  process_measurement_result digest fetch now read stored w r =
      let w' = record w {
        strategy = record w.strategy { last_data_time = now };
        last_data_timestamp = insert (itoa r.msm_id) now w.last_data_timestamp;
      } in
      add_found digest w' r (probe_for_id fetch read stored w.cache r.prb_id)

  -- The loop of `MeasurementResults` over the ids; it never fails.
  unfoldable pub measurement_results : Strategy F → List Text → List (Measurement F)
  measurement_results s [] = []
  measurement_results s (id ∷ ids) =
      let rest = measurement_results s ids in
      elim (lookup id s.measurements) [ none ↦ rest | some m ↦ m ∷ rest ]

  unfoldable pub is_healthy : Strategy F → ℤ → Bool
  unfolding fresh_enough
  is_healthy s now =
      if not (ltb_ℤ (pos 0) s.connected_workers)
      then false
      else if ltb_ℤ (pos 0) s.cfg.health_max_data_age
      then fresh_enough s.cfg.health_max_data_age s.last_data_time now
      else true
