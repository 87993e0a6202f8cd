-- ===== src/Atlas/Stream/Health.antt =====
-- When the streaming strategy reports that it is healthy.
use atlas_exporter.Prelude.Equality.{int_eq}
use atlas_exporter.Prelude.{◌≡◌, true, ◌≢◌, ◌↔◌, arith}
use atlas_exporter.Prelude.Int.{ℤ, pos, ◌<ℤ◌, ◌-ℤ◌, ◌≤ℤ◌, ltb_ℤ_iff}
use atlas_exporter.Atlas.Stream.{Strategy, is_healthy, seconds, fresh_enough}
use atlas_exporter.Float.{Floats}

fresh_enough_iff :
    (age last now : ℤ)
    → (fresh_enough age last now ≡ true) ↔ ((last ≢ pos 0) × (now -ℤ seconds last ≤ℤ age))
unfolding fresh_enough
fresh_enough_iff age last now =
    ground (arith, int_eq.beq_iff last (pos 0), ltb_ℤ_iff age (now -ℤ seconds last))

module _ {F : Type 0} ⦃fl : Floats F⦄ where
  -- At least one worker listens; and if a maximal age is configured, data has come, and the last data is
  -- not older than that.
  abbrev pub Healthy : Strategy F → ℤ → Type 0
  Healthy s now =
      (pos 0 <ℤ s.connected_workers)
      × (pos 0 <ℤ s.cfg.health_max_data_age
          → (s.last_data_time ≢ pos 0)
            × (now -ℤ seconds s.last_data_time ≤ℤ s.cfg.health_max_data_age))

  -- `IsHealthy` is true exactly when at least one worker is connected and, if a positive maximal age of
  -- the data is configured, data has come and the last data is not older than that age.
  pub is_healthy_iff : (s : Strategy F) (now : ℤ) → (is_healthy s now ≡ true) ↔ Healthy s now
  unfolding is_healthy
  is_healthy_iff s now = ground (
    arith,
    ltb_ℤ_iff (pos 0) s.connected_workers,
    ltb_ℤ_iff (pos 0) s.cfg.health_max_data_age,
    fresh_enough_iff s.cfg.health_max_data_age s.last_data_time now,
  )
