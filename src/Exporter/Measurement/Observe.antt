-- ===== src/Exporter/Measurement/Observe.antt =====
-- What the histograms of a measurement observe.
use atlas_exporter.Exporter.{ResultValidator, Histogram}
use atlas_exporter.Prelude.{Option, List, ◌∷◌, if◌then◌else◌, []}
use atlas_exporter.Exporter.Measurement.{Measurement, observe}
use atlas_exporter.Exporter.Measurement.Add.{Call, passes}

module _ {F : Type 0} where
  -- One histogram that is given every call that the validator passes, in order.
  unfoldable pub observe_all :
      Option (ResultValidator F) → List (Call F) → Histogram F → Histogram F
  observe_all v [] h = h
  observe_all v (c ∷ rest) h = observe_all v rest (if passes v c then observe c.0 h else h)
