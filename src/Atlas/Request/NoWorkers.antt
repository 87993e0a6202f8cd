-- ===== src/Atlas/Request/NoWorkers.antt =====
-- What becomes of a scrape by request if the number of workers is 0, which `Validate` accepts.
use atlas_exporter.Sslcert.{Digest}
use atlas_exporter.Atlas.Request.Gather.{gather_lem}
use atlas_exporter.Atlas.Types.{measurement_for_type}
use atlas_exporter.Prelude.Dict.{lookup}
use atlas_exporter.Prelude.Text.{Text, itoa}
use atlas_exporter.Exporter.Measurement.Collect.{VisitOrder}
use atlas_exporter.Probe.Cache.{Cache}
use atlas_exporter.Prelude.Outcome.{panic, Outcome, done}
use atlas_exporter.Prelude.Int.{ℤ}
use atlas_exporter.Config.{Config}
use atlas_exporter.Prelude.{
  ◌≡◌, List, Bool, none, some, refl, true, if◌then◌else◌, Option, [], false, ◌∷◌, ◌++◌, ◌∙◌, ap,
}
use atlas_exporter.Atlas.Lookup.{probes_for_results}
use atlas_exporter.Result.{Result}
use atlas_exporter.Atlas.Request.{
  build, get_measurement_for_id, send_all, measurement_results, from_results, Api, fill_new, fill,
  add_results, read_results,
}
use atlas_exporter.Traceroute.{traceroute_is_valid}
use atlas_exporter.Exporter.{default_is_valid, ResultValidator, Histogram, Exporter}
use atlas_exporter.Exporter.Measurement.{
  Measurement, with_histograms, with_validator, with_max_result_age,
}
use atlas_exporter.Float.{Floats}
use atlas_exporter.Atlas.Types.Laws.{opts, measurement_for_type-All}
use atlas_exporter.Exporter.Measurement
use atlas_exporter.Ping.Create.{new_measurement as ping_measurement}
use atlas_exporter.Traceroute.Create.{new_measurement as traceroute_measurement}
use atlas_exporter.Ntp.Create.{new_measurement as ntp_measurement}
use atlas_exporter.Dns.Create.{new_measurement as dns_measurement}
use atlas_exporter.Http.Create.{new_measurement as http_measurement}
use atlas_exporter.Sslcert.Create.{new_measurement as sslcert_measurement}

module _ {F : Type 0} ⦃fl : Floats F⦄ where
  -- The measurement has a validator, and it follows the pointer to the probe.
  abbrev Derefs : Measurement F → Type 0
  Derefs r = (v : ResultValidator F) × (r.validator ≡ some v) × ((m : Result F) → v m none ≡ panic)

  opts-Derefs :
      (hs : List (Histogram F)) (filter aged : Bool) (v : ResultValidator F) (age : ℤ)
      (e : Exporter F)
      → filter ≡ true
      → ((m : Result F) → v m none ≡ panic)
      → Derefs (Measurement.new_measurement e (opts hs filter aged v age))
  unfolding Measurement.new_measurement with_histograms with_validator with_max_result_age
  opts-Derefs hs filter true v age e on h = rw on (v, refl, h)
  opts-Derefs hs filter false v age e on h = rw on (v, refl, h)

  bare-Derefs :
      (filter aged : Bool) (v : ResultValidator F) (age : ℤ) (e : Exporter F)
      → filter ≡ true
      → ((m : Result F) → v m none ≡ panic)
      → Derefs (
          Measurement.new_measurement e (
            (if filter then with_validator v ∷ [] else [])
            ++ (if aged then with_max_result_age age ∷ [] else [])))
  unfolding Measurement.new_measurement with_validator with_max_result_age
  bare-Derefs filter true v age e on h = rw on (v, refl, h)
  bare-Derefs filter false v age e on h = rw on (v, refl, h)

  default-panic : (m : Result F) → default_is_valid m none ≡ panic
  unfolding default_is_valid
  default-panic m = refl

  traceroute-panic : (m : Result F) → traceroute_is_valid m none ≡ panic
  unfolding traceroute_is_valid
  traceroute-panic m = refl

  measurement_for_type-Derefs :
      (digest : Digest) (t id ip_version : Text) (cfg : Config F) (r : Measurement F)
      → cfg.filter_invalid_results ≡ true
      → measurement_for_type digest t id ip_version cfg ≡ some r
      → Derefs r
  unfolding ping_measurement traceroute_measurement ntp_measurement dns_measurement http_measurement
      sslcert_measurement
  measurement_for_type-Derefs digest t id ip_version cfg r on =
      measurement_for_type-All Derefs digest t id ip_version cfg r
        (opts-Derefs _ _ _ _ _ _ on default-panic) (opts-Derefs _ _ _ _ _ _ on traceroute-panic)
        (bare-Derefs _ _ _ _ _ on default-panic) (opts-Derefs _ _ _ _ _ _ on default-panic)
        (opts-Derefs _ _ _ _ _ _ on default-panic) (bare-Derefs _ _ _ _ _ on default-panic)

  add-panic : (r : Measurement F) (m : Result F) → Derefs r → Measurement.add r m none ≡ panic
  unfolding Measurement.add Measurement.is_valid
  add-panic r m (v, e, h) = rw (e, h m)

  build-none :
      (api : Api F) (cfg : Config F) (c : Cache F) (id : Text) (first : Result F)
      (rest : List (Result F))
      → cfg.filter_invalid_results ≡ true
      → (build api cfg 0 c id first rest).1 ≡ none
  unfolding build probes_for_results fill_new fill add_results lookup
  build-none api cfg c id first rest on =
      go (measurement_for_type api.digest first.type id (itoa first.af) cfg) refl
    where
      go :
          (o : Option (Measurement F))
          → measurement_for_type api.digest first.type id (itoa first.af) cfg ≡ o
          → (fill_new c (first ∷ rest) (c, some []) o).1 ≡ none
      go none e = refl
      go (some mes) e = rw (add-panic mes first (measurement_for_type-Derefs _ _ _ _ cfg mes on e))

  get_measurement_for_id-none :
      (api : Api F) (cfg : Config F) (c : Cache F) (id : Text)
      → cfg.filter_invalid_results ≡ true
      → (get_measurement_for_id api cfg 0 c id).1 ≡ none
  unfolding get_measurement_for_id from_results
  get_measurement_for_id-none api cfg c id on = latest (api.latest id) refl
    where
      read : (o : Outcome (Option (List (Result F)))) → (from_results api cfg 0 c id o).1 ≡ none
      read panic = refl
      read (done none) = refl
      read (done (some [])) = refl
      read (done (some (first ∷ rest))) = build-none api cfg c id first rest on

      latest :
          (o : Option (List (Option (Result F))))
          → api.latest id ≡ o
          → (get_measurement_for_id api cfg 0 c id).1 ≡ none
      latest none e = rw (e, get_measurement_for_id)
      latest (some ms) e = rw (e, get_measurement_for_id) (read (read_results ms []))

  send_all-none :
      (api : Api F) (cfg : Config F) (c : Cache F) (ids : List Text)
      → cfg.filter_invalid_results ≡ true
      → (send_all api cfg 0 c ids).1 ≡ []
  unfolding send_all
  send_all-none api cfg c [] on = refl
  send_all-none api cfg c (id ∷ ids) on =
      rw (send_all, get_measurement_for_id-none api cfg c id on)
        (send_all-none api cfg (get_measurement_for_id api cfg 0 c id).0 ids on)

  -- With 0 workers and the filter of invalid results switched on, `MeasurementResults` of the request
  -- strategy gives no measurement for any ids, and no error, whatever the API delivers, if the context
  -- is not done in time.
  pub no_workers-measurement_results :
      (api : Api F) (cfg : Config F) (order : VisitOrder Text) (c : Cache F) (ids : List Text)
      → cfg.filter_invalid_results ≡ true
      → (measurement_results api cfg 0 order none c ids).1 ≡ some []
  unfolding measurement_results
  no_workers-measurement_results api cfg order c ids on =
      gather_lem none (send_all api cfg 0 c (order.visit ids)).1
      ∙ ap some (send_all-none api cfg c (order.visit ids) on)
