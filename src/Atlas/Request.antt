-- ===== src/Atlas/Request.antt =====
-- atlas/request_strategy.go: a measurement is requested, with the probes of its results, for each scrape.
-- What the goroutines of a scrape do to the probe cache is modelled one goroutine after the other, in any
-- order. What a goroutine leaves behind when it returns early (a channel not read to its end) is left out.
pub mod Entries
pub mod Gather
pub mod Invariant
pub mod NoWorkers
pub mod Scrape
pub mod Series
use atlas_exporter.Prelude.Equality.{int_eq}
use atlas_exporter.Exporter.Measurement.Collect.{VisitOrder}
use atlas_exporter.Atlas.Types.{measurement_for_type}
use atlas_exporter.Sslcert.{Digest}
use atlas_exporter.Probe.Cache.{Cache}
use atlas_exporter.Probe.{Probe}
use atlas_exporter.Atlas.Lookup.{Fetch, probes_for_results}
use atlas_exporter.Config.{Config}
use atlas_exporter.Result.{Result}
use atlas_exporter.Exporter.Measurement.{Measurement}
use atlas_exporter.Prelude.Int.{ℤ}
use atlas_exporter.Float.{Floats}
use atlas_exporter.Prelude.Outcome.{Outcome, done, panic, ◌>>=◌}
use atlas_exporter.Prelude.Dict.{Dict, lookup}
use atlas_exporter.Prelude.{List, Bool, Option, true, ℕ, some, ◌∷◌, none, [], suc, ◌++◌, zero}
use atlas_exporter.Prelude.Text.{Text, itoa}
use atlas_exporter.Exporter.Measurement

-- What the code calls, for one scrape: `latest` is `MeasurementLatest`, with `none` for an error, or else
-- the pointers that the channel delivers until it is closed. The others are as in Atlas/Lookup: `clock id k`
-- is the time at which the goroutine of id looks up probe k, `arrival` the order in which answers arrive.
pub record Api (F : Type 0) : Type 0 where
  pub latest : Text → Option (List (Option (Result F)))
  pub fetch : Fetch F
  pub digest : Digest
  pub clock : Text → ℤ → ℤ
  pub arrival : VisitOrder ℤ

-- `requestStrategy`; `atlasser` is the client of the API, with the other calls of a scrape.
pub record RequestStrategy (F : Type 0) : Type 0 where
  pub atlasser : Api F
  pub workers : ℕ
  pub cfg : Config F

module _ {F : Type 0} where
  -- `NewRequestStrategy`, which makes the client itself.
  abbrev pub new_request_strategy : Api F → Config F → ℕ → RequestStrategy F
  new_request_strategy api cfg workers = record { atlasser = api; workers = workers; cfg = cfg }

  -- The loop over the channel: a nil pointer is followed, and a parse error ends the function.
  unfoldable pub read_results :
      List (Option (Result F)) → List (Result F) → Outcome (Option (List (Result F)))
  read_results [] res = done (some res)
  read_results (none ∷ ms) res = panic
  read_results (some m ∷ ms) res = elim m.parse_error [
    | none ↦ read_results ms (res ++ m ∷ [])
    | some error ↦ done none
  ]

  -- The loop of `mes.Add`; the index of a map gives nil for a missing key.
  unfoldable pub add_results :
      Dict ℤ (Probe F) → List (Result F) → Measurement F → Outcome (Measurement F)
  add_results probes [] mes = done mes
  add_results probes (r ∷ rs) mes =
      Measurement.add mes r (lookup r.prb_id probes) >>= add_results probes rs

  -- The deferred function recovers a panic, and nothing is sent.
  abbrev pub recovered : Outcome (Measurement F) → Option (Measurement F)
  recovered (done mes) = some mes
  recovered panic = none

  unfoldable pub fill :
      List (Result F)
      → Measurement F
      → Cache F × Option (Dict ℤ (Probe F))
      → Cache F × Option (Measurement F)
  fill res mes (c, none) = (c, none)
  fill res mes (c, some probes) = (c, recovered (add_results probes res mes))

  -- The receiving loop. `deadline` is the number of measurements that are received before the context is
  -- done; `none` is a context that is not done in time. The channel is closed behind the last measurement.
  unfoldable pub gather :
      Option ℕ → List (Measurement F) → List (Measurement F) → Option (List (Measurement F))
  gather (some zero) sent res = none
  gather (some (suc n)) [] res = some res
  gather (some (suc n)) (m ∷ sent) res = gather (some n) sent (res ++ m ∷ [])
  gather none [] res = some res
  gather none (m ∷ sent) res = gather none sent (res ++ m ∷ [])

  -- `none` is the error of `measurementForType`, with which no probe is looked up.
  unfoldable pub fill_new :
      Cache F
      → List (Result F)
      → Cache F × Option (Dict ℤ (Probe F))
      → Option (Measurement F)
      → Cache F × Option (Measurement F)
  unfolding fill
  fill_new c res found none = (c, none)
  fill_new c res found (some mes) = fill res mes found

module _ {F : Type 0} ⦃fl : Floats F⦄ where
  -- From the first result on. `none` is a measurement that is not sent.
  unfoldable pub build :
      Api F
      → Config F
      → ℕ
      → Cache F
      → Text
      → Result F
      → List (Result F)
      → Cache F × Option (Measurement F)
  unfolding fill_new
  build api cfg workers c id first rest =
      let res = first ∷ rest in
      fill_new c res (probes_for_results api.fetch (api.clock id) api.arrival.visit workers c res)
        (measurement_for_type api.digest first.type id (itoa first.af) cfg)

  unfoldable pub from_results :
      Api F
      → Config F
      → ℕ
      → Cache F
      → Text
      → Outcome (Option (List (Result F)))
      → Cache F × Option (Measurement F)
  unfolding build
  from_results api cfg workers c id panic = (c, none)
  from_results api cfg workers c id (done none) = (c, none)
  from_results api cfg workers c id (done (some [])) = (c, none)
  from_results api cfg workers c id (done (some (first ∷ rest))) =
      build api cfg workers c id first rest

  unfoldable pub get_measurement_for_id :
      Api F → Config F → ℕ → Cache F → Text → Cache F × Option (Measurement F)
  unfolding read_results from_results
  get_measurement_for_id api cfg workers c id = elim (api.latest id) [
    | none ↦ (c, none)
    | some ms ↦ from_results api cfg workers c id (read_results ms [])
  ]

  -- The goroutines in the order in which they end, and what they send.
  unfoldable pub send_all :
      Api F → Config F → ℕ → Cache F → List Text → Cache F × List (Measurement F)
  unfolding get_measurement_for_id
  send_all api cfg workers c [] = (c, [])
  send_all api cfg workers c (id ∷ ids) =
      let (c', sent) = get_measurement_for_id api cfg workers c id in
      let (c'', more) = send_all api cfg workers c' ids in
      (c'', elim sent [ none ↦ more | some mes ↦ mes ∷ more ])

  unfoldable pub measurement_results :
      Api F
      → Config F
      → ℕ
      → VisitOrder Text
      → Option ℕ
      → Cache F
      → List Text
      → Cache F × Option (List (Measurement F))
  unfolding send_all gather
  measurement_results api cfg workers order deadline c ids =
      let (c', sent) = send_all api cfg workers c (order.visit ids) in (c', gather deadline sent [])

-- `IsHealthy` of the request strategy.
unfoldable pub is_healthy : Bool
is_healthy = true
