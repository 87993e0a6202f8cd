-- ===== src/Tests/Workers.antt =====
-- Workers, the backoff, the probe cache and the lookup of probes.
use atlas_exporter.Atlas.Lookup.ErrorBody.{error_body_stays}
use atlas_exporter.Exporter.{default_is_valid}
use atlas_exporter.Probe.Request.{Answer}
use atlas_exporter.Probe.Request
use atlas_exporter.Atlas.Worker.Gauge.{Shows, run-Shows}
use atlas_exporter.Probe.{Probe, Unmarshal, zero_probe}
use atlas_exporter.Atlas.Lookup.Found.{IsOwn, CacheIsOwn, probes_for_results-found}
use atlas_exporter.Result.{Result}
use atlas_exporter.Prelude.Equality.{int_eq, ◌==◌, eqb_list_iff, list_eq, nat_eq}
use atlas_exporter.Atlas.Backoff.Bounds.{nominal, get_retry_delay_bounds}
use atlas_exporter.Probe.Cache.Sweep.{lookup-clean_up, clean_up_loses_add, is_expired}
use atlas_exporter.Prelude.Outcome.{done}
use atlas_exporter.Atlas.Worker.Attempts.{IsBounded}
use atlas_exporter.Prelude.Text.{codes, Text}
use atlas_exporter.Atlas.Backoff.{get_retry_delay}
use atlas_exporter.Atlas.Lookup.{Fetch, probes_for_results, probe_for_id}
use atlas_exporter.Prelude.Dict.{lookup, Dict, insert}
use atlas_exporter.Probe.Cache.Reads.{IsCache, get-add}
use atlas_exporter.Probe.Cache.{
  Cache, get, add, clean_up, delete_all, expired_ids, fresh, new_cache,
}
use atlas_exporter.Atlas.Worker.Connected.{Counts, run, run-Counts, run-IsBounded, listening_count}
use atlas_exporter.Prelude.{
  List, All, ◌∷◌, ℕ, some, ◌≡◌, [], ◌+◌, none, arith, true, ◌-◌, false, refl, ◌/◌, ◌≢◌, sym, ◌∙◌,
  if◌then◌else◌,
}
use atlas_exporter.Atlas.Worker.Exhausted.{outage, outage_stops, outage_retries}
use atlas_exporter.Atlas.Worker.{Worker, Shared, Phase, Event, dial, close, timer}
use atlas_exporter.Prelude.Int.{ℤ, pos, ◌≤ℤ◌, ◌<ℤ◌, ◌+ℤ◌, ltb_ℤ}
use atlas_exporter.Tests.Data.{int_floats, probe_at_zero, result_at, in_order}

get_retry_delay_bounds_example :
    (d : ℤ) × (get_retry_delay 5 123456789 ≡ done d)
    × (pos (nominal 5 - nominal 5 / 4) ≤ℤ d)
    × (d <ℤ pos (nominal 5 - nominal 5 / 4 + nominal 5 / 2))
get_retry_delay_bounds_example = get_retry_delay_bounds 5 123456789 (omega arith)

abbrev worker : Worker
worker = record { id = codes "1001"; retry_attempt = 32; phase = Phase.subscribing }

abbrev shared : Shared ℤ
shared = record { connected_workers = pos 0; stream_connected = []; queue = [] }

outage_stops_example : (outage (1 ∷ 2 ∷ []) worker shared).0.phase ≡ Phase.stopped
outage_stops_example = outage_stops (1 ∷ 2 ∷ []) worker shared refl (omega arith) (omega arith)

outage_retries_example :
    ((outage (1 ∷ []) worker shared).0.phase ≡ Phase.subscribing)
    × ((outage (1 ∷ []) worker shared).0.retry_attempt ≡ 33)
outage_retries_example = outage_retries (1 ∷ []) worker shared refl (omega arith)

-- Worker 0 connects and is closed, worker 1 fails.
abbrev story : List (ℕ × Event ℤ)
story = (0, dial true 1) ∷ (1, dial false 2) ∷ (0, close 3) ∷ (0, timer) ∷ (1, timer) ∷ []

run-Counts_example :
    Counts (run story (worker ∷ worker ∷ []) shared).0 (run story (worker ∷ worker ∷ []) shared).1
run-Counts_example = run-Counts story (worker ∷ worker ∷ []) shared (unfold listening_count in refl)

run-IsBounded_example : All IsBounded (run story (worker ∷ worker ∷ []) shared).0
run-IsBounded_example =
    run-IsBounded story (worker ∷ worker ∷ []) shared (omega arith, (omega arith, tt))

-- Probe 7 has expired at time 100, probe 8 has not.
abbrev cached : Cache ℤ
cached = record {
  cache =
      (pos 7, record { expires = pos 50; value = probe_at_zero (pos 7) })
      ∷ (pos 8, record { expires = pos 500; value = probe_at_zero (pos 8) })
      ∷ [];
  ttl = pos 400;
}

cached-IsCache : IsCache cached
unfolding lookup
cached-IsCache = (refl, (refl, tt))

get-add_example :
    get (add cached (pos 100) (pos 7) (probe_at_zero (pos 7))) (pos 200) (pos 7)
    ≡ some (probe_at_zero (pos 7))
unfolding fresh ◌+ℤ◌
get-add_example = get-add cached (pos 7) (pos 7) (pos 100) (pos 200) (probe_at_zero (pos 7))

lookup-clean_up_example : lookup (pos 7) (clean_up cached (λ _. pos 100)).0.cache ≡ none
unfolding lookup is_expired
lookup-clean_up_example = lookup-clean_up cached (λ _. pos 100) (pos 7) cached-IsCache

clean_up_loses_add_example :
    get
      (record cached {
        cache =
            delete_all
              (expired_ids (λ _. pos 100) cached.cache)
              (add cached (pos 100) (pos 7) (probe_at_zero (pos 7))).cache;
      })
      (pos 200)
      (pos 7)
    ≡ none
unfolding lookup
clean_up_loses_add_example =
    clean_up_loses_add cached (λ _. pos 100)
      (record { expires = pos 50; value = probe_at_zero (pos 7) }) (pos 7) (pos 100) (pos 200)
      (probe_at_zero (pos 7)) cached-IsCache refl (omega arith)

abbrev fetch : Fetch ℤ
fetch id = some (probe_at_zero id)

abbrev results : List (Result ℤ)
results =
    result_at (codes "ping") (pos 1001) (pos 7) (pos 100)
    ∷ result_at (codes "ping") (pos 1001) (pos 7) (pos 200)
    ∷ []

abbrev found : Dict ℤ (Probe ℤ)
found = (pos 7, probe_at_zero (pos 7)) ∷ []

fetch-IsOwn : IsOwn fetch
fetch-IsOwn id p h = cc

new_cache-CacheIsOwn : CacheIsOwn {F = ℤ} (new_cache (pos 400))
unfolding get new_cache lookup fresh
new_cache-CacheIsOwn t id p h = cc

probes_for_results-found_example : (p : Probe ℤ) × (lookup (pos 7) found ≡ some p) × (p.id ≡ pos 7)
unfolding probes_for_results probe_for_id get lookup new_cache insert
probes_for_results-found_example =
    probes_for_results-found fetch (λ _. pos 100) in_order 3 (new_cache (pos 400)) results found
      (pos 7) fetch-IsOwn new_cache-CacheIsOwn refl refl

apart : (a b : Text) → (a == b) ≡ false → a ≢ b
apart a b h e = let same = (eqb_list_iff a b).1 e in (let clash = sym h ∙ same in cc)

abbrev second : Worker
second = record worker { id = codes "1002" }

run-Shows_example :
    All
      (Shows (run story (worker ∷ second ∷ []) shared).1)
      (run story (worker ∷ second ∷ []) shared).0
unfolding lookup
run-Shows_example =
    run-Shows story (worker ∷ second ∷ []) shared
      ((apart (codes "1001") (codes "1002") refl, tt), (tt, tt)) (refl, (refl, tt))

-- An error with a JSON body, which names no field of a probe.
abbrev not_found : Answer
not_found = record { status = 404; body = some (codes "{}") }

abbrev lenient : Unmarshal ℤ
lenient body p = if body == codes "{}" then some p else none

error_body_stays_example :
    let (c, found) =
      probe_for_id
        (Request.get (λ u. some not_found) lenient)
        (pos 100)
        (pos 200)
        (new_cache (pos 400))
        (pos 7) in
    (found ≡ some zero_probe)
    × ((t : ℤ) → get c t (pos 7) ≡ (if ltb_ℤ t (pos 200 +ℤ pos 400) then some zero_probe else none))
    × ((m : Result ℤ) → default_is_valid m (some zero_probe) ≡ done false)
unfolding lookup new_cache get fresh
error_body_stays_example =
    error_body_stays (λ u. some not_found) lenient (new_cache (pos 400)) (pos 7) (pos 100) (pos 200)
      not_found (codes "{}") refl refl refl refl
