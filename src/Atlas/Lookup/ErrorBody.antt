-- ===== src/Atlas/Lookup/ErrorBody.antt =====
-- What becomes of a probe whose request is answered by an error with a JSON body.
use atlas_exporter.Prelude.Outcome.{done, Outcome}
use atlas_exporter.Result.{Result}
use atlas_exporter.Prelude.Int.{ℤ, ltb_ℤ, ◌+ℤ◌, pos}
use atlas_exporter.Exporter.{default_is_valid}
use atlas_exporter.Prelude.{Option, ◌++◌, ◌≡◌, some, none, if◌then◌else◌, false, Bool, refl, true}
use atlas_exporter.Atlas.Lookup.{probe_for_id}
use atlas_exporter.Prelude.Text.{Text, itoa}
use atlas_exporter.Probe.Cache.{Cache}
use atlas_exporter.Probe.Cache.Reads.{get-add}
use atlas_exporter.Probe.Request.{Answer, url}
use atlas_exporter.Probe.{from_json, Unmarshal, asn_for_ip_version, zero_probe, ipv6}
use atlas_exporter.Probe.Request
use atlas_exporter.Probe.Cache
use atlas_exporter.Prelude.Equality.{int_eq, eq_refl, ◌==◌}

module _ {F : Type 0} where
  get-zero_probe :
      (http_get : Text → Option Answer) (unmarshal : Unmarshal F) (id : ℤ) (answer : Answer)
      (body : Text)
      → http_get (url ++ itoa id) ≡ some answer
      → answer.body ≡ some body
      → unmarshal body zero_probe ≡ some zero_probe
      → Request.get http_get unmarshal id ≡ some zero_probe
  unfolding Request.get Request.read_answer from_json
  get-zero_probe http_get unmarshal id answer body asked has_body accepted =
      rw (asked, has_body, from_json, accepted) refl

  -- The status of an answer is not looked at. If the request for a probe that the cache does not give is
  -- answered, with whatever status, by a body of which json.Unmarshal sets no field, as the JSON body of
  -- an error, then the lookup ends with the zero probe and no error. The cache gives that probe for the
  -- id until the ttl is over, and the default validator rejects every result with it.
  pub error_body_stays :
      (http_get : Text → Option Answer) (unmarshal : Unmarshal F) (c : Cache F) (id read stored : ℤ)
      (answer : Answer) (body : Text)
      → http_get (url ++ itoa id) ≡ some answer
      → answer.body ≡ some body
      → unmarshal body zero_probe ≡ some zero_probe
      → Cache.get c read id ≡ none
      → let (c', found) = probe_for_id (Request.get http_get unmarshal) read stored c id in
        (found ≡ some zero_probe)
        × ((t : ℤ)
            → Cache.get c' t id ≡ (if ltb_ℤ t (stored +ℤ c.ttl) then some zero_probe else none))
        × ((m : Result F) → default_is_valid m (some zero_probe) ≡ done false)
  unfolding probe_for_id default_is_valid asn_for_ip_version
  error_body_stays http_get unmarshal c id read stored answer body asked has_body accepted absent =
      let got = get-zero_probe http_get unmarshal id answer body asked has_body accepted in
      (
        rw (probe_for_id, absent, got) refl,
        λ t. rw (probe_for_id, absent, got, get-add c id id stored t zero_probe, eq_refl id) refl,
        λ m. zero (m.af == ipv6),
      )
    where
      zero :
          (b : Bool)
          → ◌≡◌ {A = Outcome Bool} (done (ltb_ℤ (pos 0) (if b then pos 0 else pos 0))) (done false)
      zero true = refl
      zero false = refl
