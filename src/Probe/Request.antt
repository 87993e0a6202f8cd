-- ===== src/Probe/Request.antt =====
-- probe/probe_request.go: the request for a probe. `http_get` is http.Client.Get with io.ReadAll.
use atlas_exporter.Prelude.Int.{ℤ}
use atlas_exporter.Probe.{Probe, from_json, Unmarshal}
use atlas_exporter.Prelude.Text.{Text, codes, itoa}
use atlas_exporter.Prelude.{ℕ, Option, some, none, ◌++◌}

pub record Answer : Type 0 where
  pub status : ℕ
  -- `none` if the body cannot be read
  pub body : Option Text

abbrev pub url : Text
url = codes "https://atlas.ripe.net/api/v2/probes/"

module _ {F : Type 0} where
  unfoldable pub read_answer : Unmarshal F → Option Answer → Option (Probe F)
  unfolding from_json
  read_answer unmarshal none = none
  read_answer unmarshal (some answer) = elim answer.body [
    | none ↦ none
    | some body ↦ from_json unmarshal body
  ]

  unfoldable pub get : (Text → Option Answer) → Unmarshal F → ℤ → Option (Probe F)
  unfolding read_answer
  get http_get unmarshal id = read_answer unmarshal (http_get (url ++ itoa id))
