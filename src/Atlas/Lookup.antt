-- ===== src/Atlas/Lookup.antt =====
-- atlas/helper.go: how the probes of a list of results are looked up. `fetch` is `probe.Get`, the
-- request to the API and the decoding of its answer; `none` is an error. Instants are arguments.
pub mod ErrorBody
pub mod Found
pub mod Values
use atlas_exporter.Prelude.Equality.{◌==◌, int_eq}
use atlas_exporter.Prelude.Dict.{Dict, insert}
use atlas_exporter.Result.{Result}
use atlas_exporter.Prelude.{
  List, Option, Bool, ℕ, false, some, ◌∷◌, if◌then◌else◌, [], none, true, suc, zero,
}
use atlas_exporter.Prelude.Int.{ℤ}
use atlas_exporter.Probe.{Probe}
use atlas_exporter.Probe.Cache.{Cache}
use atlas_exporter.Probe.Cache

abbrev pub Fetch : Type 0 → Type 0
Fetch F = ℤ → Option (Probe F)

unfoldable pub found_in : ℤ → List ℤ → Bool
found_in id [] = false
found_in id (k ∷ ks) = if k == id then true else found_in id ks

module _ {F : Type 0} where
  -- The cache is asked at `read`, and what was fetched is stored at `stored`.
  unfoldable pub probe_for_id : Fetch F → ℤ → ℤ → Cache F → ℤ → Cache F × Option (Probe F)
  probe_for_id fetch read stored c id = elim (Cache.get c read id) [
    | some p ↦ (c, some p)
    | none ↦ elim (fetch id) [ none ↦ (c, none) | some p ↦ (Cache.add c stored id p, some p) ]
  ]

  -- The ids that the producer sends: `added` has those that it sent before.
  unfoldable pub produce : List ℤ → List (Result F) → List ℤ
  unfolding found_in
  produce added [] = []
  produce added (m ∷ ms) = elim (found_in m.prb_id added) [
    | true ↦ produce added ms
    | false ↦ m.prb_id ∷ produce (m.prb_id ∷ added) ms
  ]

  -- One round of the receiving loop: the first error ends it, and a probe is stored under the id that it
  -- has itself.
  unfoldable pub receive_next :
      (Cache F → Dict ℤ (Probe F) → Cache F × Option (Dict ℤ (Probe F)))
      → Dict ℤ (Probe F)
      → Cache F × Option (Probe F)
      → Cache F × Option (Dict ℤ (Probe F))
  receive_next rounds probes (c, none) = (c, none)
  receive_next rounds probes (c, some p) = rounds c (insert p.id p probes)

  -- The consumers and the receiving loop, for ids in the order in which their answers arrive. `clock id`
  -- is the time at which the id is looked up.
  unfoldable pub receive :
      Fetch F → (ℤ → ℤ) → List ℤ → Cache F → Dict ℤ (Probe F) → Cache F × Option (Dict ℤ (Probe F))
  unfolding receive_next
  receive fetch clock [] c probes = (c, some probes)
  receive fetch clock (id ∷ ids) c probes =
      receive_next (receive fetch clock ids) probes (probe_for_id fetch (clock id) (clock id) c id)

  -- With no worker nothing is looked up, and the channel is closed at once.
  unfoldable pub probes_for_results :
      Fetch F
      → (ℤ → ℤ)
      → (List ℤ → List ℤ)
      → ℕ
      → Cache F
      → List (Result F)
      → Cache F × Option (Dict ℤ (Probe F))
  unfolding produce receive
  probes_for_results fetch clock arrival zero c res = (c, some [])
  probes_for_results fetch clock arrival (suc workers) c res =
      receive fetch clock (arrival (produce [] res)) c []
