-- ===== src/Traceroute/LastHop.antt =====
-- What `processLastHop` returns.
use atlas_exporter.Prelude.Equality.{◌==◌, list_eq, nat_eq}
use atlas_exporter.Prelude.Int.{ℤ, pos}
use atlas_exporter.Result.{Reply, Result, TracerouteResult}
use atlas_exporter.Prelude.{Option, List, Bool, some, false, none, ◌∷◌, if◌then◌else◌, [], true}
use atlas_exporter.Prelude.Text.{Text}
use atlas_exporter.Traceroute.{last}
use atlas_exporter.Float.{Floats, float}

module _ {F : Type 0} ⦃fl : Floats F⦄ where
  -- Some reply comes from the destination.
  abbrev pub reached : Text → List (Reply F) → Bool
  reached dst_addr [] = false
  reached dst_addr (rep ∷ reps) = if rep.from == dst_addr then true else reached dst_addr reps

  abbrev pub rtt_or : Option (Reply F) → F → F
  rtt_or none t = t
  rtt_or (some l) t = l.rtt

  -- An independent account of the last hop: a success if some reply comes from the destination, and the
  -- round trip time of the last reply, whoever sent it.
  pub hop_summary : Text → Option (TracerouteResult F) → ℤ × F
  hop_summary dst_addr none = (pos 0, float (pos 0))
  hop_summary dst_addr (some hop) = (
    if reached dst_addr hop.replies then pos 1 else pos 0,
    rtt_or (last hop.replies) (float (pos 0)),
  )
