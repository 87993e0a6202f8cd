-- ===== src/Dns.antt =====
-- Package dns (dns/exporter.go): what is exported of a DNS result.
pub mod Metrics
pub mod Series
pub mod Nsid
pub mod Create
use atlas_exporter.Prelude.Outcome.{Outcome, ◌>>=◌, deref, done}
use atlas_exporter.Probe.{Probe, latitude, longitude, asn_for_ip_version}
use atlas_exporter.Prelude.Int.{pos}
use atlas_exporter.Result.{DnsResult, Result, EdnsOption, Unpacked}
use atlas_exporter.Prelude.{
  List, String, ℕ, Option, ◌∷◌, Bool, if◌then◌else◌, some, [], leb, ◌*◌, none, ltb, ◌/◌, true, ◌&&◌,
  ◌+◌, ◌%◌, ◌||◌, ◌-◌, false,
}
use atlas_exporter.Prelude.Text.{Text, codes, itoa}
use atlas_exporter.Exporter.{Desc, Metric, Exporter, gauge}
use atlas_exporter.Float.{Floats, float, positive}

abbrev pub ns : Text
ns = codes "atlas"

abbrev pub sub : Text
sub = codes "dns"

abbrev labels : List Text
labels =
    codes "measurement"
    ∷ codes "probe"
    ∷ codes "dst_addr"
    ∷ codes "asn"
    ∷ codes "ip_version"
    ∷ codes "country_code"
    ∷ codes "lat"
    ∷ codes "long"
    ∷ codes "nsid"
    ∷ []

abbrev new_desc : String → String → Desc
new_desc name help = record {
  ns = ns;
  sub = sub;
  name = codes name;
  help = codes help;
  labels = labels;
}

abbrev success_desc : Desc
success_desc = new_desc "success" "Destination was reachable"

abbrev rtt_desc : Desc
rtt_desc = new_desc "rtt" "Roundtrip time in ms"

unfoldable pub describe : List Desc
describe = success_desc ∷ rtt_desc ∷ []

-- dnsExporter
pub record DnsExporter : Type 0 where
  pub id : Text
  pub nsid_enabled : Bool

-- hex.DecodeString and hex.EncodeToString
unfoldable pub nibble : ℕ → Option ℕ
nibble c =
    if leb b'0' c && leb c b'9'
    then some (c - b'0')
    else if leb b'a' c && leb c b'f'
    then some (c - b'a' + 10)
    else if leb b'A' c && leb c b'F'
    then some (c - b'A' + 10)
    else none

abbrev pub decode_pair : Option ℕ → Option ℕ → Option Text → Option Text
decode_pair (some a) (some b) (some rest) = some ((a * 16 + b) ∷ rest)
decode_pair _ _ _ = none

unfoldable pub decode_string : Text → Option Text
decode_string [] = some []
decode_string (c ∷ []) = none
decode_string (c ∷ d ∷ s) = decode_pair (nibble c) (nibble d) (decode_string s)

unfoldable pub hex_digit : ℕ → ℕ
hex_digit n = if ltb n 10 then b'0' + n else b'a' + (n - 10)

unfoldable pub encode_to_string : Text → Text
encode_to_string [] = []
encode_to_string (b ∷ bs) = hex_digit (b / 16) ∷ hex_digit (b % 16) ∷ encode_to_string bs

-- isASCIIPrintable
unfoldable pub is_ascii_printable : Text → Bool
is_ascii_printable [] = true
is_ascii_printable (b ∷ bs) =
    let rest = is_ascii_printable bs in if ltb b 32 || ltb 126 b then false else rest

-- The loop over the options: it returns at the first NSID whose text is hexadecimal.
unfoldable pub nsid_loop : List EdnsOption → Text
nsid_loop [] = []
nsid_loop (EdnsOption.other ∷ os) = nsid_loop os
nsid_loop (EdnsOption.nsid t ∷ os) = elim (decode_string t) [
  | none ↦ nsid_loop os
  | some raw ↦ if is_ascii_printable raw then raw else encode_to_string raw
]

unfoldable pub extract_nsid : {F : Type 0} → DnsResult F → Text
unfolding nsid_loop
extract_nsid result = elim result.unpack_abuf [
  | Unpacked.failed ↦ []
  | Unpacked.nil ↦ []
  | Unpacked.no_edns0 ↦ []
  | Unpacked.edns0 options ↦ nsid_loop options
]

module _ {F : Type 0} ⦃fl : Floats F⦄ where
  unfoldable pub nsid_label : DnsExporter → Option (DnsResult F) → Text
  nsid_label m none = []
  nsid_label m (some d) = if m.nsid_enabled then extract_nsid d else []

  unfoldable pub rtt_of : Option (DnsResult F) → F
  rtt_of none = float (pos 0)
  rtt_of (some d) = d.rt

  unfoldable pub label_values : DnsExporter → Result F → Probe F → Outcome (List Text)
  label_values m res p = do
    lat ← latitude p
    long ← longitude p
    done (
        m.id
        ∷ itoa p.id
        ∷ res.dst_addr
        ∷ itoa (asn_for_ip_version p res.af)
        ∷ itoa res.af
        ∷ p.country_code
        ∷ lat
        ∷ long
        ∷ nsid_label m res.dns_result
        ∷ [])

  unfoldable pub metrics : Result F → List Text → List (Metric F)
  metrics res values =
      let rtt = rtt_of res.dns_result in
      if positive rtt
      then gauge success_desc (float (pos 1)) values ∷ gauge rtt_desc rtt values ∷ []
      else gauge success_desc (float (pos 0)) values ∷ []

  unfoldable pub export :
      DnsExporter → Text → Result F → Option (Probe F) → Outcome (Text × List (Metric F))
  export m global res probe = do
    p ← deref probe
    values ← label_values m res p
    done (global, metrics res values)

  unfoldable pub exporter : DnsExporter → Exporter F
  unfolding export describe
  exporter m = record { export = export m; describe = describe }
