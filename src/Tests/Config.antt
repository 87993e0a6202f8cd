-- ===== src/Tests/Config.antt =====
-- Configurations, buckets, names of variables, and the NSID and the last hop of a result.
use atlas_exporter.Config.{Config}
use atlas_exporter.Config.Accept.{IsValid, validate_iff}
use atlas_exporter.Dns.Nsid.{encode-decode, extract_nsid-printable}
use atlas_exporter.Prelude.Text.{codes}
use atlas_exporter.Config.Env.RoundTrip.{env_name, env_transform-env_name}
use atlas_exporter.Prelude.Int.{ℤ, pos}
use atlas_exporter.Result.{DnsResult, Result, Unpacked, EdnsOption}
use atlas_exporter.Dns.{encode_to_string, is_ascii_printable, extract_nsid, decode_string, nibble}
use atlas_exporter.Config.Env.{env_transform, to_lower, join}
use atlas_exporter.Prelude.{◌≡◌, arith, ◌∷◌, true, none, [], ◌↔◌, refl, some}
use atlas_exporter.Config.Validate.{validate}
use atlas_exporter.Tests.Data.{config_with, int_floats, result_at, AtMost-trans, no_buckets}

abbrev bucketed : Config ℤ
bucketed = record (config_with (codes "/metrics") (pos 0)) {
  histogram_buckets = record {
    dns = no_buckets;
    http = no_buckets;
    ping = record { rtt = some (pos 5 ∷ pos 5 ∷ pos 9 ∷ []) };
    traceroute = no_buckets;
  };
}

validate_iff_example : (validate bucketed ≡ none) ↔ IsValid bucketed
validate_iff_example = validate_iff bucketed (
  λ x y z a b c. AtMost-trans x y z,
  λ x y z a b c. AtMost-trans x y z,
  λ x y z a b c. AtMost-trans x y z,
  λ x y z a b c. AtMost-trans x y z,
)

env_transform-env_name_example :
    env_transform (env_name (codes "tls" ∷ codes "key_file" ∷ [])) (codes "7")
    ≡ (codes "tls.key_file", codes "7")
unfolding to_lower join
env_transform-env_name_example =
    env_transform-env_name (codes "tls") (codes "key_file" ∷ []) (codes "7") (ground arith)

encode-decode_example : encode_to_string (codes "no1") ≡ codes "6e6f31"
unfolding decode_string nibble to_lower
encode-decode_example = encode-decode (codes "6E6F31") (codes "no1") refl

abbrev hostile : DnsResult ℤ
hostile = record {
  rt = pos 3;
  unpack_abuf = Unpacked.edns0 (EdnsOption.other ∷ EdnsOption.nsid (codes "00ff") ∷ []);
}

extract_nsid-printable_example : is_ascii_printable (extract_nsid hostile) ≡ true
extract_nsid-printable_example = extract_nsid-printable hostile

abbrev traced : Result ℤ
traced = record (result_at (codes "traceroute") (pos 1003) (pos 7) (pos 0)) {
  traceroute_results =
      record { replies = record { from = codes "198.51.100.1"; rtt = pos 2 } ∷ [] }
      ∷ record {
        replies =
            record { from = codes "192.0.2.1"; rtt = pos 5 }
            ∷ record { from = codes "198.51.100.9"; rtt = pos 8 }
            ∷ [];
      }
      ∷ [];
}
