-- ===== src/Result.antt =====
-- Measurement results as the program sees them: the values that the accessors of the types
-- `measurement.Result`, `dns.Result` and so on of github.com/DNS-OARC/ripeatlas return for one result.
-- How a result is decoded is not part of the repository, so any combination of values may occur.
use atlas_exporter.Prelude.{List, Option}
use atlas_exporter.Prelude.Int.{ℤ}
use atlas_exporter.Prelude.Text.{Text}

pub record PingResult (F : Type 0) : Type 0 where
  pub rtt : F

pub record Reply (F : Type 0) : Type 0 where
  pub from : Text
  pub rtt : F

pub record TracerouteResult (F : Type 0) : Type 0 where
  pub replies : List (Reply F)

pub record HttpResult (F : Type 0) : Type 0 where
  pub dst_addr : Text
  pub af : ℤ
  pub method : Text
  pub dnserr : Text
  pub ver : Text
  pub res : ℤ
  pub bsize : ℤ
  pub hsize : ℤ
  pub rt : F

-- An EDNS0 option: an NSID with its hexadecimal text, or one of another type.
pub data EdnsOption : Type 0 where
  nsid : Text → EdnsOption
  other : EdnsOption

-- What `UnpackAbuf` gives: an error, a nil message, a message with no EDNS0 record, or one with the
-- options of that record.
pub data Unpacked : Type 0 where
  failed nil no_edns0 : Unpacked
  edns0 : List EdnsOption → Unpacked

pub record DnsResult (F : Type 0) : Type 0 where
  pub rt : F
  pub unpack_abuf : Unpacked

pub record SslcertAlert : Type 0 where
  pub level : ℤ
  pub description : ℤ

pub record Result (F : Type 0) : Type 0 where
  pub parse_error : Option Text
  pub type : Text
  pub msm_id : ℤ
  pub prb_id : ℤ
  pub timestamp : ℤ
  pub af : ℤ
  pub dst_addr : Text
  pub dst_name : Text
  pub proto : Text
  pub uri : Text
  pub ver : Text
  pub min : F
  pub max : F
  pub avg : F
  pub rt : F
  pub sent : ℤ
  pub rcvd : ℤ
  pub dup : ℤ
  pub ttl : ℤ
  pub size : ℤ
  pub poll : F
  pub precision : F
  pub root_delay : F
  pub root_dispersion : F
  pub version : ℤ
  pub ping_results : List (PingResult F)
  pub traceroute_results : List (TracerouteResult F)
  pub http_results : List (HttpResult F)
  pub dns_result : Option (DnsResult F)
  pub cert : List Text
  pub sslcert_alert : Option SslcertAlert
