-- ===== src/Collector/Registration.antt =====
-- The descriptions with which a collector is registered: prometheus.Registry.MustRegister panics if two of
-- one name differ in their help or in the names of their labels.
use atlas_exporter.Exporter.Series.{build_fq_name, fq_name, hist_name}
use atlas_exporter.Exporter.Laws.{All-In}
use atlas_exporter.Atlas.Types.Laws.{measurement_for_type-All, opts-All, bare-All}
use atlas_exporter.Atlas.Types.{measurement_for_type}
use atlas_exporter.Config.{Config}
use atlas_exporter.Float.{Floats}
use atlas_exporter.Exporter.Measurement.{Measurement}
use atlas_exporter.Prelude.Equality.{◌==◌, list_eq, nat_eq, eqb_list_iff}
use atlas_exporter.Exporter.Laws.{In}
use atlas_exporter.Prelude.{
  ◌≡◌, List, ◌++◌, Bool, true, ◌∷◌, refl, not, ◌&&◌, inl, [], arith, ◌||◌, inr, map, false, ap, All,
  sym, ◌∙◌, some, ◌≢◌, All-imp,
}
use atlas_exporter.Prelude.Text.{Text, codes}
use atlas_exporter.Ping.Create.{new_measurement as ping_measurement}
use atlas_exporter.Traceroute.Create.{new_measurement as traceroute_measurement}
use atlas_exporter.Ntp.Create.{new_measurement as ntp_measurement}
use atlas_exporter.Dns.Create.{new_measurement as dns_measurement}
use atlas_exporter.Http.Create.{new_measurement as http_measurement}
use atlas_exporter.Sslcert.Create.{new_measurement as sslcert_measurement}
use atlas_exporter.Ping
use atlas_exporter.Traceroute
use atlas_exporter.Ntp
use atlas_exporter.Dns
use atlas_exporter.Http
use atlas_exporter.Sslcert
use atlas_exporter.Sslcert.{Digest}
use atlas_exporter.Exporter.{Desc}
use atlas_exporter.Collector.Total.{In-left, In-right}

abbrev pub Agree : Desc → Desc → Type 0
Agree d e = fq_name d ≡ fq_name e → (d.help ≡ e.help) × (d.labels ≡ e.labels)

agrees : Desc → List Desc → Bool
agrees d [] = true
agrees d (e ∷ es) =
    let rest = agrees d es in
    (not (fq_name d == fq_name e) || (d.help == e.help && d.labels == e.labels)) && rest

all_agree : List Desc → List Desc → Bool
all_agree [] es = true
all_agree (d ∷ ds) es = let rest = all_agree ds es in agrees d es && rest

agrees-Agree : (d e : Desc) (es : List Desc) → agrees d es ≡ true → In e es → Agree d e
unfolding agrees
agrees-Agree d e [] h m = absurd m
agrees-Agree d e (x ∷ es) h (inl same) = rw same λ k. ground (
  arith,
  eqb_list_iff (fq_name d) (fq_name x),
  eqb_list_iff d.help x.help,
  eqb_list_iff d.labels x.labels,
)
agrees-Agree d e (x ∷ es) h (inr m) = agrees-Agree d e es (ground (arith, h)) m

all_agree-Agree :
    (d e : Desc) (ds es : List Desc) → all_agree ds es ≡ true → In d ds → In e es → Agree d e
unfolding all_agree
all_agree-Agree d e [] es h m n = absurd m
all_agree-Agree d e (x ∷ ds) es h (inl same) n = rw same (agrees-Agree x e es (ground (arith, h)) n)
all_agree-Agree d e (x ∷ ds) es h (inr m) n = all_agree-Agree d e ds es (ground (arith, h)) m n

abbrev from_http : List Desc
from_http = Http.describe ++ Sslcert.describe

abbrev from_dns : List Desc
from_dns = Dns.describe ++ from_http

abbrev from_ntp : List Desc
from_ntp = Ntp.describe ++ from_dns

abbrev from_traceroute : List Desc
from_traceroute = Traceroute.describe ++ from_ntp

abbrev pub all_descs : List Desc
all_descs = Ping.describe ++ from_traceroute

all_descs-agree : all_agree all_descs all_descs ≡ true
unfolding all_agree agrees Ping.describe Traceroute.describe Ntp.describe Dns.describe Http.describe
    Sslcert.describe
all_descs-agree = refl

-- The names of the histograms.
abbrev pub hist_names : List Text
hist_names =
    map (λ sub. build_fq_name (codes "atlas") sub (codes "rtt_hist"))
      (Ping.sub ∷ Traceroute.sub ∷ Dns.sub ∷ Http.sub ∷ [])

has_name : Text → List Desc → Bool
has_name name [] = false
has_name name (d ∷ ds) = let rest = has_name name ds in fq_name d == name || rest

has_name-In :
    (name : Text) (d : Desc) (ds : List Desc) → In d ds → fq_name d ≡ name → has_name name ds ≡ true
unfolding has_name
has_name-In name d [] m e = absurd m
has_name-In name d (x ∷ ds) (inl same) e =
    let here : fq_name x ≡ name = ap fq_name (sym same) ∙ e in
    ground (arith, eqb_list_iff (fq_name x) name)
has_name-In name d (x ∷ ds) (inr m) e = ground (arith, has_name-In name d ds m e)

hist_names-apart : All (λ name. has_name name all_descs ≡ false) hist_names
unfolding has_name Ping.describe Traceroute.describe Ntp.describe Dns.describe Http.describe
    Sslcert.describe
hist_names-apart = (refl, (refl, (refl, (refl, tt))))

true-ne-false : ◌≡◌ {A = Bool} true false → ⊥
true-ne-false h = cc

traceroute-listed : (d : Desc) → In d from_traceroute → In d all_descs
traceroute-listed d = In-right d Ping.describe from_traceroute

ntp-listed : (d : Desc) → In d from_ntp → In d all_descs
ntp-listed d m = traceroute-listed d (In-right d Traceroute.describe from_ntp m)

dns-listed : (d : Desc) → In d from_dns → In d all_descs
dns-listed d m = ntp-listed d (In-right d Ntp.describe from_dns m)

http-listed : (d : Desc) → In d from_http → In d all_descs
http-listed d m = dns-listed d (In-right d Dns.describe from_http m)

module _ {F : Type 0} where
  -- All descriptions are among those above.
  abbrev pub IsListed : Measurement F → Type 0
  IsListed r =
      ((d : Desc) → In d r.exporter.describe → In d all_descs)
      × All (λ h. In (hist_name h) hist_names) r.histograms

module _ {F : Type 0} ⦃fl : Floats F⦄ where
  pub measurement_for_type-IsListed :
      (digest : Digest) (t id ip_version : Text) (cfg : Config F) (r : Measurement F)
      → measurement_for_type digest t id ip_version cfg ≡ some r
      → IsListed r
  unfolding ping_measurement traceroute_measurement ntp_measurement dns_measurement http_measurement
      sslcert_measurement Ping.exporter Traceroute.exporter Ntp.exporter Dns.exporter Http.exporter
      Sslcert.exporter atlas_exporter.Ping.Create.new_rtt_histogram
      atlas_exporter.Traceroute.Create.new_rtt_histogram atlas_exporter.Dns.Create.new_rtt_histogram
      atlas_exporter.Http.Create.new_rtt_histogram
  measurement_for_type-IsListed digest t id ip_version cfg r =
      measurement_for_type-All IsListed digest t id ip_version cfg r
        (opts-All IsListed _ _ _ _ _ _
          (λ _ _. (λ d. In-left d Ping.describe from_traceroute, (inl refl, tt))))
        (opts-All IsListed _ _ _ _ _ _ (λ _ _. (
          λ d m. traceroute-listed d (In-left d Traceroute.describe from_ntp m),
          (inr (inl refl), tt),
        )))
        (bare-All IsListed _ _ _ _ _
          (λ _ _. (λ d m. ntp-listed d (In-left d Ntp.describe from_dns m), tt)))
        (opts-All IsListed _ _ _ _ _ _ (λ _ _.
          (λ d m. dns-listed d (In-left d Dns.describe from_http m), (inr (inr (inl refl)), tt))))
        (opts-All IsListed _ _ _ _ _ _ (λ _ _. (
          λ d m. http-listed d (In-left d Http.describe Sslcert.describe m),
          (inr (inr (inr (inl refl))), tt),
        )))
        (bare-All IsListed _ _ _ _ _
          (λ _ _. (λ d m. http-listed d (In-right d Http.describe Sslcert.describe m), tt)))

  -- Of any two measurements that are made for types of results, descriptions of the same full name have
  -- the same help and the same names of labels, and no histogram has the full name of a description,
  -- without which the registration of a collector panics.
  pub measurement_for_type-Agree :
      (digest : Digest) (t t' id id' ip_version ip_version' : Text) (cfg cfg' : Config F)
      (r r' : Measurement F)
      → measurement_for_type digest t id ip_version cfg ≡ some r
      → measurement_for_type digest t' id' ip_version' cfg' ≡ some r'
      → ((d e : Desc) → In d r.exporter.describe → In e r'.exporter.describe → Agree d e)
        × ((d : Desc) → In d r.exporter.describe → All (λ h. fq_name d ≢ hist_name h) r'.histograms)
  measurement_for_type-Agree digest t t' id id' ip_version ip_version' cfg cfg' r r' h k =
      let (listed, _) = measurement_for_type-IsListed digest t id ip_version cfg r h in
      let (listed', named) = measurement_for_type-IsListed digest t' id' ip_version' cfg' r' k in
      (
        λ d e m n.
            all_agree-Agree d e all_descs all_descs all_descs-agree (listed d m) (listed' e n),
        λ d m.
            All-imp _ _ r'.histograms
              (λ hist among same.
                let absent : has_name (hist_name hist) all_descs ≡ false =
                  All-In (λ name. has_name name all_descs ≡ false) hist_names (hist_name hist)
                    hist_names-apart among in
                let present = has_name-In (hist_name hist) d all_descs (listed d m) same in
                true-ne-false (sym present ∙ absent))
              named,
      )
