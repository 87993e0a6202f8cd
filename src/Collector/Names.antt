-- ===== src/Collector/Names.antt =====
-- The full names of what a collector describes, beside those of the exporter's own metrics.
use atlas_exporter.Exporter.Series.{fq_name, hist_name, build_fq_name}
use atlas_exporter.Exporter.Laws.{In, All-In}
use atlas_exporter.Collector.Registration.{all_descs, IsListed, hist_names}
use atlas_exporter.Exporter.{Desc, Histogram}
use atlas_exporter.Prelude.Text.{Text}
use atlas_exporter.Prelude.{
  List, All, ◌∷◌, Bool, ℕ, ◌≡◌, [], false, ◌&&◌, true, map, ◌||◌, not, inl, ◌≢◌, All-append, refl,
  arith, inr,
}
use atlas_exporter.Exporter.Measurement.{Description, desc, Measurement, hist_desc}
use atlas_exporter.Collector
use atlas_exporter.Exporter.Measurement
use atlas_exporter.Atlas.Metrics
use atlas_exporter.Prelude.Equality.{◌==◌, list_eq, nat_eq, eqb_list_iff}
use atlas_exporter.Ping
use atlas_exporter.Traceroute
use atlas_exporter.Ntp
use atlas_exporter.Dns
use atlas_exporter.Http
use atlas_exporter.Sslcert

-- The full name of what a collector describes.
abbrev pub full_name : {F : Type 0} → Description F → Text
full_name (desc d) = fq_name d
full_name (hist_desc o) = build_fq_name o.ns o.sub o.name

abbrev pub own_names : List Text
own_names =
    Metrics.stream_connected_gauge.name ∷ Metrics.last_data_timestamp_gauge.name
    ∷ Metrics.build_info_gauge.name ∷ Metrics.scrape_build_duration.name ∷ []

unfoldable pub has : Text → List Text → Bool
has t [] = false
has t (x ∷ xs) = let rest = has t xs in t == x || rest

-- The first byte.
abbrev pub first : Text → ℕ
first [] = 0
first (c ∷ cs) = c

-- A name that begins with an a, and is not one of the exporter's own.
abbrev pub foreign : Text → Bool
foreign t = first t == b'a' && not (has t own_names)

all_foreign : List Desc → Bool
all_foreign [] = true
all_foreign (d ∷ ds) = let rest = all_foreign ds in foreign (fq_name d) && rest

all_foreign-In :
    (d : Desc) (ds : List Desc) → all_foreign ds ≡ true → In d ds → foreign (fq_name d) ≡ true
unfolding all_foreign
all_foreign-In d [] h m = absurd m
all_foreign-In d (x ∷ ds) h (inl same) = rw same (ground (arith, h))
all_foreign-In d (x ∷ ds) h (inr m) = all_foreign-In d ds (ground (arith, h)) m

all_descs-foreign : all_foreign all_descs ≡ true
unfolding all_foreign has Ping.describe Traceroute.describe Ntp.describe Dns.describe Http.describe
    Sslcert.describe
all_descs-foreign = refl

hist_names-foreign : All (λ t. foreign t ≡ true) hist_names
unfolding has
hist_names-foreign = (refl, (refl, (refl, (refl, tt))))

pub has-false : (t : Text) (xs : List Text) → has t xs ≡ false → All (λ x. t ≢ x) xs
unfolding has
has-false t [] h = tt
has-false t (x ∷ xs) h = (
  (λ e. let here = (eqb_list_iff t x).1 e in ground (arith, h, here)),
  has-false t xs (ground (arith, h)),
)

abbrev pub IsForeign : {F : Type 0} → Description F → Type 0
IsForeign d = foreign (full_name d) ≡ true

descs-IsForeign :
    (F : Type 0) (ds : List Desc)
    → ((d : Desc) → In d ds → In d all_descs)
    → All (IsForeign {F = F}) (map desc ds)
descs-IsForeign F [] h = tt
descs-IsForeign F (d ∷ ds) h = (
  all_foreign-In d all_descs all_descs-foreign (h d (inl refl)),
  descs-IsForeign F ds (λ e m. h e (inr m)),
)

module _ {F : Type 0} where
  histograms-IsForeign :
      (hs : List (Histogram F))
      → All (λ h. In (hist_name h) hist_names) hs
      → All IsForeign (map (λ h. hist_desc h.opts) hs)
  histograms-IsForeign [] h = tt
  histograms-IsForeign (x ∷ hs) h = (
    All-In (λ t. foreign t ≡ true) hist_names (hist_name x) hist_names-foreign h.0,
    histograms-IsForeign hs h.1,
  )

  pub describe_all-IsForeign :
      (ms : List (Measurement F)) → All IsListed ms → All IsForeign (Collector.describe_all ms)
  unfolding Collector.describe_all Measurement.describe
  describe_all-IsForeign [] h = tt
  describe_all-IsForeign (m ∷ ms) h =
      All-append IsForeign (Measurement.describe m) (Collector.describe_all ms)
        (All-append IsForeign (map desc m.exporter.describe)
          (map (λ x. hist_desc x.opts) m.histograms) (descs-IsForeign F m.exporter.describe h.0.0)
          (histograms-IsForeign m.histograms h.0.1))
        (describe_all-IsForeign ms h.1)

  pub names-foreign :
      (ds : List (Description F))
      → All IsForeign ds
      → All (λ t. foreign t ≡ true) (map full_name ds)
  names-foreign [] h = tt
  names-foreign (d ∷ ds) h = (h.0, names-foreign ds h.1)
