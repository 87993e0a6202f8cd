-- ===== src/Server/Registry.antt =====
-- What `handleMetricsRequest` registers for one scrape: prometheus.Registry.MustRegister panics if two
-- collectors have a description in common, or descriptions of one name that do not agree.
use atlas_exporter.Collector.Registration.{IsListed}
use atlas_exporter.Server.Scrape.{if-All}
use atlas_exporter.Collector.Grown.{IsGrown, IsGrown-IsListed}
use atlas_exporter.Config.{Config}
use atlas_exporter.Collector.{new_collector}
use atlas_exporter.Exporter.Measurement.{Measurement}
use atlas_exporter.Server.{Registered, registry}
use atlas_exporter.Float.{Floats}
use atlas_exporter.Collector.Names.{
  has, own_names, first, foreign, full_name, has-false, names-foreign, describe_all-IsForeign,
}
use atlas_exporter.Prelude.Text.{Text, codes}
use atlas_exporter.Prelude.{
  List, ℕ, Bool, All, ◌≡◌, ◌≢◌, ◌∷◌, Pairwise, ◌++◌, [], true, All-imp, if◌then◌else◌, map, subst,
  sym, false, ap, arith, ◌∙◌, refl, Pairwise-append, All-append, ltb, length,
}
use atlas_exporter.Atlas.Metrics
use atlas_exporter.Prelude.Equality.{◌==◌, list_eq, nat_eq}
use atlas_exporter.Collector

abbrev pub Disjoint : List Text → List Text → Type 0
Disjoint xs ys = All (λ x. All (λ y. x ≢ y) ys) xs

abbrev pub Begins : Text → Text → Type 0
Begins prefix t = (rest : Text) × (t ≡ prefix ++ rest)

module _ {F : Type 0} where
  -- The names of what is registered; those of the process collector and of the Go collector are the
  -- library's.
  abbrev pub names : List Text → List Text → Registered F → List Text
  names process go Registered.process_collector = process
  names process go Registered.go_collector = go
  names process go Registered.stream_connected_gauge = Metrics.stream_connected_gauge.name ∷ []
  names process go Registered.last_data_timestamp_gauge =
      Metrics.last_data_timestamp_gauge.name ∷ []
  names process go Registered.build_info_gauge = Metrics.build_info_gauge.name ∷ []
  names process go Registered.scrape_build_duration = Metrics.scrape_build_duration.name ∷ []
  names process go (Registered.collector c) = map full_name (Collector.describe c)

has-foreign : (o y : Text) → has o own_names ≡ true → foreign y ≡ true → o ≢ y
has-foreign o y h k e =
    let own : has y own_names ≡ true = subst (λ t. has t own_names ≡ true) e h in
    ground (arith, k, own)

own-Disjoint :
    (o : Text) (ys : List Text)
    → has o own_names ≡ true
    → All (λ t. foreign t ≡ true) ys
    → Disjoint (o ∷ []) ys
own-Disjoint o ys h k =
    (All-imp (λ t. foreign t ≡ true) (λ y. o ≢ y) ys (λ y. has-foreign o y h) k, tt)

first-Disjoint :
    (a b : ℕ) (xs ys : List Text)
    → a ≢ b
    → All (λ x. first x ≡ a) xs
    → All (λ y. first y ≡ b) ys
    → Disjoint xs ys
first-Disjoint a b xs ys apart h k =
    All-imp (λ x. first x ≡ a) (λ x. All (λ y. x ≢ y) ys) xs
      (λ x here.
        All-imp (λ y. first y ≡ b) (λ y. x ≢ y) ys
          (λ y there e. apart (sym here ∙ (ap first e ∙ there))) k)
      h

single : (a b : Text) → has a (b ∷ []) ≡ false → Disjoint (a ∷ []) (b ∷ [])
single a b h = (has-false a (b ∷ []) h, tt)

abbrev own : {F : Type 0} → List (Registered F)
own =
    Registered.stream_connected_gauge ∷ Registered.last_data_timestamp_gauge
    ∷ Registered.build_info_gauge ∷ Registered.scrape_build_duration ∷ []

Begins-first :
    (prefix : Text) (a : ℕ) (ts : List Text)
    → ((rest : Text) → first (prefix ++ rest) ≡ a)
    → All (Begins prefix) ts
    → All (λ t. first t ≡ a) ts
Begins-first prefix a ts h k =
    All-imp (Begins prefix) (λ t. first t ≡ a) ts (λ t (rest, e). ap first e ∙ h rest) k

one-Pairwise :
    {A : Type 0} (R : A → A → Type 0) (b : Bool) (x : A) → Pairwise R (if b then x ∷ [] else [])
one-Pairwise R true x = (tt, tt)
one-Pairwise R false x = tt

-- The exporter's own metrics, and the collector of the measurements.
abbrev exporter_part : {F : Type 0} → List (Measurement F) → Bool → List (Registered F)
exporter_part ms b = own ++ (if b then Registered.collector (new_collector ms) ∷ [] else [])

own-Apart :
    (F : Type 0) (process go : List Text)
    → Pairwise (λ (r s : Registered F). Disjoint (names process go r) (names process go s)) own
unfolding has
own-Apart F process go = (
  (single _ _ refl, (single _ _ refl, (single _ _ refl, tt))),
  ((single _ _ refl, (single _ _ refl, tt)), ((single _ _ refl, tt), (tt, tt))),
)

module _ {F : Type 0} ⦃fl : Floats F⦄ where
  module _ (process go : List Text) where
    abbrev Apart : Registered F → Registered F → Type 0
    Apart r s = Disjoint (names process go r) (names process go s)

    abbrev Known : Registered F → Type 0
    Known r = All (λ t. first t ≡ b'a') (names process go r)

    exporter-Apart :
        (ms : List (Measurement F)) (b : Bool)
        → All (λ t. foreign t ≡ true) (map full_name (Collector.describe_all ms))
        → Pairwise Apart (exporter_part ms b)
    unfolding has new_collector Collector.describe
    exporter-Apart ms true h =
        Pairwise-append Apart own (Registered.collector (new_collector ms) ∷ [])
          (own-Apart F process go) (tt, tt)
          (
            (own-Disjoint _ _ refl h, tt),
            (
              (own-Disjoint _ _ refl h, tt),
              ((own-Disjoint _ _ refl h, tt), ((own-Disjoint _ _ refl h, tt), tt)),
            ),
          )
    exporter-Apart ms false h =
        Pairwise-append Apart own [] (own-Apart F process go) tt (tt, (tt, (tt, (tt, tt))))

    exporter-Known :
        (ms : List (Measurement F)) (b : Bool)
        → All (λ t. foreign t ≡ true) (map full_name (Collector.describe_all ms))
        → All Known (exporter_part ms b)
    unfolding new_collector Collector.describe
    exporter-Known ms b h =
        let mine : All Known own = ((refl, tt), ((refl, tt), ((refl, tt), ((refl, tt), tt)))) in
        All-append Known own _ mine (
          if-All Known b (Registered.collector (new_collector ms) ∷ []) (
            All-imp (λ t. foreign t ≡ true) (λ t. first t ≡ b'a') _
                (λ t k.
                  let here : (first t == b'a') ≡ true = ground (arith, k) in
                  (nat_eq.beq_iff (first t) b'a').0 here)
                h,
            tt,
          ))

    library-Apart :
        (a : ℕ) (r : Registered F) (xs : List (Registered F))
        → a ≢ b'a'
        → All (λ t. first t ≡ a) (names process go r)
        → All Known xs
        → All (Apart r) xs
    library-Apart a r xs other h k =
        All-imp Known (Apart r) xs
          (λ s. first-Disjoint a b'a' (names process go r) (names process go s) other h) k

  -- Where the names of the library's process collector begin with process_, and those of its Go
  -- collector with go_, no two of the collectors that `handleMetricsRequest` registers for one scrape
  -- have a full name in common, whatever measurements are scraped that were made for a type of results
  -- and then got results.
  pub registry-Disjoint :
      (process go : List Text) (cfg : Config F) (ms : List (Measurement F))
      → All (Begins (codes "process_")) process
      → All (Begins (codes "go_")) go
      → All IsGrown ms
      → Pairwise (λ r s. Disjoint (names process go r) (names process go s)) (registry cfg ms)
  unfolding registry
  registry-Disjoint process go cfg ms p g h =
      let foreign_names =
        names-foreign (Collector.describe_all ms)
          (describe_all-IsForeign ms (All-imp IsGrown IsListed ms IsGrown-IsListed h)) in
      let known = exporter-Known process go ms (ltb 0 (length ms)) foreign_names in
      let ps : All (λ t. first t ≡ b'p') process =
        Begins-first (codes "process_") b'p' process (λ rest. refl) p in
      let gs : All (λ t. first t ≡ b'g') go = Begins-first (codes "go_") b'g' go (λ rest. refl) g in
      let part = exporter_part ms (ltb 0 (length ms)) in
      let later =
        library-Apart process go b'g' Registered.go_collector part (λ e. omega arith) gs known in
      let across =
        if-All (Apart process go Registered.process_collector) cfg.metrics.go_enabled
          (Registered.go_collector ∷ [])
          (first-Disjoint b'p' b'g' process go (λ e. omega arith) ps gs, tt) in
      Pairwise-append (Apart process go) _ _ (one-Pairwise _ cfg.metrics.process_enabled _)
        (Pairwise-append (Apart process go) _ _ (one-Pairwise _ cfg.metrics.go_enabled _)
          (exporter-Apart process go ms (ltb 0 (length ms)) foreign_names)
          (if-All _ cfg.metrics.go_enabled (Registered.go_collector ∷ []) (later, tt)))
        (if-All _ cfg.metrics.process_enabled (Registered.process_collector ∷ []) (
          All-append _ _ _ across (
              library-Apart process go b'p' Registered.process_collector part (λ e. omega arith) ps
                known),
          tt,
        ))
