-- ===== src/Server/Routes.antt =====
-- The routes of `startServer`. What net/http decides of patterns is an argument: which it can parse, and
-- which two are in conflict, at which http.HandleFunc panics.
use atlas_exporter.Exporter.Laws.{In}
use atlas_exporter.Prelude.{
  Bool, if◌then◌else◌, ◌≡◌, false, not, List, true, ◌↔◌, ◌∷◌, [], ◌⊎◌, ◌||◌, map, arith, Bool-cases,
  inr, some, inl, subst, refl,
}
use atlas_exporter.Prelude.Equality.{list_eq, nat_eq, eqb_list_iff, ◌==◌}
use atlas_exporter.Prelude.Outcome.{Outcome, ◌>>=◌, panic, done}
use atlas_exporter.Prelude.Text.{Text, codes}
use atlas_exporter.Prelude.Dict.{Dict, lookup, keys}

pub data Handler : Type 0 where
  index metrics healthz ready profiling : Handler

abbrev pub Routes : Type 0
Routes = Dict Text Handler

pub record Patterns : Type 0 where
  pub valid : Text → Bool
  pub conflict : Text → Text → Bool

-- The pattern is in conflict with one that is registered.
unfoldable pub clashes : Patterns → Text → Routes → Bool
clashes ps pattern [] = false
clashes ps pattern ((old, h) ∷ routes) =
    let rest = clashes ps pattern routes in ps.conflict pattern old || rest

unfoldable pub handle_func : Patterns → Text → Handler → Routes → Outcome Routes
unfolding clashes
handle_func ps pattern h routes =
    if not (ps.valid pattern)
    then panic
    else if clashes ps pattern routes
    then panic
    else done ((pattern, h) ∷ routes)

-- The mux that `main` leaves: an empty one, or with profiling the default one, with the patterns that
-- net/http/pprof has registered.
unfoldable pub first_routes : Bool → List Text → Routes
first_routes profiling_enabled pprof =
    if not profiling_enabled then [] else map (λ p. (p, profiling)) pprof

unfoldable pub register_routes : Patterns → Routes → Text → Outcome Routes
unfolding handle_func
register_routes ps routes telemetry_path = do
  r ← handle_func ps (codes "/") index routes
  r' ← handle_func ps telemetry_path metrics r
  r'' ← handle_func ps (codes "/healthz") healthz r'
  handle_func ps (codes "/readyz") ready r''

-- What the code relies on in net/http: a pattern is in conflict with itself, and the three fixed patterns
-- can be parsed and are in conflict neither with one another nor with the patterns of the mux.
pub record Separates (ps : Patterns) (routes : Routes) : Type 0 where
  pub itself : (p : Text) → ps.conflict p p ≡ true
  pub index_valid : ps.valid (codes "/") ≡ true
  pub healthz_valid : ps.valid (codes "/healthz") ≡ true
  pub readyz_valid : ps.valid (codes "/readyz") ≡ true
  pub healthz_index : ps.conflict (codes "/healthz") (codes "/") ≡ false
  pub readyz_index : ps.conflict (codes "/readyz") (codes "/") ≡ false
  pub readyz_healthz : ps.conflict (codes "/readyz") (codes "/healthz") ≡ false
  pub index_apart : clashes ps (codes "/") routes ≡ false
  pub healthz_apart : clashes ps (codes "/healthz") routes ≡ false
  pub readyz_apart : clashes ps (codes "/readyz") routes ≡ false

-- One of the registered patterns is in conflict with this one.
abbrev pub Clash : Patterns → Text → Routes → Type 0
Clash ps pattern routes = (p : Text) × In p (keys routes) × (ps.conflict pattern p ≡ true)

clashes_iff :
    (ps : Patterns) (pattern : Text) (routes : Routes)
    → (clashes ps pattern routes ≡ true) ↔ Clash ps pattern routes
unfolding clashes
clashes_iff ps pattern [] = (λ h. cc, λ (p, m, e). absurd m)
clashes_iff ps pattern ((old, h) ∷ routes) = (
  (λ e. elim (Bool-cases (ps.conflict pattern old)) [
    | inl here ↦ (old, inl refl, here)
    | inr other ↦
        let (p, m, k) = (clashes_iff ps pattern routes).0 (ground (arith, e, other)) in
        (p, inr m, k)
  ]),
  (λ (p, m, e). elim m [
    | inl same ↦
        let here : ps.conflict pattern old ≡ true =
          subst (λ q. ps.conflict pattern q ≡ true) same e in
        ground (arith, here)
    | inr later ↦
        let there = (clashes_iff ps pattern routes).1 (p, later, e) in ground (arith, there)
  ]),
)

-- The telemetry path is in conflict with another pattern.
abbrev pub Conflicts : Patterns → Routes → Text → Type 0
Conflicts ps routes path =
    (ps.conflict path (codes "/") ≡ true)
    ⊎ (Clash ps path routes
        ⊎ ((ps.conflict (codes "/healthz") path ≡ true)
            ⊎ (ps.conflict (codes "/readyz") path ≡ true)))

-- The registration of the routes panics exactly if the telemetry path cannot be parsed or is in conflict
-- with another pattern.
pub register_routes_iff :
    (ps : Patterns) (routes : Routes) (path : Text)
    → Separates ps routes
    → (register_routes ps routes path ≡ panic)
      ↔ ((ps.valid path ≡ false) ⊎ Conflicts ps routes path)
unfolding register_routes clashes
register_routes_iff ps routes path h = ground (
  arith,
  h.index_valid,
  h.healthz_valid,
  h.readyz_valid,
  h.healthz_index,
  h.readyz_index,
  h.readyz_healthz,
  h.index_apart,
  h.healthz_apart,
  h.readyz_apart,
  clashes_iff ps path routes,
)

-- What is registered, if nothing is refused.
abbrev pub all_routes : Routes → Text → Routes
all_routes routes path =
    (codes "/readyz", ready)
    ∷ (codes "/healthz", healthz)
    ∷ (path, metrics)
    ∷ (codes "/", index)
    ∷ routes

pub register_routes-all :
    (ps : Patterns) (routes : Routes) (path : Text)
    → Separates ps routes
    → ps.valid path ≡ true
    → ¬ (Conflicts ps routes path)
    → register_routes ps routes path ≡ done (all_routes routes path)
unfolding register_routes clashes
register_routes-all ps routes path h ok apart =
    let never : (clashes ps path routes ≡ true) → ⊥ =
      λ e. apart (inr (inl ((clashes_iff ps path routes).0 e))) in
    let index_free : (ps.conflict path (codes "/") ≡ true) → ⊥ = λ e. apart (inl e) in
    let healthz_free : (ps.conflict (codes "/healthz") path ≡ true) → ⊥ =
      λ e. apart (inr (inr (inl e))) in
    let readyz_free : (ps.conflict (codes "/readyz") path ≡ true) → ⊥ =
      λ e. apart (inr (inr (inr e))) in
    ground (
      arith, never, index_free, healthz_free, readyz_free, h.index_valid, h.healthz_valid,
      h.readyz_valid, h.healthz_index, h.readyz_index, h.readyz_healthz, h.index_apart,
      h.healthz_apart, h.readyz_apart,
    )

apart-false :
    (ps : Patterns) (p q : Text)
    → ((r : Text) → ps.conflict r r ≡ true)
    → (ps.conflict p q ≡ true → ⊥)
    → (p == q) ≡ false
apart-false ps p q itself apart = elim (Bool-cases (p == q)) [
  | inl same ↦
      let e = (eqb_list_iff p q).0 same in
      absurd (apart (subst (λ r. ps.conflict p r ≡ true) e (itself p)))
  | inr other ↦ other
]

-- Each pattern then leads to its own handler, the telemetry path to the one that serves the metrics.
pub lookup-all_routes :
    (ps : Patterns) (routes : Routes) (path : Text)
    → Separates ps routes
    → ¬ (Conflicts ps routes path)
    → (lookup path (all_routes routes path) ≡ some metrics)
      × (lookup (codes "/") (all_routes routes path) ≡ some index)
      × (lookup (codes "/healthz") (all_routes routes path) ≡ some healthz)
      × (lookup (codes "/readyz") (all_routes routes path) ≡ some ready)
unfolding lookup
lookup-all_routes ps routes path h apart =
    let on_readyz =
      apart-false ps (codes "/readyz") path h.itself (λ e. apart (inr (inr (inr e)))) in
    let on_healthz =
      apart-false ps (codes "/healthz") path h.itself (λ e. apart (inr (inr (inl e)))) in
    let on_index = apart-false ps path (codes "/") h.itself (λ e. apart (inl e)) in
    let same = eqb_list_iff path path in
    (ground (arith, on_readyz, on_healthz, same), ground (arith, on_index), refl, refl)
