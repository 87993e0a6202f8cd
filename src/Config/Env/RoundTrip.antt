-- ===== src/Config/Env/RoundTrip.antt =====
-- Every key of the configuration can be written as the name of an environment variable.
use mathlib.Core.Path.{ap₂}
use mathlib.Core.List.{append-nil, append_assoc}
use atlas_exporter.Prelude.{
  ℕ, List, ◌∷◌, ◌≡◌, ◌++◌, All, ◌≢◌, arith, [], eqb, ◌∙◌, ◌&&◌, ap, refl, false, Bool, map,
  All-append,
}
use atlas_exporter.Prelude.Text.{Text, codes}
use atlas_exporter.Config.Env.{
  env_transform, split, join, to_upper, to_lower, env_prefix, trim_prefix,
}

-- A segment of a key: no capital letters, no two underscores in a row, none at the end.
abbrev pub IsSegment : Text → Type 0
IsSegment [] = Unit
IsSegment (c ∷ []) = (to_lower c ≡ c) × (c ≢ b'_')
IsSegment (c ∷ d ∷ s) = (to_lower c ≡ c) × ((eqb c b'_' && eqb d b'_') ≡ false) × IsSegment (d ∷ s)

lower-upper : (c : ℕ) → to_lower c ≡ c → to_lower (to_upper (to_upper c)) ≡ c
unfolding to_lower to_upper
lower-upper c h = ground arith

not_underscore : (c : ℕ) (b : Bool) → c ≢ b'_' → (eqb c b'_' && b) ≡ false
not_underscore c b h = ground arith

split-segment : (cur s : Text) → IsSegment s → split cur s ≡ (cur ++ s) ∷ []
unfolding split
split-segment cur [] h = rw (append-nil cur)
split-segment cur (c ∷ []) h = refl
split-segment cur (c ∷ d ∷ s) h =
    rw (h.1, split)
      (split-segment (cur ++ c ∷ []) (d ∷ s) h.2 ∙ rw (append_assoc cur (c ∷ []) (d ∷ s)))

split-separator :
    (cur s rest : Text)
    → IsSegment s
    → split cur (s ++ b'_' ∷ b'_' ∷ rest) ≡ (cur ++ s) ∷ split [] rest
unfolding split
split-separator cur [] rest h = rw (append-nil cur)
split-separator cur (c ∷ []) rest h = rw (not_underscore c (eqb b'_' b'_') h.1, split)
split-separator cur (c ∷ d ∷ s) rest h =
    rw (h.1, split)
      (split-separator (cur ++ c ∷ []) (d ∷ s) rest h.2 ∙ rw (append_assoc cur (c ∷ []) (d ∷ s)))

split-join :
    (segs : List Text) (s : Text)
    → All IsSegment segs
    → IsSegment s
    → split [] (join (codes "__") (s ∷ segs)) ≡ s ∷ segs
unfolding join
split-join [] s a h = split-segment [] s h
split-join (t ∷ segs) s a h =
    split-separator [] s (join (codes "__") (t ∷ segs)) h ∙ ap (◌∷◌ s) (split-join segs t a.1 a.0)

-- A text without capital letters survives the two changes of case.
abbrev IsLower : Text → Type 0
IsLower = All (λ c. to_lower c ≡ c)

map-lower-upper : (s : Text) → IsLower s → map to_lower (map to_upper (map to_upper s)) ≡ s
map-lower-upper [] h = refl
map-lower-upper (c ∷ s) h = ap₂ ◌∷◌ (lower-upper c h.0) (map-lower-upper s h.1)

IsSegment-IsLower : (s : Text) → IsSegment s → IsLower s
IsSegment-IsLower [] h = tt
IsSegment-IsLower (c ∷ []) h = (h.0, tt)
IsSegment-IsLower (c ∷ d ∷ s) h = (h.0, IsSegment-IsLower (d ∷ s) h.2)

join-IsLower : (segs : List Text) → All IsSegment segs → IsLower (join (codes "__") segs)
unfolding join to_lower
join-IsLower [] h = tt
join-IsLower (s ∷ []) h = IsSegment-IsLower s h.0
join-IsLower (s ∷ t ∷ segs) h =
    All-append _ s (codes "__" ++ join (codes "__") (t ∷ segs)) (IsSegment-IsLower s h.0)
      (refl, (refl, join-IsLower (t ∷ segs) h.1))

-- The name of the variable for a key: ATLAS_, and the segments in capitals, joined by `__`.
abbrev pub env_name : List Text → Text
env_name segs = env_prefix ++ map to_upper (join (codes "__") segs)

trim-env_name :
    (t : Text) → trim_prefix (map to_upper (env_prefix ++ t)) env_prefix ≡ map to_upper t
unfolding trim_prefix to_upper
trim-env_name t = refl

-- For every key, given by one or more segments in which no double underscore stands and which have no
-- capital and no underscore at the end, `envTransform` maps the variable of that name (ATLAS_, and the
-- segments in capitals, joined by double underscores) to the segments joined by dots, and keeps the
-- value.
pub env_transform-env_name {ℓ} :
    {V : Type ℓ} (s : Text) (segs : List Text) (v : V)
    → All IsSegment (s ∷ segs)
    → env_transform (env_name (s ∷ segs)) v ≡ (join (codes ".") (s ∷ segs), v)
unfolding env_transform
env_transform-env_name s segs v h =
    let t = join (codes "__") (s ∷ segs) in
    rw (trim-env_name (map to_upper t), map-lower-upper t (join-IsLower (s ∷ segs) h))
      (rw (split-join segs s h.1 h.0))
