-- ===== src/Config/Env.antt =====
-- config/loader.go, `envTransform`, on names of ASCII bytes: how a variable's name becomes a key.
pub mod RoundTrip
use atlas_exporter.Prelude.{
  ℕ, Option, some, List, map, if◌then◌else◌, ◌∷◌, [], none, leb, eqb, ◌++◌, ◌&&◌, ◌-◌, ◌+◌, true,
  false,
}
use atlas_exporter.Prelude.Text.{Text, codes}

-- strings.ToUpper and strings.ToLower, on a byte of ASCII
unfoldable pub to_upper : ℕ → ℕ
to_upper c = if leb b'a' c && leb c b'z' then c - 32 else c

unfoldable pub to_lower : ℕ → ℕ
to_lower c = if leb b'A' c && leb c b'Z' then c + 32 else c

-- strings.TrimPrefix
drop_prefix : Text → Text → Option Text
drop_prefix s [] = some s
drop_prefix [] (p ∷ ps) = none
drop_prefix (c ∷ s) (p ∷ ps) = if eqb c p then drop_prefix s ps else none

unfoldable pub trim_prefix : Text → Text → Text
unfolding drop_prefix
trim_prefix s p = elim (drop_prefix s p) [ some rest ↦ rest | none ↦ s ]

-- strings.Split(s, "__"): `segment` is what has been read since the last separator.
unfoldable pub split : Text → Text → List Text
split segment [] = segment ∷ []
split segment (c ∷ []) = (segment ++ c ∷ []) ∷ []
split segment (c ∷ d ∷ s) = elim (eqb c b'_' && eqb d b'_') [
  | true ↦ segment ∷ split [] s
  | false ↦ split (segment ++ c ∷ []) (d ∷ s)
]

-- strings.Join
unfoldable pub join : Text → List Text → Text
join sep [] = []
join sep (s ∷ []) = s
join sep (s ∷ t ∷ rest) = s ++ (sep ++ join sep (t ∷ rest))

abbrev pub env_prefix : Text
env_prefix = codes "ATLAS_"

module _ {ℓ} {V : Type ℓ} where
  unfoldable pub env_transform : Text → V → Text × V
  unfolding trim_prefix split join
  env_transform k v =
      let lower = map to_lower (trim_prefix (map to_upper k) env_prefix) in
      (join (codes ".") (split [] lower), v)
