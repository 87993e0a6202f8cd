-- ===== src/Config/Load/Flags.antt =====
-- Which flags there are.
use atlas_exporter.Prelude.Equality.{◌==◌, list_eq, nat_eq, eqb_list_iff}
use atlas_exporter.Prelude.Outcome.{done}
use atlas_exporter.Config.Load.{register_flags, Flag, Setting, defaults, text}
use atlas_exporter.Prelude.Dict.{lookup, Dict}
use atlas_exporter.Prelude.Text.{Text, codes}
use atlas_exporter.Prelude.{List, map, ◌≡◌, none, [], ◌++◌, if◌then◌else◌, ◌∷◌, some, arith, refl}

-- The names of the flags with their defaults.
abbrev pub settings : List Flag → Dict Text Setting
settings fs = map (λ f. (f.name, f.default)) fs

abbrev config_file : Text × Setting
config_file = (codes "config.file", text [])

lookup-snoc :
    (name : Text) (m : Dict Text Setting) (key : Text) (v : Setting)
    → lookup key m ≡ none
    → lookup name (m ++ (key, v) ∷ []) ≡ (if key == name then some v else lookup name m)
unfolding lookup
lookup-snoc name [] key v h = refl
lookup-snoc name ((j, w) ∷ m) key v h = ground (
  arith,
  eqb_list_iff key name,
  eqb_list_iff j name,
  eqb_list_iff j key,
  lookup-snoc name m key v,
)

-- `RegisterFlags` does not panic: every type assertion on a default succeeds. The flag of each name has
-- the default of the map of defaults, there is no flag without a default but config.file, whose default
-- is empty, and no default without a flag.
pub register_flags-settings :
    (name : Text)
    → (flags : List Flag) × (register_flags ≡ done flags)
      × (lookup name (settings flags)
          ≡ (if codes "config.file" == name then some (text []) else lookup name defaults))
unfolding register_flags defaults lookup
register_flags-settings name = (
  map (λ (e : Text × Setting). record { name = e.0; default = e.1 }) (defaults ++ config_file ∷ []),
  refl,
  lookup-snoc name defaults (codes "config.file") (text []) refl,
)
