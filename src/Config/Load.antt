-- ===== src/Config/Load.antt =====
-- config/defaults.go, and `RegisterFlags` and `Load` of config/loader.go. The store of koanf is a type S with
-- the operations of the interface below; reading a YAML file and decoding the store into a Config are
-- arguments too. What `normalizeArrays` does to the store is in Config/Arrays.
pub mod Flags
pub mod Precedence
use atlas_exporter.Config.Env.{env_prefix, env_transform}
use atlas_exporter.Prelude.Equality.{◌==◌, list_eq, nat_eq}
use atlas_exporter.Prelude.Outcome.{Outcome, ◌>>=◌, done, panic}
use atlas_exporter.Prelude.{Option, List, ℕ, Bool, ◌∷◌, if◌then◌else◌, none, true, some, false, []}
use atlas_exporter.Prelude.Dict.{Dict, lookup, insert}
use atlas_exporter.Prelude.Text.{Text, codes, has_prefix}

-- The values in the map of defaults.
pub data Setting : Type 0 where
  text : Text → Setting
  number : ℕ → Setting
  switch : Bool → Setting

unfoldable pub defaults : Dict Text Setting
defaults =
    (codes "web.listen_address", text (codes ":9400"))
    ∷ (codes "web.telemetry_path", text (codes "/metrics"))
    ∷ (codes "cache.ttl", text (codes "3600s"))
    ∷ (codes "cache.cleanup", text (codes "300s"))
    ∷ (codes "timeout", text (codes "60s"))
    ∷ (codes "worker.count", number 8)
    ∷ (codes "streaming.enabled", switch true)
    ∷ (codes "streaming.buffer_size", number 100)
    ∷ (codes "profiling.enabled", switch false)
    ∷ (codes "metrics.go_enabled", switch true)
    ∷ (codes "metrics.process_enabled", switch true)
    ∷ (codes "log.level", text (codes "info"))
    ∷ (codes "tls.enabled", switch false)
    ∷ (codes "tls.cert_file", text [])
    ∷ (codes "tls.key_file", text [])
    ∷ (codes "health.max_data_age", text (codes "0s"))
    ∷ (codes "filter_invalid_results", switch true)
    ∷ (codes "max_result_age", text (codes "0s"))
    ∷ (codes "dns.nsid_enabled", switch true)
    ∷ []

-- A flag that is registered: its name and its default. The texts that explain it are left out.
pub record Flag : Type 0 where
  pub name : Text
  pub default : Setting

-- A type assertion on a value of the map panics if the value has another type or is missing.
abbrev pub as_text : Option Setting → Outcome Text
as_text (some (text t)) = done t
as_text _ = panic

abbrev pub as_number : Option Setting → Outcome ℕ
as_number (some (number n)) = done n
as_number _ = panic

abbrev pub as_switch : Option Setting → Outcome Bool
as_switch (some (switch b)) = done b
as_switch _ = panic

-- fs.String, fs.Uint and fs.Bool, each with its default.
abbrev pub text_flag : Text → Outcome Flag
text_flag name = do
  t ← as_text (lookup name defaults)
  done (record { name = name; default = text t })

abbrev pub number_flag : Text → Outcome Flag
number_flag name = do
  n ← as_number (lookup name defaults)
  done (record { name = name; default = number n })

abbrev pub switch_flag : Text → Outcome Flag
switch_flag name = do
  b ← as_switch (lookup name defaults)
  done (record { name = name; default = switch b })

abbrev pub each : List (Outcome Flag) → Outcome (List Flag)
each [] = done []
each (f ∷ fs) = do flag ← f; flags ← each fs; done (flag ∷ flags)

unfoldable pub register_flags : Outcome (List Flag)
unfolding defaults lookup
register_flags = each (
    text_flag (codes "web.listen_address")
    ∷ text_flag (codes "web.telemetry_path")
    ∷ text_flag (codes "cache.ttl")
    ∷ text_flag (codes "cache.cleanup")
    ∷ text_flag (codes "timeout")
    ∷ number_flag (codes "worker.count")
    ∷ switch_flag (codes "streaming.enabled")
    ∷ number_flag (codes "streaming.buffer_size")
    ∷ switch_flag (codes "profiling.enabled")
    ∷ switch_flag (codes "metrics.go_enabled")
    ∷ switch_flag (codes "metrics.process_enabled")
    ∷ text_flag (codes "log.level")
    ∷ switch_flag (codes "tls.enabled")
    ∷ text_flag (codes "tls.cert_file")
    ∷ text_flag (codes "tls.key_file")
    ∷ text_flag (codes "health.max_data_age")
    ∷ switch_flag (codes "filter_invalid_results")
    ∷ text_flag (codes "max_result_age")
    ∷ switch_flag (codes "dns.nsid_enabled")
    ∷ done (record { name = codes "config.file"; default = text [] })
    ∷ [])

-- A flag after parsing: whether the command line set it, and its value.
pub record ParsedFlag (V : Type 0) : Type 0 where
  pub name : Text
  pub changed : Bool
  pub value : V

-- What `Load` uses of koanf. `get` reads the value at a flat key; `load` merges a source over the store.
pub record Koanf (V S : Type 0) : Type 0 where
  pub new : S
  pub get : Text → S → Option V
  pub load : Dict Text V → S → S

-- The path of the file: the flag, or else the environment.
unfoldable pub config_path : Text → Option Text → Text
config_path flag env = if flag == [] then elim env [ none ↦ [] | some t ↦ t ] else flag

module _ {V : Type 0} where
  -- A variable with an empty key is left out; of two with one key the later one stays.
  abbrev pub add_variable : Text × V → Dict Text V → Dict Text V
  add_variable (key, v) rest =
      if key == []
      then rest
      else elim (lookup key rest) [ none ↦ insert key v rest | some later ↦ rest ]

  -- The provider of environment variables: those with the prefix, under the keys that `envTransform` gives.
  -- `value_of` makes a value of a text.
  unfoldable pub env_source : (Text → V) → List (Text × Text) → Dict Text V
  env_source value_of [] = []
  env_source value_of ((name, t) ∷ environ) =
      let rest = env_source value_of environ in
      if has_prefix name env_prefix
      then add_variable (env_transform name (value_of t)) rest
      else rest

module _ {V S : Type 0} (k : Koanf V S) where
  -- The provider of flags: a flag that the command line did not set gives its default only for a key that
  -- the store does not have.
  unfoldable pub flag_source : S → List (ParsedFlag V) → Dict Text V
  flag_source s [] = []
  flag_source s (f ∷ fs) =
      let rest = flag_source s fs in
      if f.changed
      then insert f.name f.value rest
      else elim (k.get f.name s) [ none ↦ insert f.name f.value rest | some v ↦ rest ]

  -- The file, if one is named; `read_yaml` is `none` if it cannot be read or parsed.
  unfoldable pub load_file : (Text → Option (Dict Text V)) → Text → S → Option S
  load_file read_yaml path s =
      if path == []
      then some s
      else elim (read_yaml path) [ none ↦ none | some source ↦ some (k.load source s) ]

  -- The sources in their order, up to `normalizeArrays`.
  unfoldable pub load_sources :
      Dict Text V
      → (Text → Option (Dict Text V))
      → Text
      → Dict Text V
      → List (ParsedFlag V)
      → Option S
  unfolding load_file flag_source
  load_sources defaults read_yaml path env flags =
      elim (load_file read_yaml path (k.load defaults k.new)) [
        | none ↦ none
        | some s ↦ let s' = k.load env s in some (k.load (flag_source s' flags) s')
      ]
