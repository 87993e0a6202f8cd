-- ===== src/Config/Start.antt =====
-- `Load` of config/loader.go as a whole: the sources, `normalizeArrays`, the decoding, and `Validate`; and
-- what the sweeping of the cache may make of a configuration that it returned.
use atlas_exporter.Prelude.Equality.{list_eq, nat_eq}
use atlas_exporter.Config.Env.{env_prefix}
use atlas_exporter.Atlas.CacheTask.{Signal, init_cache, init_cache-panic_iff}
use atlas_exporter.Prelude.Dict.{Dict, lookup}
use atlas_exporter.Config.{Config}
use atlas_exporter.Prelude.Int.{ℤ, pos, ◌≤ℤ◌, negsuc}
use atlas_exporter.Prelude.Outcome.{Outcome, ◌>>=◌, done, >>=-eq-done, panic}
use atlas_exporter.Prelude.Text.{Text, codes}
use atlas_exporter.Float.{Floats}
use atlas_exporter.Prelude.{
  List, Option, some, map, ◌≡◌, ℕ, none, Option-cases, ◌↔◌, ◌++◌, inl, inr, arith, suc, zero, refl,
}
use atlas_exporter.Config.Load.{
  Koanf, load_sources, ParsedFlag, Setting, defaults, env_source, config_path,
}
use atlas_exporter.Config.Arrays.{Node, object, array, normalize_arrays}
use atlas_exporter.Config.Validate.{validate}
use atlas_exporter.Config.Accept.{validate-DurationsOk}

-- What `normalizeArrays` and the decoding use of koanf: `k.Get("measurements")`, `k.Set` of that key, and
-- `k.UnmarshalWithConf`, where `none` is an error.
pub record Decoding (F V S : Type 0) : Type 0 where
  pub measurements : S → Node V
  pub set_measurements : List (Option V) → S → S
  pub unmarshal : S → Option (Config F)

-- What is outside the program when it loads: what os.Environ has, the value of the flag config.file, the
-- flags after parsing, the reading of a file, how a text and a default become values, and, for
-- `normalizeArrays`, the order of the map, sort.Slice and the bound of `make`.
pub record Surroundings (V : Type 0) : Type 0 where
  pub environ : List (Text × Text)
  pub file_flag : Text
  pub flags : List (ParsedFlag V)
  pub read_yaml : Text → Option (Dict Text V)
  pub value_of : Text → V
  pub value_of_default : Setting → V
  pub order : List (Text × V) → List (Text × V)
  pub sort : List (ℕ × V) → List (ℕ × V)
  pub limit : ℕ

module _ {F V S : Type 0} ⦃fl : Floats F⦄ (k : Koanf V S) (d : Decoding F V S) where
  -- `Set` is called only for a map that has become an array.
  unfoldable pub put_array : Node V → Node V → S → S
  put_array (object m) (array out) s = d.set_measurements out s
  put_array old new s = s

  unfoldable pub normalize : Surroundings V → S → Outcome S
  unfolding put_array
  normalize e s = do
    new ← normalize_arrays e.order e.sort e.limit (d.measurements s)
    done (put_array (d.measurements s) new s)

  -- The error of `Validate` is returned.
  unfoldable pub validated : Option (Config F) → Option (Config F)
  validated none = none
  validated (some cfg) = elim (validate cfg) [ none ↦ some cfg | some error ↦ none ]

  unfoldable pub load_from : Surroundings V → Option S → Outcome (Option (Config F))
  unfolding normalize validated
  load_from e none = done none
  load_from e (some s) = do s' ← normalize e s; done (validated (d.unmarshal s'))

  unfoldable pub load : Surroundings V → Outcome (Option (Config F))
  unfolding load_from
  load e = load_from e (
      load_sources k (map (λ (s : Text × Setting). (s.0, e.value_of_default s.1)) defaults)
        e.read_yaml (config_path e.file_flag (lookup (env_prefix ++ codes "CONFIG_FILE") e.environ))
        (env_source e.value_of e.environ) e.flags)

  validated-eq-some :
      (o : Option (Config F)) (cfg : Config F) → validated o ≡ some cfg → validate cfg ≡ none
  unfolding validated
  validated-eq-some none cfg h = cc
  validated-eq-some (some c) cfg h = elim (Option-cases (validate c)) [
    | inl ok ↦ let h' = rw (ok, validated) at h in let same : c ≡ cfg = cc in rw (← same) ok
    | inr (error, e) ↦ let h' = rw (e, validated) at h in cc
  ]

  load_from-eq-some :
      (e : Surroundings V) (o : Option S) (cfg : Config F)
      → load_from e o ≡ done (some cfg)
      → validate cfg ≡ none
  unfolding load_from
  load_from-eq-some e none cfg h = cc
  load_from-eq-some e (some s) cfg h =
      let (s', _, end) = >>=-eq-done (normalize e s) _ h in
      let same : validated (d.unmarshal s') ≡ some cfg = cc in
      validated-eq-some (d.unmarshal s') cfg same

  not_positive_iff : (x : ℤ) → pos 0 ≤ℤ x → (x ≤ℤ pos 0) ↔ (x ≡ pos 0)
  not_positive_iff (pos zero) h = (λ _. refl, λ _. omega arith)
  not_positive_iff (pos (suc n)) h = (λ k. absurd (omega arith), λ e. cc)
  not_positive_iff (negsuc n) h = absurd (omega arith)

  -- When `Load` returns a configuration, the sweeping of the cache panics at the start exactly if the
  -- cleanup interval is 0.
  pub load-cleanup :
      (e : Surroundings V) (cfg : Config F) (signals : List Signal)
      → load e ≡ done (some cfg)
      → (init_cache {F = F} cfg.cache.ttl cfg.cache.cleanup signals ≡ panic)
        ↔ (cfg.cache.cleanup ≡ pos 0)
  unfolding load
  load-cleanup e cfg signals h =
      let durations = validate-DurationsOk cfg (load_from-eq-some e _ cfg h) in
      let stopped = not_positive_iff cfg.cache.cleanup durations.cleanup in
      let sweep = init_cache-panic_iff {F = F} cfg.cache.ttl cfg.cache.cleanup signals in
      (λ p. stopped.0 (sweep.0 p), λ z. sweep.1 (stopped.1 z))
