-- ===== src/Tests/Loading.antt =====
-- The loading of a configuration, the start of the workers and the sweeps of the cache.
use atlas_exporter.Server.Start.{Machine}
use atlas_exporter.Config.Start.{Decoding, Surroundings, load}
use atlas_exporter.Atlas.Worker.{dial, cancel, Phase}
use atlas_exporter.Atlas.Stream.{new_strategy, is_healthy}
use atlas_exporter.Config.Load.Flags.{settings, register_flags-settings}
use atlas_exporter.Prelude.Equality.{list_eq, nat_eq, ◌==◌}
use atlas_exporter.Prelude.Outcome.{done}
use atlas_exporter.Atlas.Worker.Start.{start, idle, is_healthy-listening, after, cancelled_stops}
use atlas_exporter.Prelude.Int.{ℤ, pos, ◌+ℤ◌}
use atlas_exporter.Config.{MeasurementConfig, Config}
use atlas_exporter.Config.Load.Precedence.{Merges, load_sources-get}
use atlas_exporter.Prelude.Text.{Text, codes, atoi}
use atlas_exporter.Atlas.Metrics.{set_build_info}
use atlas_exporter.Atlas.CacheTask.{sweep_loop, tick, finished, sweep_loop_invisible}
use atlas_exporter.Probe.Cache.{Cache, get}
use atlas_exporter.Atlas.Worker.Connected.{run, step_at, listening_count}
use atlas_exporter.Config.Arrays.{missing}
use atlas_exporter.Prelude.{
  List, ℕ, ◌∷◌, [], ◌++◌, false, none, ◌≡◌, if◌then◌else◌, some, refl, arith, ◌<◌, true, Bool, inl,
}
use atlas_exporter.Prelude.Dict.{lookup, Dict}
use atlas_exporter.Config.Load.{
  Koanf, load_sources, ParsedFlag, Flag, register_flags, text, defaults,
}
use atlas_exporter.Tests.Data.{int_floats, probe_at_zero, config_with}

-- A store that is the list of what was loaded.
abbrev dict_store : Koanf ℕ (Dict Text ℕ)
dict_store = record { new = []; get = lookup; load = λ source s. source ++ s }

lookup-append :
    (key : Text) (source s : Dict Text ℕ)
    → lookup key (source ++ s) ≡ elim (lookup key source) [ none ↦ lookup key s | some v ↦ some v ]
unfolding lookup
lookup-append key [] s = refl
lookup-append key ((k, v) ∷ source) s = ground (arith, lookup-append key source s)

-- Its values are numbers, none of which is a map.
abbrev no_map : ℕ → Bool
no_map v = false

dict_store-Merges : Merges no_map dict_store
unfolding lookup
dict_store-Merges = record {
  new-get = λ key h. refl;
  load-get = λ key source s h plain. lookup-append key source s;
}

abbrev default_values : Dict Text ℕ
default_values = (codes "worker.count", 8) ∷ []

abbrev variables : Dict Text ℕ
variables = (codes "worker.count", 4) ∷ []

abbrev parsed : List (ParsedFlag ℕ)
parsed = record { name = codes "worker.count"; changed = false; value = 8 } ∷ []

loaded : Dict Text ℕ
unfolding load_sources lookup
loaded = elim (load_sources dict_store default_values (λ path. none) [] variables parsed) [
  | none ↦ []
  | some s ↦ s
]

load_sources-get_example : lookup (codes "worker.count") loaded ≡ some 4
unfolding loaded load_sources lookup
load_sources-get_example =
    load_sources-get no_map dict_store dict_store-Merges (codes "worker.count") (λ e. cc)
      default_values (λ path. none) [] variables parsed loaded (inl (refl, refl), tt)
      (λ source e. cc) (inl (refl, refl), tt) (inl (refl, refl), tt) refl

register_flags-settings_example :
    (flags : List Flag) × (register_flags ≡ done flags)
    × (lookup (codes "worker.count") (settings flags) ≡ (
        if codes "config.file" == codes "worker.count"
        then some (text [])
        else lookup (codes "worker.count") defaults))
register_flags-settings_example = register_flags-settings (codes "worker.count")

abbrev two_measurements : List MeasurementConfig
two_measurements = record { id = codes "1001" } ∷ record { id = codes "1002" } ∷ []

-- The first worker is connected.
is_healthy-listening_example :
    0 < listening_count (run ((0, dial true 5) ∷ []) (start two_measurements) (idle {F = ℤ})).0
unfolding run step_at start idle is_healthy new_strategy ◌+ℤ◌ atlas_exporter.Atlas.Worker.step
    atlas_exporter.Atlas.Worker.subscribe atoi
is_healthy-listening_example =
    is_healthy-listening two_measurements ((0, dial true 5) ∷ [])
      (new_strategy {F = ℤ} (config_with (codes "/metrics") (pos 0))) (pos 0) refl

cancelled_stops_example :
    (after
      (dial true 1 ∷ cancel 2 ∷ cancel 3 ∷ [])
      (record { id = codes "1001"; retry_attempt = 0; phase = Phase.subscribing })
      (idle {F = ℤ})).phase
    ≡ Phase.stopped
cancelled_stops_example =
    cancelled_stops true 1 2 3
      (record { id = codes "1001"; retry_attempt = 0; phase = Phase.subscribing }) idle

abbrev one_probe : Cache ℤ
one_probe = record {
  cache = (pos 7, record { expires = pos 500; value = probe_at_zero (pos 7) }) ∷ [];
  ttl = pos 400;
}

sweep_loop_invisible_example :
    get (sweep_loop (tick (λ _. pos 100) ∷ finished ∷ []) one_probe) (pos 200) (pos 7)
    ≡ get one_probe (pos 200) (pos 7)
unfolding lookup
sweep_loop_invisible_example =
    sweep_loop_invisible (tick (λ _. pos 100) ∷ finished ∷ []) one_probe (pos 200) (pos 7)
      (refl, tt) ((λ _. omega arith), (tt, tt))

revision :
    set_build_info
      (codes "1.0")
      (codes "go1.23")
      (some ((codes "vcs.revision", []) ∷ (codes "vcs.revision", codes "ab") ∷ []))
    ≡ codes "1.0" ∷ codes "go1.23" ∷ codes "ab" ∷ []
unfolding set_build_info
revision = refl

-- A store that is the list of what was loaded, and that is always decoded as the same configuration.
abbrev text_store : Koanf Text (Dict Text Text)
text_store = record { new = []; get = lookup; load = λ source s. source ++ s }

abbrev started : Config ℤ
started = config_with (codes "/metrics") (pos 60)

abbrev decoding : Decoding ℤ Text (Dict Text Text)
decoding = record {
  measurements = λ s. missing;
  set_measurements = λ out s. s;
  unmarshal = λ s. some started;
}

abbrev surroundings : Surroundings Text
surroundings = record {
  environ = (codes "ATLAS_TIMEOUT", codes "30s") ∷ [];
  file_flag = [];
  flags = record { name = codes "log.level"; changed = true; value = codes "warn" } ∷ [];
  read_yaml = λ path. none;
  value_of = λ t. t;
  value_of_default = λ s. codes "default";
  order = λ m. m;
  sort = λ a. a;
  limit = 100;
}

-- Patterns without wildcards or methods are in conflict only if they are equal; profiling is switched off.
abbrev machine : Machine
machine = record {
  limit = 1000;
  patterns = record { valid = λ p. true; conflict = λ p q. p == q };
  pprof = codes "GET /debug/pprof/" ∷ [];
}
