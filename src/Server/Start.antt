-- ===== src/Server/Start.antt =====
-- main.go, `main` and `startServer`: how the process ends.
use atlas_exporter.Exporter.Laws.{In}
use atlas_exporter.Atlas.Worker.Start.{make_chan}
use atlas_exporter.Probe.Cache.{Cache}
use atlas_exporter.Prelude.Outcome.{Outcome, panic, done}
use atlas_exporter.Config.{Config}
use atlas_exporter.Prelude.Text.{Text, codes}
use atlas_exporter.Prelude.{
  ℕ, Bool, List, false, ◌≡◌, Option, some, if◌then◌else◌, ◌⊎◌, none, true, ◌≤◌, ◌<◌,
}
use atlas_exporter.Server.Routes.{register_routes, Routes, Patterns, first_routes}
use atlas_exporter.Config.Start.{load-cleanup, load-cleanup}
use atlas_exporter.Config.Load.{register_flags}
use atlas_exporter.Atlas.CacheTask.{init_cache, Signal}

-- What the `select` of `startServer` sees: the end of the context, the end of the server because it was
-- closed, or its error.
pub data Served : Type 0 where
  signalled closed failed : Served

-- The exit status, or a panic that nothing recovers.
pub data Ending : Type 0 where
  exited : ℕ → Ending
  crashed : Ending

-- log.Fatal exits with status 1; else `main` returns.
unfoldable pub ended : Served → Ending
ended signalled = exited 0
ended closed = exited 0
ended failed = exited 1

-- What is outside the program when it starts: which capacities `make` provides, what net/http decides of
-- patterns, and the patterns that net/http/pprof has registered with the default mux.
pub record Machine : Type 0 where
  pub limit : ℕ
  pub patterns : Patterns
  pub pprof : List Text

module _ {F : Type 0} where
  -- `NewStreamingStrategy`, or the request strategy, which cannot fail. The strategy itself is in Server.
  unfoldable pub make_strategy : Machine → Config F → Outcome (Unit {0})
  unfolding make_chan
  make_strategy m cfg =
      if cfg.streaming.enabled then make_chan m.limit cfg.streaming.buffer_size else done tt

  unfoldable pub start_server : Machine → List Signal → Served → Config F → Ending
  unfolding ended first_routes
  start_server m signals served cfg =
      elim (register_routes m.patterns (first_routes cfg.profiling_enabled m.pprof)
        cfg.web.telemetry_path) [
          | panic ↦ crashed
          | done routes ↦ elim (init_cache {F = F} cfg.cache.ttl cfg.cache.cleanup signals) [
            | panic ↦ crashed
            | done cache ↦ ended served
          ]
        ]

  unfoldable pub loaded_main : Machine → List Signal → Served → Outcome (Option (Config F)) → Ending
  unfolding start_server make_strategy
  loaded_main m signals served panic = crashed
  loaded_main m signals served (done none) = exited 1
  loaded_main m signals served (done (some cfg)) = elim (make_strategy m cfg) [
    | panic ↦ crashed
    | done _ ↦ start_server m signals served cfg
  ]

  -- `loaded` is what `Load` gives, and `show_version` the flag of that name.
  unfoldable pub main : Machine → List Signal → Served → Bool → Outcome (Option (Config F)) → Ending
  unfolding loaded_main
  main m signals served show_version loaded = elim register_flags [
    | panic ↦ crashed
    | done flags ↦ if show_version then exited 0 else loaded_main m signals served loaded
  ]

  -- The capacity of the channel is refused.
  abbrev pub BufferRefused : Machine → Config F → Type 0
  BufferRefused m cfg =
      (cfg.streaming.enabled ≡ true)
      × ((9223372036854775808 ≤ cfg.streaming.buffer_size) ⊎ (m.limit < cfg.streaming.buffer_size))

  -- The telemetry path is refused: it cannot be parsed, or is in conflict with a fixed pattern or, with
  -- profiling, with one of net/http/pprof.
  abbrev pub PathRefused : Machine → Config F → Type 0
  PathRefused m cfg =
      let path = cfg.web.telemetry_path in
      let conflict = m.patterns.conflict in
      (m.patterns.valid path ≡ false)
      ⊎ ((conflict path (codes "/") ≡ true)
          ⊎ (((cfg.profiling_enabled ≡ true) × (p : Text) × In p m.pprof × (conflict path p ≡ true))
              ⊎ ((conflict (codes "/healthz") path ≡ true)
                  ⊎ (conflict (codes "/readyz") path ≡ true))))
