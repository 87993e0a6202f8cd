-- ===== src/Atlas/CacheTask.antt =====
-- atlas/probe_cache.go: the probe cache of package atlas, and the goroutine that sweeps it.
use atlas_exporter.Probe.Cache.Sweep.{get-clean_up}
use atlas_exporter.Prelude.Equality.{int_eq, ◌==◌}
use atlas_exporter.Probe.Cache.{get}
use atlas_exporter.Probe.Cache.Reads.{IsCache}
use atlas_exporter.Prelude.Outcome.{Outcome, done, panic}
use atlas_exporter.Probe.Cache.{delete_all, clean_up, Cache, new_cache, CacheItem, expired_ids}
use atlas_exporter.Prelude.Dict.{delete, Dict, IsMap, lookup-delete}
use atlas_exporter.Prelude.{
  List, if◌then◌else◌, [], All, ◌∷◌, Bool-cases, ◌≡◌, ◌∙◌, inl, inr, arith, ◌↔◌, refl,
}
use atlas_exporter.Prelude.Int.{ℤ, ◌≤ℤ◌, ltb_ℤ, pos, ltb_ℤ_iff}

-- What the goroutine receives: a tick, with the times that `CleanUp` reads, or the end of the context.
pub data Signal : Type 0 where
  tick : (ℤ → ℤ) → Signal
  finished : Signal

-- No time that a sweep reads is after `now`.
abbrev pub Before : ℤ → Signal → Type 0
Before now (tick clock) = (k : ℤ) → clock k ≤ℤ now
Before now finished = Unit

module _ {F : Type 0} where
  -- The loop of the goroutine.
  unfoldable pub sweep_loop : List Signal → Cache F → Cache F
  sweep_loop [] c = c
  sweep_loop (tick clock ∷ signals) c = sweep_loop signals (clean_up c clock).0
  sweep_loop (finished ∷ signals) c = c

  -- time.NewTicker panics if the interval is not positive; nothing recovers the panic.
  unfoldable pub start_cache_cleanup_func : ℤ → List Signal → Cache F → Outcome (Cache F)
  unfolding sweep_loop
  start_cache_cleanup_func d signals c =
      if ltb_ℤ (pos 0) d then done (sweep_loop signals c) else panic

  unfoldable pub init_cache : ℤ → ℤ → List Signal → Outcome (Cache F)
  unfolding start_cache_cleanup_func
  init_cache ttl cleanup signals = start_cache_cleanup_func cleanup signals (new_cache ttl)

  delete-IsMap : (id : ℤ) (m : Dict ℤ (CacheItem F)) → IsMap m → IsMap (delete id m)
  unfolding delete
  delete-IsMap id [] h = tt
  delete-IsMap id ((k, v) ∷ m) h = elim (Bool-cases (k == id)) [
    | inl own ↦ rw own (delete-IsMap id m h.1)
    | inr other ↦ rw other (ground (arith, lookup-delete id k m), delete-IsMap id m h.1)
  ]

  delete_all-IsMap : (ids : List ℤ) (m : Dict ℤ (CacheItem F)) → IsMap m → IsMap (delete_all ids m)
  unfolding delete_all
  delete_all-IsMap [] m h = h
  delete_all-IsMap (id ∷ ids) m h = delete_all-IsMap ids (delete id m) (delete-IsMap id m h)

  clean_up-IsCache : (c : Cache F) (clock : ℤ → ℤ) → IsCache c → IsCache (clean_up c clock).0
  unfolding clean_up
  clean_up-IsCache c clock h = delete_all-IsMap (expired_ids clock c.cache) c.cache h

  -- For a cache with one entry for each id, all the sweeps of the goroutine together are invisible to
  -- `Get`: at any time that is not before the times that the sweeps read, each id gives what it gave
  -- without them.
  pub sweep_loop_invisible :
      (signals : List Signal) (c : Cache F) (now id : ℤ)
      → IsCache c
      → All (Before now) signals
      → get (sweep_loop signals c) now id ≡ get c now id
  unfolding sweep_loop
  sweep_loop_invisible [] c now id h past = refl
  sweep_loop_invisible (tick clock ∷ signals) c now id h past =
      sweep_loop_invisible signals (clean_up c clock).0 now id (clean_up-IsCache c clock h) past.1
      ∙ get-clean_up c clock now id h past.0
  sweep_loop_invisible (finished ∷ signals) c now id h past = refl

  -- `InitCache` ends in a panic, which nothing recovers, exactly if the cleanup interval is 0 or
  -- negative.
  pub init_cache-panic_iff :
      (ttl cleanup : ℤ) (signals : List Signal)
      → (init_cache ttl cleanup signals ≡ panic) ↔ (cleanup ≤ℤ pos 0)
  unfolding init_cache
  init_cache-panic_iff ttl cleanup signals = ground (arith, ltb_ℤ_iff (pos 0) cleanup)
