-- ===== src/Probe/Cache/Reads.antt =====
-- What `Get` returns after `Add`, and the map invariant of the cache.
use atlas_exporter.Prelude.{none, some, if◌then◌else◌, ◌≡◌, arith}
use atlas_exporter.Prelude.Int.{ℤ, ◌+ℤ◌, ltb_ℤ}
use atlas_exporter.Prelude.Equality.{◌==◌, int_eq}
use atlas_exporter.Prelude.Dict.{IsMap, lookup-insert, insert-IsMap}
use atlas_exporter.Probe.{Probe}
use atlas_exporter.Probe.Cache.{Cache, new_cache, get, add}

module _ {F : Type 0} where
  -- A probe that `Add` stored at a time is found under its id at exactly the times before that time plus
  -- the ttl. What is found under other ids stays.
  pub get-add :
      (c : Cache F) (id j now t : ℤ) (p : Probe F)
      → get (add c now id p) t j
        ≡ (if id == j then (if ltb_ℤ t (now +ℤ c.ttl) then some p else none) else get c t j)
  unfolding get add
  get-add c id j now t p = rw (lookup-insert id j _ c.cache) (ground arith)

  -- The invariant of the cache: each id has one entry.
  abbrev pub IsCache : Cache F → Type 0
  IsCache c = IsMap c.cache

  pub add-IsCache : (c : Cache F) (now id : ℤ) (p : Probe F) → IsCache c → IsCache (add c now id p)
  unfolding add
  add-IsCache c now id p h = insert-IsMap id _ c.cache h

pub new_cache-IsCache : (F : Type 0) (ttl : ℤ) → IsCache (new_cache {F = F} ttl)
unfolding new_cache
new_cache-IsCache F ttl = tt
