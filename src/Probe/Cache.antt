-- ===== src/Probe/Cache.antt =====
-- probe/cache.go. An instant is a number of nanoseconds, and `time.Now()` is an argument.
pub mod Reads
pub mod Sweep
use atlas_exporter.Prelude.{ℕ, List, [], ◌∷◌, Option, none, some, if◌then◌else◌, length}
use atlas_exporter.Prelude.Int.{ℤ, ◌+ℤ◌, ltb_ℤ}
use atlas_exporter.Prelude.Equality.{int_eq}
use atlas_exporter.Prelude.Dict.{Dict, lookup, insert, delete}
use atlas_exporter.Probe.{Probe}

pub record CacheItem (F : Type 0) : Type 0 where
  pub expires : ℤ
  pub value : Probe F

pub record Cache (F : Type 0) : Type 0 where
  pub cache : Dict ℤ (CacheItem F)
  pub ttl : ℤ

module _ {F : Type 0} where
  unfoldable pub new_cache : ℤ → Cache F
  new_cache ttl = record { cache = []; ttl = ttl }

  -- `found && time.Now().Before(p.expires)`
  unfoldable pub fresh : ℤ → Option (CacheItem F) → Option (Probe F)
  fresh now none = none
  fresh now (some item) = if ltb_ℤ now item.expires then some item.value else none

  unfoldable pub get : Cache F → ℤ → ℤ → Option (Probe F)
  unfolding fresh
  get c now id = fresh now (lookup id c.cache)

  unfoldable pub add : Cache F → ℤ → ℤ → Probe F → Cache F
  add c now id p = record c {
    cache = insert id (record { expires = now +ℤ c.ttl; value = p }) c.cache;
  }

  -- The first loop of `CleanUp`, which holds no lock. `clock k` is the time read at the entry of k.
  unfoldable pub expired_ids : (ℤ → ℤ) → Dict ℤ (CacheItem F) → List ℤ
  expired_ids clock [] = []
  expired_ids clock ((k, v) ∷ m) =
      let rest = expired_ids clock m in if ltb_ℤ v.expires (clock k) then k ∷ rest else rest

  -- The second loop, under the lock.
  unfoldable pub delete_all : List ℤ → Dict ℤ (CacheItem F) → Dict ℤ (CacheItem F)
  delete_all [] m = m
  delete_all (id ∷ ids) m = delete_all ids (delete id m)

  unfoldable pub clean_up : Cache F → (ℤ → ℤ) → Cache F × ℕ
  clean_up c clock =
      let expired = expired_ids clock c.cache in
      (record c { cache = delete_all expired c.cache }, length expired)
