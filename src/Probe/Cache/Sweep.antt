-- ===== src/Probe/Cache/Sweep.antt =====
-- `CleanUp`: what it removes, what it keeps, and what an `Add` between its two loops loses.
use atlas_exporter.Probe.Cache.Reads.{IsCache}
use atlas_exporter.Prelude.Equality.{◌==◌, int_eq, eq_refl}
use atlas_exporter.Prelude.Dict.{Dict, lookup, IsMap, delete, lookup-delete}
use atlas_exporter.Prelude.{
  Option, none, some, if◌then◌else◌, ◌≡◌, refl, arith, List, Bool, false, ◌∷◌, true, [], length,
  ◌+◌, ◌∙◌,
}
use atlas_exporter.Prelude.Int.{ℤ, ltb_ℤ, ◌≤ℤ◌, ◌<ℤ◌}
use atlas_exporter.Probe.{Probe}
use atlas_exporter.Probe.Cache.{Cache, CacheItem, get, add, delete_all, expired_ids, clean_up}

abbrev pub mem : ℤ → List ℤ → Bool
mem j [] = false
mem j (k ∷ ks) = if k == j then true else mem j ks

module _ {F : Type 0} where
  unfoldable pub is_expired : (ℤ → ℤ) → ℤ → Option (CacheItem F) → Bool
  is_expired clock k none = false
  is_expired clock k (some item) = ltb_ℤ item.expires (clock k)

  pub lookup-delete_all :
      (j : ℤ) (ids : List ℤ) (m : Dict ℤ (CacheItem F))
      → lookup j (delete_all ids m) ≡ (if mem j ids then none else lookup j m)
  unfolding delete_all
  lookup-delete_all j [] m = refl
  lookup-delete_all j (id ∷ ids) m =
      ground (arith, lookup-delete_all j ids (delete id m), lookup-delete id j m)

  mem-expired_ids :
      (clock : ℤ → ℤ) (j : ℤ) (m : Dict ℤ (CacheItem F))
      → IsMap m
      → mem j (expired_ids clock m) ≡ is_expired clock j (lookup j m)
  unfolding expired_ids is_expired lookup
  mem-expired_ids clock j [] h = refl
  mem-expired_ids clock j ((k, v) ∷ m) h =
      ground (arith, int_eq.beq_iff k j, mem-expired_ids clock j m h.1)

  delete-absent : (k : ℤ) (m : Dict ℤ (CacheItem F)) → lookup k m ≡ none → delete k m ≡ m
  unfolding delete lookup
  delete-absent k [] e = refl
  delete-absent k ((j, w) ∷ m) e = ground (arith, delete-absent k m)

  delete_all-cons :
      (ids : List ℤ) (k : ℤ) (v : CacheItem F) (m : Dict ℤ (CacheItem F))
      → mem k ids ≡ false
      → delete_all ids ((k, v) ∷ m) ≡ (k, v) ∷ delete_all ids m
  unfolding delete_all delete
  delete_all-cons [] k v m e = refl
  delete_all-cons (id ∷ ids) k v m e =
      ground
        (arith, int_eq.beq_iff k id, int_eq.beq_iff id k, delete_all-cons ids k v (delete id m))

  length-delete_all :
      (clock : ℤ → ℤ) (m : Dict ℤ (CacheItem F))
      → IsMap m
      → length (delete_all (expired_ids clock m) m) + length (expired_ids clock m) ≡ length m
  unfolding delete_all delete expired_ids is_expired
  length-delete_all clock [] h = refl
  length-delete_all clock ((k, v) ∷ m) h = ground (
    arith,
    eq_refl k,
    delete-absent k m h.0,
    mem-expired_ids clock k m h.1,
    delete_all-cons (expired_ids clock m) k v m,
    length-delete_all clock m h.1,
  )

  -- For a cache with one entry for each id, the number that `CleanUp` returns is the number of entries
  -- that it removed.
  pub length-clean_up :
      (c : Cache F) (clock : ℤ → ℤ)
      → IsCache c
      → length (clean_up c clock).0.cache + (clean_up c clock).1 ≡ length c.cache
  unfolding clean_up
  length-clean_up c clock h = length-delete_all clock c.cache h

  -- For a cache with one entry for each id, `CleanUp` removes every entry that has expired when it is
  -- visited, and no other.
  pub lookup-clean_up :
      (c : Cache F) (clock : ℤ → ℤ) (j : ℤ)
      → IsCache c
      → lookup j (clean_up c clock).0.cache
        ≡ (if is_expired clock j (lookup j c.cache) then none else lookup j c.cache)
  unfolding clean_up
  lookup-clean_up c clock j h =
      lookup-delete_all j (expired_ids clock c.cache) c.cache
      ∙ rw (mem-expired_ids clock j c.cache h)

  -- For a cache with one entry for each id, `CleanUp` is invisible to `Get`: at any time that is not
  -- before the sweep, each id gives what it gave without the sweep.
  pub get-clean_up :
      (c : Cache F) (clock : ℤ → ℤ) (now id : ℤ)
      → IsCache c
      → ((k : ℤ) → clock k ≤ℤ now)
      → get (clean_up c clock).0 now id ≡ get c now id
  unfolding get is_expired
  get-clean_up c clock now id h past = rw (lookup-clean_up c clock id h) (ground (arith, past id))

  -- The two loops of `CleanUp` are not one critical section. In a cache with one entry for each id, an
  -- `Add` that falls between the loops, for an id that the first loop saw expired, is lost: the probe
  -- just stored is found at no time.
  pub clean_up_loses_add :
      (c : Cache F) (clock : ℤ → ℤ) (item : CacheItem F) (id now t : ℤ) (p : Probe F)
      → IsCache c
      → lookup id c.cache ≡ some item
      → item.expires <ℤ clock id
      → let swept = delete_all (expired_ids clock c.cache) (add c now id p).cache in
        get (record c { cache = swept }) t id ≡ none
  unfolding get is_expired
  clean_up_loses_add c clock item id now t p h e old =
      rw (lookup-delete_all id (expired_ids clock c.cache) (add c now id p).cache)
        (ground (arith, mem-expired_ids clock id c.cache h))
