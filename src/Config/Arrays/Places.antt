-- ===== src/Config/Arrays/Places.antt =====
-- Where the values of the map stand in the array.
use atlas_exporter.Prelude.Outcome.{done, panic}
use atlas_exporter.Exporter.Measurement.Collect.{VisitOrder}
use atlas_exporter.Prelude.Text.{Text}
use atlas_exporter.Config.Arrays.{
  place, last_index, indexed, to_array, normalize_arrays, Node, array, object, make,
}
use atlas_exporter.Prelude.Equality.{list_eq, nat_eq}
use mathlib.Core.List.{Permᴰ}
use atlas_exporter.Prelude.Dict.{lookup, IsMap, Dict}
use atlas_exporter.Prelude.{
  List, ℕ, Option, length, get_elem?, ◌≡◌, set, ◌∙◌, ◌∷◌, if◌then◌else◌, All, suc, eqb, refl, ◌≤◌,
  ap, ◌&&◌, ltb, [], some, zero, arith, ◌<◌, replicate, none, ◌+◌, length-Permᴰ, All-Permᴰ, sym,
}
use atlas_exporter.Config.Arrays.Order.{
  IsSorted, lookup-Permᴰ, last_index_greatest, All-lookup, indexed-Permᴰ, last_index-lt,
}

-- What the code relies on in sort.Slice.
pub record SortSlice (V : Type 0) : Type 0 where
  pub sort : List (ℕ × V) → List (ℕ × V)
  pub sort-perm : (arr : List (ℕ × V)) → Permᴰ arr (sort arr)
  pub sort-IsSorted : (arr : List (ℕ × V)) → IsSorted (sort arr)

module _ {V : Type 0} where
  -- Each index has one key.
  abbrev pub OneKey : List (ℕ × V) → Type 0
  OneKey arr = IsMap arr

  length-set : (out : List (Option V)) (i : ℕ) (v : Option V) → length (set out i v) ≡ length out
  length-set [] i v = refl
  length-set (x ∷ out) zero v = refl
  length-set (x ∷ out) (suc i) v = ap suc (length-set out i v)

  get_elem?-set :
      (out : List (Option V)) (k i : ℕ) (v : Option V)
      → get_elem? (set out k v) i
        ≡ (if eqb k i && ltb i (length out) then some v else get_elem? out i)
  get_elem?-set [] k i v = ground arith
  get_elem?-set (x ∷ out) zero zero v = ground arith
  get_elem?-set (x ∷ out) zero (suc i) v = ground arith
  get_elem?-set (x ∷ out) (suc k) zero v = ground arith
  get_elem?-set (x ∷ out) (suc k) (suc i) v = ground (arith, get_elem?-set out k i v)

  -- The loop leaves the length alone.
  length-place : (arr : List (ℕ × V)) (out : List (Option V)) → length (place arr out) ≡ length out
  unfolding place
  length-place [] out = refl
  length-place ((k, v) ∷ arr) out = length-place arr _ ∙ ground (arith, length-set out k (some v))

  -- After it each place in range has the value with its index, or else what it had.
  get_elem?-place :
      (arr : List (ℕ × V)) (out : List (Option V)) (i : ℕ)
      → IsMap arr
      → i < length out
      → get_elem? (place arr out) i
        ≡ elim (lookup i arr) [ none ↦ get_elem? out i | some v ↦ some (some v) ]
  unfolding place lookup
  get_elem?-place [] out i one h = refl
  get_elem?-place ((k, v) ∷ arr) out i one h =
      let out' = if ltb k (length out) then set out k (some v) else out in
      let same : length out' ≡ length out = ground (arith, length-set out k (some v)) in
      get_elem?-place arr out' i one.1 (omega arith)
      ∙ ground (arith, get_elem?-set out k i (some v), one.0)

  get_elem?-replicate : (n i : ℕ) (x : Option V) → i < n → get_elem? (replicate n x) i ≡ some x
  get_elem?-replicate zero i x h = absurd (omega arith)
  get_elem?-replicate (suc n) zero x h = refl
  get_elem?-replicate (suc n) (suc i) x h = get_elem?-replicate n i x (omega arith)

  length-replicate : (n : ℕ) (x : Option V) → length (replicate n x) ≡ n
  length-replicate zero x = refl
  length-replicate (suc n) x = ap suc (length-replicate n x)

  -- What is known of the array: a value for each index of a key stands there, nil elsewhere, and the array
  -- reaches as far as the indices do.
  abbrev pub Places : List (ℕ × V) → List (Option V) → Type 0
  Places arr out =
      ((i : ℕ) → i < length out → get_elem? out i ≡ some (lookup i arr))
      × ((i : ℕ) (v : V) → lookup i arr ≡ some v → i < length out)

  make-done : (limit n : ℕ) → n ≤ limit → make {V = V} limit n ≡ done (replicate n none)
  unfolding make
  make-done limit n h = ground arith

  to_array-Places :
      (limit : ℕ) (sorted : List (ℕ × V)) (old : Node V)
      → 0 < length sorted
      → IsMap sorted
      → IsSorted sorted
      → All (λ e. e.0 < limit) sorted
      → (out : List (Option V)) × (to_array limit sorted old ≡ done (array out)) × Places sorted out
  unfolding to_array
  to_array-Places limit [] old h one s small = absurd (omega arith)
  to_array-Places limit ((idx, v) ∷ arr) old h one s small =
      let n = last_index idx arr + 1 in
      let great = last_index_greatest idx v arr s in
      let out = place ((idx, v) ∷ arr) (replicate n none) in
      let size : length out ≡ n =
        length-place ((idx, v) ∷ arr) (replicate n none) ∙ length-replicate n none in
      (
        out,
        rw (make-done limit n (omega (arith, last_index-lt limit idx v arr small))),
        (
          λ i h.
              get_elem?-place ((idx, v) ∷ arr) (replicate n none) i one
                (omega (arith, size, length-replicate n none))
              ∙ found (lookup i ((idx, v) ∷ arr)) _
                  (get_elem?-replicate n i none (omega (arith, size))),
          λ i w e. let (_, at_most) = All-lookup _ _ i w great e in omega (arith, size),
        ),
      )
    where
      found :
          (o : Option V) (x : Option (Option V))
          → x ≡ some none
          → elim o [ none ↦ x | some w ↦ some (some w) ] ≡ some o
      found none x e = e
      found (some w) x e = refl

  -- If at least one key of the map is an index, no two keys are the same index, and all indices are
  -- below the bound of `make`, then `normalizeArrays` makes of the map an array in which each index of a
  -- key has its value and every other place is nil, and which reaches as far as the indices do, in
  -- whatever order the map is visited.
  pub normalize_arrays-Places :
      (order : VisitOrder (Text × V)) (slice : SortSlice V) (limit : ℕ) (m : Dict Text V)
      → 0 < length (indexed m)
      → OneKey (indexed m)
      → All (λ e. e.0 < limit) (indexed m)
      → (out : List (Option V)) × (normalize_arrays order.visit slice.sort limit (object m)
          ≡ done (array out))
        × Places (indexed m) out
  unfolding normalize_arrays
  normalize_arrays-Places order slice limit m some_index one small =
      let p =
        Permᴰ.trans (indexed-Permᴰ (order.visit-perm m))
          (slice.sort-perm (indexed (order.visit m))) in
      let (same, one') = lookup-Permᴰ p one in
      let (out, e, (values, range)) =
        to_array-Places limit (slice.sort (indexed (order.visit m))) (object m)
          (omega (arith, length-Permᴰ p)) one' (slice.sort-IsSorted (indexed (order.visit m)))
          (All-Permᴰ _ p small) in
      (out, e, (λ i h. values i h ∙ ap some (sym (same i)), λ i v h. range i v (sym (same i) ∙ h)))

  make-panic : (limit n : ℕ) → limit < n → make {V = V} limit n ≡ panic
  unfolding make
  make-panic limit n h = ground arith

  to_array-panic :
      (limit : ℕ) (sorted : List (ℕ × V)) (old : Node V) (i : ℕ) (v : V)
      → IsSorted sorted
      → lookup i sorted ≡ some v
      → limit ≤ i
      → to_array limit sorted old ≡ panic
  unfolding to_array lookup
  to_array-panic limit [] old i v s e h = cc
  to_array-panic limit ((idx, w) ∷ arr) old i v s e h =
      let (_, at_most) =
        All-lookup (λ x. x.0 ≤ last_index idx arr) ((idx, w) ∷ arr) i v
          (last_index_greatest idx w arr s) e in
      rw (make-panic limit (last_index idx arr + 1) (omega arith))

  -- If no two keys are the same index, and some index is not below the bound of `make`, then
  -- `normalizeArrays` panics, in whatever order the map is visited.
  pub normalize_arrays-panic :
      (order : VisitOrder (Text × V)) (slice : SortSlice V) (limit : ℕ) (m : Dict Text V) (i : ℕ)
      (v : V)
      → OneKey (indexed m)
      → lookup i (indexed m) ≡ some v
      → limit ≤ i
      → normalize_arrays order.visit slice.sort limit (object m) ≡ panic
  unfolding normalize_arrays
  normalize_arrays-panic order slice limit m i v one e h =
      let p =
        Permᴰ.trans (indexed-Permᴰ (order.visit-perm m))
          (slice.sort-perm (indexed (order.visit m))) in
      to_array-panic limit (slice.sort (indexed (order.visit m))) (object m) i v
        (slice.sort-IsSorted (indexed (order.visit m))) (sym ((lookup-Permᴰ p one).0 i) ∙ e) h
