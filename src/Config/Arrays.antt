-- ===== src/Config/Arrays.antt =====
-- config/loader.go, `normalizeArrays`: a map with numeric keys becomes an array. `V` is the type of the
-- values (`any`), of which nothing is looked at. `order` is the order in which Go visits the map, `sort` is
-- sort.Slice with the comparison of the code, and `limit` the greatest length that `make` accepts.
pub mod Order
pub mod Places
use atlas_exporter.Prelude.Int.{pos, negsuc}
use atlas_exporter.Prelude.Outcome.{Outcome, done, ◌>>=◌, panic}
use atlas_exporter.Prelude.{
  Option, ℕ, List, some, none, ◌∷◌, if◌then◌else◌, ltb, [], length, ◌+◌, ◌≡◌, replicate, set, refl,
}
use atlas_exporter.Prelude.Text.{Text, atoi, codes}
use atlas_exporter.Prelude.Dict.{Dict}

-- What `k.Get("measurements")` may be: nil, a map, a slice, whose nil elements are `none`, or anything else.
pub data Node (V : Type 0) : Type 0 where
  missing : Node V
  object : Dict Text V → Node V
  array : List (Option V) → Node V
  other : V → Node V

-- The index that a key stands for; -1 in the code is `none`.
unfoldable pub index_of : Text → Option ℕ
index_of key = elim (atoi key) [
  | none ↦ none
  | some i ↦ elim i [ pos n ↦ some n | negsuc n ↦ none ]
]

module _ {V : Type 0} where
  abbrev pub keep : Option ℕ → V → List (ℕ × V) → List (ℕ × V)
  keep none v arr = arr
  keep (some idx) v arr = (idx, v) ∷ arr

  -- The first loop.
  unfoldable pub indexed : Dict Text V → List (ℕ × V)
  unfolding index_of
  indexed [] = []
  indexed ((key, v) ∷ m) = keep (index_of key) v (indexed m)

  -- arr[len(arr)-1].idx, for a list that is not empty.
  unfoldable pub last_index : ℕ → List (ℕ × V) → ℕ
  last_index idx [] = idx
  last_index idx ((i, v) ∷ arr) = last_index i arr

  -- make([]any, n)
  unfoldable pub make : ℕ → ℕ → Outcome (List (Option V))
  make limit n = if ltb limit n then panic else done (replicate n none)

  -- The second loop.
  unfoldable pub place : List (ℕ × V) → List (Option V) → List (Option V)
  place [] out = out
  place ((idx, v) ∷ arr) out =
      place arr (if ltb idx (length out) then set out idx (some v) else out)

  unfoldable pub to_array : ℕ → List (ℕ × V) → Node V → Outcome (Node V)
  unfolding last_index make place
  to_array limit [] old = done old
  to_array limit ((idx, v) ∷ arr) old = do
    out ← make limit (last_index idx arr + 1)
    done (array (place ((idx, v) ∷ arr) out))

  unfoldable pub normalize_arrays :
      (List (Text × V) → List (Text × V))
      → (List (ℕ × V) → List (ℕ × V))
      → ℕ
      → Node V
      → Outcome (Node V)
  unfolding indexed to_array
  normalize_arrays order sort limit (object m) =
      to_array limit (sort (indexed (order m))) (object m)
  normalize_arrays order sort limit node = done node

places_test :
    normalize_arrays {V = ℕ}
      (λ m. m)
      (λ a. a)
      10
      (object ((codes "0", 7) ∷ (codes "x", 8) ∷ (codes "02", 9) ∷ []))
    ≡ done (array (some 7 ∷ none ∷ some 9 ∷ []))
unfolding normalize_arrays atoi
places_test = refl
