-- ===== src/Tests/Arrays.antt =====
-- The array that a map with numbers as keys becomes.
use mathlib.Core.List.{Permᴰ}
use native.Mathlib.Nat.{le_trans}
use atlas_exporter.Prelude.Equality.{list_eq, nat_eq}
use atlas_exporter.Prelude.Outcome.{done, panic}
use atlas_exporter.Atlas.Worker.Start.{after}
use mathlib.Core.List.Permᴰ
use atlas_exporter.Prelude.Text.{Text, codes, atoi}
use atlas_exporter.Config.Arrays.{indexed, normalize_arrays, object, array}
use atlas_exporter.Config.Arrays.Order.{IsSorted}
use atlas_exporter.Config.Arrays.Places.{
  SortSlice, OneKey, normalize_arrays-panic, Places, normalize_arrays-Places,
}
use atlas_exporter.Prelude.{
  List, ℕ, ◌∷◌, ◌≤◌, [], ◌≡◌, if◌then◌else◌, Bool-cases, All, Option, refl, arith, leb, inl, inr,
  All-imp,
}
use atlas_exporter.Prelude.Dict.{lookup, Dict}
use atlas_exporter.Tests.Data.{int_floats, in_order}

-- Insertion sort by the index.
insert_sorted : ℕ × ℕ → List (ℕ × ℕ) → List (ℕ × ℕ)
insert_sorted e [] = e ∷ []
insert_sorted e (x ∷ xs) = if leb e.0 x.0 then e ∷ x ∷ xs else x ∷ insert_sorted e xs

abbrev sort_all : List (ℕ × ℕ) → List (ℕ × ℕ)
sort_all [] = []
sort_all (x ∷ xs) = insert_sorted x (sort_all xs)

insert_sorted-Permᴰ : (e : ℕ × ℕ) (xs : List (ℕ × ℕ)) → Permᴰ (e ∷ xs) (insert_sorted e xs)
unfolding insert_sorted
insert_sorted-Permᴰ e [] = Permᴰ.cons refl Permᴰ.nil
insert_sorted-Permᴰ e (x ∷ xs) = elim (Bool-cases (leb e.0 x.0)) [
  | inl before ↦ rw before (Permᴰ.refl _)
  | inr after ↦
      rw after (Permᴰ.trans (Permᴰ.swap refl refl) (Permᴰ.cons refl (insert_sorted-Permᴰ e xs)))
]

sort_all-Permᴰ : (xs : List (ℕ × ℕ)) → Permᴰ xs (sort_all xs)
sort_all-Permᴰ [] = Permᴰ.nil
sort_all-Permᴰ (x ∷ xs) =
    Permᴰ.trans (Permᴰ.cons refl (sort_all-Permᴰ xs)) (insert_sorted-Permᴰ x (sort_all xs))

insert_sorted-All :
    (n : ℕ) (e : ℕ × ℕ) (xs : List (ℕ × ℕ))
    → n ≤ e.0
    → All (λ x. n ≤ x.0) xs
    → All (λ x. n ≤ x.0) (insert_sorted e xs)
unfolding insert_sorted
insert_sorted-All n e [] h a = (h, tt)
insert_sorted-All n e (x ∷ xs) h a = elim (Bool-cases (leb e.0 x.0)) [
  | inl before ↦ rw before (h, a)
  | inr after ↦ rw after (a.0, insert_sorted-All n e xs h a.1)
]

insert_sorted-IsSorted :
    (e : ℕ × ℕ) (xs : List (ℕ × ℕ)) → IsSorted xs → IsSorted (insert_sorted e xs)
unfolding insert_sorted
insert_sorted-IsSorted e [] s = (tt, tt)
insert_sorted-IsSorted e (x ∷ xs) s = elim (Bool-cases (leb e.0 x.0)) [
  | inl before ↦
      let first : e.0 ≤ x.0 = ground arith in
      rw before ((first, All-imp _ _ xs (λ y h. le_trans first h) s.0), s)
  | inr after ↦
      let first : x.0 ≤ e.0 = ground arith in
      rw after (insert_sorted-All x.0 e xs first s.0, insert_sorted-IsSorted e xs s.1)
]

sort_all-IsSorted : (xs : List (ℕ × ℕ)) → IsSorted (sort_all xs)
sort_all-IsSorted [] = tt
sort_all-IsSorted (x ∷ xs) = insert_sorted-IsSorted x (sort_all xs) (sort_all-IsSorted xs)

abbrev slice : SortSlice ℕ
slice = record { sort = sort_all; sort-perm = sort_all-Permᴰ; sort-IsSorted = sort_all-IsSorted }

abbrev numbered : Dict Text ℕ
numbered = (codes "2", 12) ∷ (codes "0", 10) ∷ []

numbered-OneKey : OneKey (indexed numbered)
unfolding indexed lookup atoi
numbered-OneKey = (refl, (refl, tt))

normalize_arrays-Places_example :
    (out : List (Option ℕ)) × (normalize_arrays (λ m. m) sort_all 100 (object numbered)
      ≡ done (array out))
    × Places (indexed numbered) out
unfolding indexed atoi
normalize_arrays-Places_example =
    normalize_arrays-Places in_order slice 100 numbered (omega arith) numbered-OneKey
      (omega arith, (omega arith, tt))

normalize_arrays-panic_example : normalize_arrays (λ m. m) sort_all 2 (object numbered) ≡ panic
unfolding indexed lookup atoi
normalize_arrays-panic_example =
    normalize_arrays-panic in_order slice 2 numbered 2 12 numbered-OneKey refl (omega arith)
