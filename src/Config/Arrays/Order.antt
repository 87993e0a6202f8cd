-- ===== src/Config/Arrays/Order.antt =====
-- Lists of indices and values: their order, and what stays the same when they are rearranged.
use atlas_exporter.Prelude.Text.{Text}
use atlas_exporter.Config.Arrays.{last_index, keep, indexed, index_of}
use atlas_exporter.Prelude.Equality.{list_eq, nat_eq}
use mathlib.Core.List.{Permᴰ}
use atlas_exporter.Prelude.Dict.{lookup, IsMap}
use atlas_exporter.Prelude.{
  List, ℕ, Option, ◌≡◌, ◌∙◌, ◌∷◌, All, eqb, refl, ◌≤◌, ap, [], some, arith, ◌<◌, none, Bool-cases,
  inl, subst, eqb_iff, inr,
}
use mathlib.Core.List.Permᴰ

abbrev pub IsSorted : {V : Type 0} → List (ℕ × V) → Type 0
IsSorted [] = Unit
IsSorted ((i, v) ∷ arr) = All (λ e. i ≤ e.0) arr × IsSorted arr

module _ {V : Type 0} where
  pub lookup-Permᴰ :
      {xs ys : List (ℕ × V)}
      → Permᴰ xs ys
      → IsMap xs
      → ((i : ℕ) → lookup i xs ≡ lookup i ys) × IsMap ys
  unfolding lookup
  lookup-Permᴰ Permᴰ.nil h = (λ i. refl, tt)
  lookup-Permᴰ (Permᴰ.cons {a = a} {b = b} e p) h =
      let (same, one) = lookup-Permᴰ p h.1 in
      let key : a.0 ≡ b.0 = ap (λ x. x.0) e in
      let value : a.1 ≡ b.1 = ap (λ x. x.1) e in
      (λ i. ground (arith, same i), (ground (arith, same a.0), one))
  lookup-Permᴰ (Permᴰ.swap {a = a} {b = b} {a' = a'} {b' = b'} {l = l} e f) h =
      let key : a.0 ≡ b'.0 = ap (λ x. x.0) e in
      let value : a.1 ≡ b'.1 = ap (λ x. x.1) e in
      let key' : b.0 ≡ a'.0 = ap (λ x. x.0) f in
      let value' : b.1 ≡ a'.1 = ap (λ x. x.1) f in
      let here = h.0 in
      let there = h.1.0 in (λ i. ground arith, (ground arith, (ground arith, h.1.1)))
  lookup-Permᴰ (Permᴰ.trans p q) h =
      let (same, one) = lookup-Permᴰ p h in
      let (same', one') = lookup-Permᴰ q one in (λ i. same i ∙ same' i, one')

  -- The last index of a sorted list is the greatest one, and it is there.
  pub last_index_greatest :
      (idx : ℕ) (v : V) (arr : List (ℕ × V))
      → IsSorted ((idx, v) ∷ arr)
      → All (λ e. e.0 ≤ last_index idx arr) ((idx, v) ∷ arr)
  unfolding last_index
  last_index_greatest idx v [] h = (omega arith, tt)
  last_index_greatest idx v ((i, w) ∷ arr) h =
      let rest = last_index_greatest i w arr h.1 in (omega (arith, h.0.0, rest.0), rest)

  pub All-lookup :
      (P : ℕ × V → Type 0) (arr : List (ℕ × V)) (i : ℕ) (v : V)
      → All P arr
      → lookup i arr ≡ some v
      → (w : V) × P (i, w)
  unfolding lookup
  All-lookup P [] i v h e = cc
  All-lookup P ((k, w) ∷ arr) i v h e = elim (Bool-cases (eqb k i)) [
    | inl same ↦ (w, subst (λ j. P (j, w)) ((eqb_iff k i).0 same) h.0)
    | inr other ↦ All-lookup P arr i v h.1 (rw other at e)
  ]

  keep-Permᴰ :
      (o : Option ℕ) (v : V) {xs ys : List (ℕ × V)}
      → Permᴰ xs ys
      → Permᴰ (keep o v xs) (keep o v ys)
  keep-Permᴰ none v p = p
  keep-Permᴰ (some i) v p = Permᴰ.cons refl p

  keep-swap :
      (o o' : Option ℕ) (v v' : V) (xs : List (ℕ × V))
      → Permᴰ (keep o v (keep o' v' xs)) (keep o' v' (keep o v xs))
  keep-swap none o' v v' xs = Permᴰ.refl _
  keep-swap (some i) none v v' xs = Permᴰ.refl _
  keep-swap (some i) (some j) v v' xs = Permᴰ.swap refl refl

  pub indexed-Permᴰ : {m m' : List (Text × V)} → Permᴰ m m' → Permᴰ (indexed m) (indexed m')
  unfolding indexed
  indexed-Permᴰ Permᴰ.nil = Permᴰ.nil
  indexed-Permᴰ (Permᴰ.cons {a = a} {l₁ = l₁} {l₂ = l₂} e p) =
      subst (λ b. Permᴰ (indexed (a ∷ l₁)) (indexed (b ∷ l₂))) e
        (keep-Permᴰ (index_of a.0) a.1 (indexed-Permᴰ p))
  indexed-Permᴰ (Permᴰ.swap {a = a} {b = b} {a' = a₁} {l = l} e f) =
      subst (λ b'. Permᴰ (indexed (a ∷ b ∷ l)) (indexed (a₁ ∷ b' ∷ l))) e
        (subst (λ a'. Permᴰ (indexed (a ∷ b ∷ l)) (indexed (a' ∷ a ∷ l))) f
          (keep-swap (index_of a.0) (index_of b.0) a.1 b.1 (indexed l)))
  indexed-Permᴰ (Permᴰ.trans p q) = Permᴰ.trans (indexed-Permᴰ p) (indexed-Permᴰ q)

  pub last_index-lt :
      (limit idx : ℕ) (v : V) (arr : List (ℕ × V))
      → All (λ e. e.0 < limit) ((idx, v) ∷ arr)
      → last_index idx arr < limit
  unfolding last_index
  last_index-lt limit idx v [] h = h.0
  last_index-lt limit idx v ((i, w) ∷ arr) h = last_index-lt limit i w arr h.1
