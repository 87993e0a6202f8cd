-- ===== src/Config/Buckets.antt =====
-- Which buckets and which configurations `Validate` accepts.
use atlas_exporter.Exporter.Laws.{In}
use atlas_exporter.Prelude.Int.{pos}
use atlas_exporter.Prelude.{refl, ◌≡◌, List, false, ◌∷◌, true, All, ◌↔◌, [], arith, inr, inl}
use atlas_exporter.Config.Validate.{rest_ok, is_non_decreasing_non_negative}
use atlas_exporter.Float.{Floats, float, less}

-- x ≤ y, for values that can be compared
abbrev pub AtMost : {F : Type 0} ⦃fl : Floats F⦄ → F → F → Type 0
AtMost x y = less y x ≡ false

-- `<` among these values: what is not less is at least, so `AtMost` is transitive, as where none of them
-- is a NaN.
abbrev pub Comparable : {F : Type 0} ⦃fl : Floats F⦄ → List F → Type 0
Comparable {F = F} vs =
    (x y z : F) → In x vs → In y vs → In z vs → AtMost x y → AtMost y z → AtMost x z

module _ {F : Type 0} ⦃fl : Floats F⦄ where
  abbrev pub NonNegative : F → Type 0
  NonNegative v = less v (float (pos 0)) ≡ false

  -- Each value is at most every value behind it.
  abbrev pub NonDecreasing : List F → Type 0
  NonDecreasing [] = Unit
  NonDecreasing (v ∷ vs) = All (AtMost v) vs × NonDecreasing vs

  -- Each value is at most the next one.
  abbrev Steps : F → List F → Type 0
  Steps prev [] = Unit
  Steps prev (v ∷ vs) = AtMost prev v × Steps v vs

  rest_ok_iff :
      (prev : F) (vs : List F) → (rest_ok prev vs ≡ true) ↔ (All NonNegative vs × Steps prev vs)
  unfolding rest_ok
  rest_ok_iff prev [] = ground arith
  rest_ok_iff prev (v ∷ vs) = ground (arith, rest_ok_iff v vs)

  Comparable-tail : (v : F) (vs : List F) → Comparable (v ∷ vs) → Comparable vs
  Comparable-tail v vs trans x y z a b c = trans x y z (inr a) (inr b) (inr c)

  Comparable-skip : (x v : F) (vs : List F) → Comparable (x ∷ v ∷ vs) → Comparable (x ∷ vs)
  Comparable-skip x v vs trans a b c h k l = trans a b c (skip a h) (skip b k) (skip c l)
    where
      skip : (a : F) → In a (x ∷ vs) → In a (x ∷ v ∷ vs)
      skip a (inl e) = inl e
      skip a (inr h) = inr (inr h)

  Steps-All :
      (x v : F) (vs : List F)
      → Comparable (x ∷ v ∷ vs)
      → AtMost x v
      → Steps v vs
      → All (AtMost x) vs
  Steps-All x v [] trans h s = tt
  Steps-All x v (w ∷ vs) trans h s =
      let k = trans x v w (inl refl) (inr (inl refl)) (inr (inr (inl refl))) h s.0 in
      (k, Steps-All x w vs (Comparable-skip x v (w ∷ vs) trans) k s.1)

  Steps-NonDecreasing :
      (v : F) (vs : List F) → Comparable (v ∷ vs) → Steps v vs → NonDecreasing (v ∷ vs)
  Steps-NonDecreasing v [] trans s = (tt, tt)
  Steps-NonDecreasing v (w ∷ vs) trans s = (
    (s.0, Steps-All v w vs trans s.0 s.1),
    Steps-NonDecreasing w vs (Comparable-tail v (w ∷ vs) trans) s.1,
  )

  NonDecreasing-Steps : (v : F) (vs : List F) → NonDecreasing (v ∷ vs) → Steps v vs
  NonDecreasing-Steps v [] h = tt
  NonDecreasing-Steps v (w ∷ vs) h = (h.0.0, NonDecreasing-Steps w vs h.1)

  -- When `<` compares the values, as it does where none is a NaN, the check accepts exactly the lists of
  -- non-negative values in which each value is at most every value behind it.
  pub is_non_decreasing_non_negative_iff :
      (vs : List F)
      → Comparable vs
      → (is_non_decreasing_non_negative vs ≡ true) ↔ (All NonNegative vs × NonDecreasing vs)
  unfolding is_non_decreasing_non_negative
  is_non_decreasing_non_negative_iff [] trans = ground arith
  is_non_decreasing_non_negative_iff (v ∷ vs) trans =
      ground (arith, rest_ok_iff v vs, Steps-NonDecreasing v vs trans, NonDecreasing-Steps v vs)

  -- A NaN, which is neither less nor greater than anything, hides a decrease: between two non-negative
  -- values it makes the list accepted, whatever their order is.
  pub nan_hides_decrease :
      (x nan y : F)
      → ((z : F) → (less z nan ≡ false) × (less nan z ≡ false))
      → NonNegative x
      → NonNegative y
      → is_non_decreasing_non_negative (x ∷ nan ∷ y ∷ []) ≡ true
  unfolding is_non_decreasing_non_negative
  nan_hides_decrease x nan y h p q = ground (arith, h x, h y, h (float (pos 0)))
