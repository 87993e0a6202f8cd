-- ===== src/Prelude/Equality.antt =====
-- Decidable equality as an interface: Go's `==` on the key types of its maps, and on strings.
use Prim.Native.Nat.{ℕ}
use mathlib.Core.Path.{◌≡◌, refl}
use mathlib.Core.Logic.{◌↔◌}
use mathlib.Core.Bool.{Bool, true, false, ◌&&◌}
use mathlib.Core.List.{List, [], ◌∷◌}
use native.Mathlib.Omega.{arith}
use atlas_exporter.Prelude.Tests.{eqb, eqb_iff}
use atlas_exporter.Prelude.Int.{ℤ, eqb_ℤ, eqb_ℤ_iff}

pub record Eq {ℓ} (A : Type ℓ) : Type ℓ where
  pub beq : A → A → Bool
  pub beq_iff : (x y : A) → (beq x y ≡ true) ↔ (x ≡ y)

instance abbrev pub nat_eq : Eq ℕ
nat_eq = record { beq = eqb; beq_iff = eqb_iff }

instance abbrev pub int_eq : Eq ℤ
int_eq = record { beq = eqb_ℤ; beq_iff = eqb_ℤ_iff }

infix 50 ◌==◌
abbrev pub ◌==◌ {ℓ} : {A : Type ℓ} ⦃e : Eq A⦄ → A → A → Bool
◌==◌ ⦃e⦄ = e.beq

module _ {ℓ} {A : Type ℓ} ⦃e : Eq A⦄ where
  abbrev pub eqb_list : List A → List A → Bool
  eqb_list [] [] = true
  eqb_list (x ∷ xs) (y ∷ ys) = e.beq x y && eqb_list xs ys
  eqb_list _ _ = false

  pub eqb_list_iff : (xs ys : List A) → (eqb_list xs ys ≡ true) ↔ (xs ≡ ys)
  eqb_list_iff [] [] = ground arith
  eqb_list_iff [] (y ∷ ys) = ground arith
  eqb_list_iff (x ∷ xs) [] = ground arith
  eqb_list_iff (x ∷ xs) (y ∷ ys) = ground (arith, e.beq_iff x y, eqb_list_iff xs ys)

  pub eq_refl : (a : A) → e.beq a a ≡ true
  eq_refl a = (e.beq_iff a a).1 refl

instance abbrev pub list_eq {ℓ} : {A : Type ℓ} ⦃e : Eq A⦄ → Eq (List A)
list_eq = record { beq = eqb_list; beq_iff = eqb_list_iff }
