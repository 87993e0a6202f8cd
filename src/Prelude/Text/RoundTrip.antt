-- ===== src/Prelude/Text/RoundTrip.antt =====
-- The decimal digits of a number are read back as that number, so different numbers have different texts.
use atlas_exporter.Prelude.Int.{ℤ, pos, negsuc}
use atlas_exporter.Prelude.Int.{ℤ}
use atlas_exporter.Prelude.{
  ℕ, ◌≡◌, ◌≤◌, some, sym, ◌≢◌, arith, Bool-cases, ◌∙◌, ◌∷◌, suc, eqb, ap, inl, inr, ◌/◌, [], ◌+◌,
  ◌%◌, zero,
}
use atlas_exporter.Prelude.Text.{digits, format_ℕ, itoa, scan_digits, Text}

scan-digits :
    (fuel n : ℕ) (out : Text) → n ≤ fuel → scan_digits (digits fuel n out) 0 ≡ scan_digits out n
unfolding digits scan_digits
scan-digits zero n out h = let none_left : n ≡ 0 = omega arith in rw none_left
scan-digits (suc fuel) n out h = elim (Bool-cases (eqb n 0)) [
  | inl done ↦ let none_left : n ≡ 0 = ground arith in rw none_left
  | inr more ↦
      rw (more, digits)
        (scan-digits fuel (n / 10) ((b'0' + n % 10) ∷ out) (ground arith) ∙ ground arith)
]

scan-format_ℕ : (n : ℕ) → scan_digits (format_ℕ n) 0 ≡ some n
unfolding format_ℕ scan_digits
scan-format_ℕ n = elim (Bool-cases (eqb n 0)) [
  | inl done ↦ let none_left : n ≡ 0 = ground arith in rw none_left
  | inr more ↦ rw more (scan-digits n n [] (omega arith))
]

pub format_ℕ_injective : (m n : ℕ) → format_ℕ m ≡ format_ℕ n → m ≡ n
format_ℕ_injective m n h =
    let e = sym (scan-format_ℕ m) ∙ (ap (λ t. scan_digits t 0) h ∙ scan-format_ℕ n) in cc

sign-ne-format_ℕ : (n : ℕ) (t : Text) → format_ℕ n ≢ b'-' ∷ t
unfolding scan_digits
sign-ne-format_ℕ n t h = let e = sym (scan-format_ℕ n) ∙ ap (λ s. scan_digits s 0) h in cc

pub itoa_injective : (a b : ℤ) → itoa a ≡ itoa b → a ≡ b
unfolding itoa
itoa_injective (pos m) (pos n) h = ap pos (format_ℕ_injective m n h)
itoa_injective (pos m) (negsuc n) h = absurd (sign-ne-format_ℕ m _ h)
itoa_injective (negsuc m) (pos n) h = absurd (sign-ne-format_ℕ n _ (sym h))
itoa_injective (negsuc m) (negsuc n) h =
    let same : format_ℕ (suc m) ≡ format_ℕ (suc n) = cc in
    let e = format_ℕ_injective (suc m) (suc n) same in let e' : m ≡ n = omega arith in ap negsuc e'
