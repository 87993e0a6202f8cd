-- ===== src/Prelude/Text.antt =====
-- Go strings are sequences of bytes. `codes` reads a literal; the rest is what the program uses of
-- `strconv` and `strings`.
pub mod RoundTrip
use atlas_exporter.Prelude.{Option, some, ◌*◌, none, ◌-◌, leb, ◌^◌, ltb}
use Prim.Native.Nat.{ℕ, zero, suc, ◌+◌, ◌/◌, ◌%◌}
use Prim.Native.Char.{code}
use Prim.Native.String.{String}
use mathlib.Core.Path.{◌≡◌, refl}
use mathlib.Core.Bool.{Bool, true, false, ◌&&◌}
use mathlib.Core.List.{List, [], ◌∷◌}
use atlas_exporter.Prelude.Tests.{eqb, if◌then◌else◌}
use atlas_exporter.Prelude.Int.{ℤ, pos, negsuc, sub_ℕ}

abbrev pub Text : Type 0
Text = List ℕ

abbrev pub codes : String → Text
codes String.[] = []
codes (String.◌∷◌ c s) = code c ∷ codes s

-- The decimal digits of n, in front of `out`; `fuel` bounds the number of rounds.
unfoldable pub digits : ℕ → ℕ → Text → Text
digits zero n out = out
digits (suc fuel) n out = elim (eqb n 0) [
  | true ↦ out
  | false ↦ digits fuel (n / 10) ((b'0' + n % 10) ∷ out)
]

unfoldable pub format_ℕ : ℕ → Text
unfolding digits
format_ℕ n = if eqb n 0 then b'0' ∷ [] else digits n n []

-- strconv.Itoa
unfoldable pub itoa : ℤ → Text
unfolding format_ℕ
itoa (pos n) = format_ℕ n
itoa (negsuc n) = b'-' ∷ format_ℕ (suc n)

-- strings.HasPrefix
abbrev pub has_prefix : Text → Text → Bool
has_prefix s [] = true
has_prefix [] (p ∷ ps) = false
has_prefix (c ∷ s) (p ∷ ps) = eqb c p && has_prefix s ps

itoa_test : itoa (pos 8809582) ≡ codes "8809582"
unfolding itoa
itoa_test = refl

scan_digits : Text → ℕ → Option ℕ
scan_digits [] n = some n
scan_digits (c ∷ s) n =
    let rest = scan_digits s (n * 10 + (c - b'0')) in
    if leb b'0' c && leb c b'9' then rest else none

unsigned : Text → Option ℕ
unsigned [] = none
unsigned (c ∷ s) = scan_digits (c ∷ s) 0

-- strconv.Atoi: `none` is an error, a syntax error or a value out of the range of int64.
unfoldable pub atoi : Text → Option ℤ
unfolding unsigned scan_digits
atoi [] = none
atoi (c ∷ s) =
    if eqb c b'-'
    then elim (unsigned s) [
      | none ↦ none
      | some n ↦ if leb n (2 ^ 63) then some (sub_ℕ 0 n) else none
    ]
    else elim (unsigned (if eqb c b'+' then s else c ∷ s)) [
      | none ↦ none
      | some n ↦ if ltb n (2 ^ 63) then some (pos n) else none
    ]

atoi_test : atoi (codes "-120") ≡ some (negsuc 119)
unfolding atoi
atoi_test = refl
