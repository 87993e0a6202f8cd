-- ===== src/Float.antt =====
-- float64 as an interface: the operations that the program uses. Their values and rounding are not
-- modelled. `lt` is Go's `<`, so it is false whenever a NaN is compared.
use atlas_exporter.Prelude.{Bool}
use atlas_exporter.Prelude.Int.{ℤ, pos}
use atlas_exporter.Prelude.Text.{Text}

pub record Floats (F : Type 0) : Type 0 where
  pub lt : F → F → Bool
  -- float64(n)
  pub of_int : ℤ → F
  -- strconv.ParseFloat(s, 64): the value, and whether there was no error
  pub parse_float : Text → F × Bool
  -- strconv.FormatFloat(x, 'f', 4, 64)
  pub format_float : F → Text

module _ {F : Type 0} ⦃fl : Floats F⦄ where
  abbrev pub float : ℤ → F
  float = fl.of_int

  abbrev pub less : F → F → Bool
  less = fl.lt

  -- x > 0
  abbrev pub positive : F → Bool
  positive x = less (float (pos 0)) x
