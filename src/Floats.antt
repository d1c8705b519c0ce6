-- ===== src/Floats.antt =====
-- Go's float64, as far as the proxy computes with it: the type and its operations are a parameter.
use qcc_plus.Prelude.{ℕ, ◌*◌, Bool, leb, ltb}

pub record FloatOps (F : Type 0) : Type 0 where
  pub of_ℕ : ℕ → F
  pub div : F → F → F
  pub leb_f : F → F → Bool  -- `<=`
  pub ltb_f : F → F → Bool  -- `<`

-- Fractions of natural numbers, compared by cross multiplication: an instance for the tests.
pub record Fraction : Type 0 where
  pub num : ℕ
  pub den : ℕ

abbrev pub fractions : FloatOps Fraction
fractions = record {
  of_ℕ = λ n. record { num = n; den = 1 };
  div = λ a b. record { num = a.num * b.den; den = a.den * b.num };
  leb_f = λ a b. leb (a.num * b.den) (b.num * a.den);
  ltb_f = λ a b. ltb (a.num * b.den) (b.num * a.den);
}
