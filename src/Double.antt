-- ===== src/Double.antt =====
-- The `double` operations that the program uses. A `double` is its IEEE bit pattern, and the
-- operations belong to the hardware and to <cmath>, so they are a parameter of the model.
use cs.Prelude.{ℕ, ◌≡◌, Bool, false}

pub record Doubles : Type 0 where
  pub neg : ℕ → ℕ
  pub add : ℕ → ℕ → ℕ
  pub sub : ℕ → ℕ → ℕ
  pub mul : ℕ → ℕ → ℕ
  pub div : ℕ → ℕ → ℕ
  pub log : ℕ → ℕ
  pub pow : ℕ → ℕ → ℕ
  pub ceil : ℕ → ℕ
  pub lt : ℕ → ℕ → Bool
  pub le : ℕ → ℕ → Bool
  pub of_size : ℕ → ℕ
  pub to_size : ℕ → ℕ
  -- `static_cast<int>` of a value that is not negative.
  pub to_int : ℕ → ℕ
  -- The `int` a - b, as a `double`.
  pub of_diff : ℕ → ℕ → ℕ

abbrev pub zero_double : ℕ
zero_double = 0

abbrev pub minus_zero : ℕ
minus_zero = 0x8000_0000_0000_0000

abbrev pub one_double : ℕ
one_double = 0x3ff0_0000_0000_0000

abbrev pub two_double : ℕ
two_double = 0x4000_0000_0000_0000

abbrev pub four_double : ℕ
four_double = 0x4010_0000_0000_0000

-- Exact cases that IEEE 754 and <cmath> document: log(1) is +0, x to the power 0 is 1, 1 / 1 is 1,
-- and a zero keeps its sign under products, quotients and `ceil` and converts to 0.
pub record IsExact (d : Doubles) : Type 0 where
  pub log_one : d.log one_double ≡ zero_double
  pub neg_mul_zero : (n : ℕ) → d.mul (d.neg (d.of_size n)) zero_double ≡ minus_zero
  pub zero_div_ln2 : d.div minus_zero (d.mul (d.log two_double) (d.log two_double)) ≡ minus_zero
  pub ceil_zero : d.ceil minus_zero ≡ minus_zero
  pub to_size_zero : d.to_size minus_zero ≡ 0
  pub pow_zero : (x n : ℕ) → d.pow x (d.of_diff n n) ≡ one_double
  pub one_div_one : d.div one_double one_double ≡ one_double
  pub one_lt_one : d.lt one_double one_double ≡ false
