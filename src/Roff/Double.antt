-- ===== src/Roff/Double.antt =====
-- The C type `double`, which roff.c computes lengths with. The type and its operations are a
-- parameter, and so are the laws that a theorem relies on: integers below 2 ^ 31 and the sums and
-- products of such that stay below it are exact.
use mandoc_mirror.Prelude.{ℕ, ◌+◌, ◌*◌, ◌^◌, ◌<◌, ◌≡◌}
use mandoc_mirror.Prelude.Int.{ℤ, pos}

pub record Double : Type 1 where
  pub Real : Type 0
  -- an integer literal, such as 240.0
  pub lit : ℕ → Real
  -- the literal 0.1
  pub tenth : Real
  pub add : Real → Real → Real
  pub mul : Real → Real → Real
  pub div : Real → Real → Real
  pub neg : Real → Real
  -- the conversion to `int`
  pub to_int : Real → ℤ

-- What IEEE 754 says of small integers.
pub record IsExact (d : Double) : Type 0 where
  pub lit-add : (a b : ℕ) → a + b < 2 ^ 31 → d.add (d.lit a) (d.lit b) ≡ d.lit (a + b)
  pub lit-mul : (a b : ℕ) → a * b < 2 ^ 31 → d.mul (d.lit a) (d.lit b) ≡ d.lit (a * b)
  pub to_int-lit : (a : ℕ) → a < 2 ^ 31 → d.to_int (d.lit a) ≡ pos a
