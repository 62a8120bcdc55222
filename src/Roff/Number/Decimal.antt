-- ===== src/Roff/Number/Decimal.antt =====
-- Plain decimal numbers, where the arithmetic of `double` is exact.
use mandoc_mirror.Prelude.{
  ℕ, ◌+◌, ◌-◌, ◌*◌, ◌^◌, ◌≤◌, ◌<◌, ◌≡◌, ◌⊎◌, refl, some, [], ◌∷◌, ◌∙◌, ap, arith, Bytes, inl, inr,
}
use mandoc_mirror.Prelude.Int.{pos}
use mandoc_mirror.Roff.Double.{Double, IsExact}
use mandoc_mirror.Roff.Number.Value.{digits, digits_value, value, in_scale, scale_of, unit_table}

-- The number that digits behind the number `acc` stand for.
abbrev pub decimal : ℕ → Bytes → ℕ
decimal acc [] = acc
decimal acc (c ∷ cs) = decimal (acc * 10 + (c - b'0')) cs

decimal-le : (acc : ℕ) (cs : Bytes) → acc ≤ decimal acc cs
decimal-le acc [] = omega arith
decimal-le acc (c ∷ cs) = omega (arith, decimal-le (acc * 10 + (c - b'0')) cs)

module _ (d : Double) (exact : IsExact d) where
  digits_value-decimal :
      (unit acc : ℕ) (cs : Bytes)
      → decimal acc cs < 2 ^ 31
      → digits_value d unit (d.lit acc) cs ≡ d.lit (decimal acc cs)
  unfolding digits_value
  digits_value-decimal unit acc [] h = refl
  digits_value-decimal unit acc (c ∷ cs) h =
      let l = decimal-le (acc * 10 + (c - b'0')) cs in
      rw
        (
          exact.lit-mul acc 10 (omega (arith, l)),
          exact.lit-add (acc * 10) (c - b'0') (omega (arith, l)),
        )
        (digits_value-decimal unit (acc * 10 + (c - b'0')) cs h)

  -- With exact arithmetic and no scaling unit by default, or basic units, the digits of a number
  -- below 2 ^ 31 are that number.
  pub value-decimal :
      (unit c : ℕ) (cs : Bytes)
      → (unit ≡ 0) ⊎ (unit ≡ b'u')
      → decimal 0 (c ∷ cs) < 2 ^ 31
      → value d unit (digits c cs) ≡ some (pos (decimal 0 (c ∷ cs)))
  unfolding value
  value-decimal unit c cs u h =
      rw (digits_value-decimal unit 0 (c ∷ cs) h)
        (ap some (ap d.to_int (plain (d.lit (decimal 0 (c ∷ cs))) u) ∙ exact.to_int-lit _ h))
    where
      plain :
          (x : d.Real)
          → (unit ≡ 0) ⊎ (unit ≡ b'u')
          → in_scale d unit (scale_of unit unit_table) x ≡ x
      plain x (inl e) = rw e refl
      plain x (inr e) = rw e refl
