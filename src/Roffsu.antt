-- ===== src/Roffsu.antt =====
-- The scaled numbers of out.c: `a2roffsu`. The C library's `strtod` and the type `double` are
-- parameters.
use mandoc_mirror.Prelude.{
  ℕ, Bool, true, false, Option, none, some, ◌==◌, if◌then◌else◌, Bytes, peek, next,
}

-- `enum roffscale`
pub data Scale : Type 0 where
  cm inch pc pt em mm en bu vs fs max : Scale

-- The letter of a scaling unit; `none` is the default case of the switch.
unfoldable pub scale_of : ℕ → Option Scale
scale_of c =
    if c == b'c'
    then some cm
    else if c == b'i'
    then some inch
    else if c == b'f'
    then some fs
    else if c == b'M'
    then some mm
    else if c == b'm'
    then some em
    else if c == b'n'
    then some en
    else if c == b'P'
    then some pc
    else if c == b'p'
    then some pt
    else if c == b'u'
    then some bu
    else if c == b'v'
    then some vs
    else none

abbrev pub is_max : Scale → Bool
is_max max = true
is_max _ = false

-- `strtod`: the number, and where it ends, or `none` where no number was found (`endptr == src`).
pub record Strtod (Double : Type 0) : Type 0 where
  pub strtod : Bytes → Double × Option Bytes

module _ {Double : Type 0} (lib : Strtod Double) where
  -- What is stored through `dst`, and the pointer that is returned (`none` for NULL).
  unfoldable pub a2roffsu : Bytes → Scale → (Scale × Double) × Option Bytes
  unfolding scale_of
  a2roffsu src def =
      let (scale, end) = lib.strtod src in
      let unit = if is_max def then bu else def in
      elim end [
        | none ↦ ((unit, scale), none)
        | some rest ↦ elim (scale_of (peek rest)) [
          | some u ↦ ((u, scale), some (next rest))
          | none ↦ if is_max def then ((bu, scale), none) else ((def, scale), some rest)
        ]
      ]
