-- ===== src/Roff/Number/Meaning.antt =====
-- The operators and scaling units of numeric expressions in roff.c, against what they mean.
use mandoc_mirror.Prelude.{ℕ, ◌≡◌, refl, ap, Bool, not, ◌||◌, some, arith, if◌then◌else◌}
use mandoc_mirror.Prelude.Int.{ℤ, pos, negsuc, ltb_ℤ}
use mandoc_mirror.Roff.Int32.{eq_ℤ, of_bool, int_add, int_sub, int_mul}
use mandoc_mirror.Roff.Double.{Double}
use mandoc_mirror.Roff.Number.{apply_op, scaled}
use mandoc_mirror.Roff.Number.Value.{Op, letter, meaning, same_ℤ, scale_of, unit_table, in_scale}

eq_ℤ-same_ℤ : (n m : ℤ) → eq_ℤ n m ≡ same_ℤ n m
eq_ℤ-same_ℤ (pos n) (pos m) = ground arith
eq_ℤ-same_ℤ (pos n) (negsuc m) = ground arith
eq_ℤ-same_ℤ (negsuc n) (pos m) = ground arith
eq_ℤ-same_ℤ (negsuc n) (negsuc m) = ground arith

not_above : (n m : ℤ) → not (ltb_ℤ m n) ≡ (ltb_ℤ n m || same_ℤ n m)
not_above (pos n) (pos m) = ground arith
not_above (pos n) (negsuc m) = ground arith
not_above (negsuc n) (pos m) = ground arith
not_above (negsuc n) (negsuc m) = ground arith

not_below : (n m : ℤ) → not (ltb_ℤ n m) ≡ (ltb_ℤ m n || same_ℤ n m)
not_below (pos n) (pos m) = ground arith
not_below (pos n) (negsuc m) = ground arith
not_below (negsuc n) (pos m) = ground arith
not_below (negsuc n) (negsuc m) = ground arith

least : (n m : ℤ) → (if ltb_ℤ m n then m else n) ≡ (if ltb_ℤ n m then n else m)
least (pos n) (pos m) = ground arith
least (pos n) (negsuc m) = ground arith
least (negsuc n) (pos m) = ground arith
least (negsuc n) (negsuc m) = ground arith

pub apply_op-meaning : (op : Op) (n m : ℤ) → apply_op (letter op) n m ≡ meaning op n m
unfolding apply_op int_add int_sub int_mul
apply_op-meaning Op.plus n m = refl
apply_op-meaning Op.minus n m = refl
apply_op-meaning Op.times n m = refl
apply_op-meaning Op.divide n m = refl
apply_op-meaning Op.modulo n m = refl
apply_op-meaning Op.and n m = ground (arith)
apply_op-meaning Op.or n m = ground (arith)
apply_op-meaning Op.lt n m = refl
apply_op-meaning Op.gt n m = refl
apply_op-meaning Op.le n m = ap (λ (b : Bool). some (of_bool b)) (not_above n m)
apply_op-meaning Op.ge n m = ap (λ (b : Bool). some (of_bool b)) (not_below n m)
apply_op-meaning Op.eq n m = rw (eq_ℤ-same_ℤ n m) refl
apply_op-meaning Op.ne n m = rw (eq_ℤ-same_ℤ n m) refl
apply_op-meaning Op.min n m = ap some (least n m)
apply_op-meaning Op.max n m = refl

pub scaled-in_scale :
    (d : Double) (unit : ℕ) (x : d.Real)
    → scaled d unit x ≡ in_scale d unit (scale_of unit unit_table) x
unfolding scaled
scaled-in_scale d unit x = ground arith
