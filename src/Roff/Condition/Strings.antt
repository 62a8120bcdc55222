-- ===== src/Roff/Condition/Strings.antt =====
-- The comparison of two strings between delimiters.
use mandoc_mirror.Prelude.{ℕ, ◌≡◌, false, some, [], ◌∷◌, ◌++◌, Bytes, arith, elem, str_same}
use mandoc_mirror.Roff.Condition.{strchr, compare_strings, evalstrcond}

strchr-append :
    (d : ℕ) (a rest : Bytes) → elem d a ≡ false → strchr (a ++ (d ∷ rest)) d ≡ some (d ∷ rest)
unfolding strchr elem
strchr-append d [] rest h = ground arith
strchr-append d (c ∷ a) rest h = ground (arith, strchr-append d a rest)

compare_strings-append :
    (d : ℕ) (a b s rest : Bytes)
    → elem d a ≡ false
    → elem d b ≡ false
    → compare_strings d (a ++ (d ∷ s)) (b ++ (d ∷ rest)) ≡ (str_same a b, rest)
unfolding compare_strings elem str_same
compare_strings-append d [] [] s rest h k = ground arith
compare_strings-append d (c ∷ a) [] s rest h k = ground (arith, strchr-append d [] rest k)
compare_strings-append d [] (e ∷ b) s rest h k = ground (arith, strchr-append d (e ∷ b) rest k)
compare_strings-append d (c ∷ a) (e ∷ b) s rest h k =
    ground (arith, strchr-append d (e ∷ b) rest k, compare_strings-append d a b s rest)

-- Two strings that do not hold the delimiter compare equal exactly when they are the same, and the
-- parse point moves behind the third delimiter in either case.
pub evalstrcond-str_same :
    (d : ℕ) (a b rest : Bytes)
    → elem d a ≡ false
    → elem d b ≡ false
    → evalstrcond d (a ++ (d ∷ (b ++ (d ∷ rest)))) ≡ (str_same a b, rest)
unfolding evalstrcond
evalstrcond-str_same d a b rest h k =
    rw (strchr-append d a (b ++ (d ∷ rest)) h, evalstrcond)
      (compare_strings-append d a b (b ++ (d ∷ rest)) rest h k)
