-- ===== src/Table/Options/Margins.antt =====
-- What `tbl_option` of tbl_opts.c leaves alone.
use mandoc_mirror.Prelude.{
  ℕ, zero, suc, ◌≡◌, refl, Option, none, some, [], ◌∷◌, ◌==◌, if_both, Bytes, peek, next, length,
}
use mandoc_mirror.Table.Options.{
  Opts, Key, dpoint, delim, linesize, tab_key, bits, keys, look_up, Optioned, optioned,
  option_overread, option_out_of_fuel, until_paren, skip_blank, set_arg, close_paren, arg, handle,
  skip_separators, word, option_at, tbl_option,
}

-- The same columns and margins
pub record IsLike (t u : Opts) : Type 0 where
  pub cols : u.cols ≡ t.cols
  pub lvert : u.lvert ≡ t.lvert
  pub rvert : u.rvert ≡ t.rvert

pub data Leaves (t : Opts) : Optioned → Type 0 where
  leaves : (u : Opts) (w : Bytes) → IsLike t u → Leaves t (optioned u w)
  overreads : Leaves t option_overread
  out_of_fuel : Leaves t option_out_of_fuel

same-IsLike : (t : Opts) → IsLike t t
same-IsLike t = record { cols = refl; lvert = refl; rvert = refl }

set_arg-IsLike : (t u : Opts) (k : Key) (s : Bytes) → IsLike t u → IsLike t (set_arg k s u)
unfolding set_arg
set_arg-IsLike t u tab_key s h =
    if_both (IsLike t) (length s == 1)
      (λ b. record { cols = h.cols; lvert = h.lvert; rvert = h.rvert }) λ b. h
set_arg-IsLike t u dpoint s h =
    if_both (IsLike t) (length s == 1)
      (λ b. record { cols = h.cols; lvert = h.lvert; rvert = h.rvert }) λ b. h
set_arg-IsLike t u _ s h = h

module _ (t : Opts) (again : Opts → Bytes → Optioned)
    (go : (u : Opts) (w : Bytes) → IsLike t u → Leaves t (again u w)) where
  arg-Leaves : (k : Key) (u : Opts) (v : Bytes) → IsLike t u → Leaves t (arg k again u v)
  unfolding arg
  arg-Leaves k u v h =
      if_both (Leaves t) (peek (skip_blank v) == b'(')
        (λ b.
          elim (until_paren (next (skip_blank v)))
            as (λ o. Leaves t (elim o [
              | none ↦ option_overread
              | some (s, x) ↦ again (set_arg k s u) (close_paren x)
            ])) [
              | none ↦ overreads
              | some (s, x) ↦ go (set_arg k s u) (close_paren x) (set_arg-IsLike t u k s h)
            ])
        λ b. go (set_arg k [] u) (close_paren (skip_blank v)) (set_arg-IsLike t u k [] h)

  handle-Leaves :
      (o : Option Key) (u : Opts) (v : Bytes) → IsLike t u → Leaves t (handle o again u v)
  unfolding handle
  handle-Leaves none u v h = go u v h
  handle-Leaves (some (bits b)) u v h =
      go _ v (record { cols = h.cols; lvert = h.lvert; rvert = h.rvert })
  handle-Leaves (some dpoint) u v h = arg-Leaves dpoint u v h
  handle-Leaves (some delim) u v h = arg-Leaves delim u v h
  handle-Leaves (some linesize) u v h = arg-Leaves linesize u v h
  handle-Leaves (some tab_key) u v h = arg-Leaves tab_key u v h

  option_at-Leaves : (u : Opts) (v : Bytes) → IsLike t u → Leaves t (option_at again u v)
  unfolding option_at
  option_at-Leaves u [] h = overreads
  option_at-Leaves u (c ∷ v) h =
      if_both (Leaves t) (c == b';') (λ b. leaves u v h)
        λ b.
          if_both (Leaves t) (length (word (c ∷ v)).0 == 0) (λ e. go u v h)
            λ e. handle-Leaves (look_up (word (c ∷ v)).0 keys) u (word (c ∷ v)).1 h

tbl_option_like : (fuel : ℕ) (t u : Opts) (v : Bytes) → IsLike t u → Leaves t (tbl_option fuel u v)
unfolding tbl_option
tbl_option_like zero t u v h = out_of_fuel
tbl_option_like (suc fuel) t u v h =
    option_at-Leaves t (λ x w. tbl_option fuel x w) (λ x w i. tbl_option_like fuel t x w i) u
      (skip_separators v) h

-- `tbl_option` changes neither the number of columns nor the lines along the margins.
pub tbl_option-Leaves : (fuel : ℕ) (t : Opts) (v : Bytes) → Leaves t (tbl_option fuel t v)
tbl_option-Leaves fuel t v = tbl_option_like fuel t t v (same-IsLike t)
