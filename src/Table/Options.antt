-- ===== src/Table/Options.antt =====
-- The options line of a table: `tbl_option` and `arg` of tbl_opts.c, and the test of `tbl_read` in
-- tbl.c that there is a semicolon. A place in the line is the rest of the line.
pub mod Margins
pub mod Semicolon
use mandoc_mirror.Prelude.{
  ℕ, zero, suc, ◌+◌, Bool, true, false, not, ◌&&◌, ◌||◌, Option, none, some, List, [], ◌∷◌, map,
  ltb, leb, ◌==◌, if◌then◌else◌, Bytes, codes, peek, next, isalpha, tolower, length, str_same,
}
use Prim.Native.Nat.{bit_or}

-- `struct tbl_opts`
pub record Opts : Type 0 where
  pub opts : ℕ
  pub cols : ℕ
  pub lvert : ℕ
  pub rvert : ℕ
  pub tab : ℕ
  pub decimal : ℕ

-- The options that take an argument: KEY_DPOINT, KEY_DELIM, KEY_LINESIZE, KEY_TAB; or the bits of
-- those that take none.
pub data Key : Type 0 where
  dpoint delim linesize tab_key : Key
  bits : ℕ → Key

-- `keys`
abbrev pub keys : List (Bytes × Key)
keys =
    (codes "decimalpoint", dpoint)
    ∷ (codes "delim", delim)
    ∷ (codes "linesize", linesize)
    ∷ (codes "tab", tab_key)
    ∷ (codes "allbox", bits 3)
    ∷ (codes "box", bits 2)
    ∷ (codes "frame", bits 2)
    ∷ (codes "center", bits 4)
    ∷ (codes "centre", bits 4)
    ∷ (codes "doublebox", bits 8)
    ∷ (codes "doubleframe", bits 8)
    ∷ (codes "expand", bits 16)
    ∷ (codes "nokeep", bits 32)
    ∷ (codes "nospaces", bits 64)
    ∷ (codes "nowarn", bits 128)
    ∷ []

-- "Look up the option name."
unfoldable pub look_up : Bytes → List (Bytes × Key) → Option Key
look_up word [] = none
look_up word ((name, key) ∷ ks) =
    if str_same (map tolower word) name then some key else look_up word ks

-- The outcome, where a read behind the line is one of its own.
pub data Optioned : Type 0 where
  optioned : Opts → Bytes → Optioned
  option_overread : Optioned
  option_out_of_fuel : Optioned

-- `while (p[*pos + len] != ')') len++`: what stands before the parenthesis, and the line from there
-- on; `none` is a read behind the line.
unfoldable pub until_paren : Bytes → Option (Bytes × Bytes)
until_paren [] = none
until_paren (c ∷ v) =
    let more = until_paren v in
    if c == b')'
    then some ([], c ∷ v)
    else elim more [ none ↦ none | some (s, w) ↦ some (c ∷ s, w) ]

abbrev pub is_blank : ℕ → Bool
is_blank c = c == b' ' || c == 9

unfoldable pub skip_blank : Bytes → Bytes
skip_blank [] = []
skip_blank (c ∷ v) = let more = skip_blank v in if is_blank c then more else c ∷ v

-- The switch of `arg` over the key, at an argument.
unfoldable pub set_arg : Key → Bytes → Opts → Opts
set_arg tab_key s t = if length s == 1 then record t { tab = peek s } else t
set_arg dpoint s t = if length s == 1 then record t { decimal = peek s } else t
set_arg _ s t = t

-- `if (p[*pos] == ')') (*pos)++`
abbrev pub close_paren : Bytes → Bytes
close_paren v = if peek v == b')' then next v else v

-- `arg`, where `again` is the loop of `tbl_option`
unfoldable pub arg : Key → (Opts → Bytes → Optioned) → Opts → Bytes → Optioned
unfolding skip_blank until_paren set_arg
arg key again t v =
    let w = skip_blank v in
    if peek w == b'('
    then elim (until_paren (next w)) [
      | none ↦ option_overread
      | some (s, x) ↦ again (set_arg key s t) (close_paren x)
    ]
    else again (set_arg key [] t) (close_paren w)

-- "Handle the option."
unfoldable pub handle : Option Key → (Opts → Bytes → Optioned) → Opts → Bytes → Optioned
unfolding arg
handle none again t v = again t v
handle (some (bits b)) again t v = again (record t { opts = bit_or t.opts b }) v
handle (some key) again t v = arg key again t v

abbrev pub is_separator : ℕ → Bool
is_separator c = is_blank c || c == b','

unfoldable pub skip_separators : Bytes → Bytes
skip_separators [] = []
skip_separators (c ∷ v) = let more = skip_separators v in if is_separator c then more else c ∷ v

-- The letters at the beginning, and the line behind them.
unfoldable pub word : Bytes → Bytes × Bytes
word [] = ([], [])
word (c ∷ v) = let (s, w) = word v in if isalpha c then (c ∷ s, w) else ([], c ∷ v)

-- One round of the loop behind the separators.
unfoldable pub option_at : (Opts → Bytes → Optioned) → Opts → Bytes → Optioned
unfolding look_up handle word
option_at again t [] = option_overread
option_at again t (c ∷ v) =
    let (s, w) = word (c ∷ v) in
    if c == b';'
    then optioned t v
    else if length s == 0
    then again t v
    else handle (look_up s keys) again t w

-- `tbl_option`
unfoldable pub tbl_option : ℕ → Opts → Bytes → Optioned
unfolding skip_separators option_at
tbl_option zero t v = option_out_of_fuel
tbl_option (suc fuel) t v = option_at (λ u w. tbl_option fuel u w) t (skip_separators v)

-- The loop of `tbl_read`: whether it finds a semicolon, where `active` says that it looks for one.
unfoldable pub semicolon : Bool → Bytes → Bool
semicolon active [] = false
semicolon active (c ∷ v) =
    if c == b'('
    then semicolon false v
    else if c == b')'
    then semicolon true v
    else if c == b';' && active
    then true
    else semicolon active v
