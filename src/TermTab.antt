-- ===== src/TermTab.antt =====
-- term_tab.c: the tab stops of the terminal formatter. The positions are `size_t`, with sums modulo
-- 2 ^ 64. What turns a scaled number into a width (`p->hspan`) is a parameter, and so is `strtod`.
pub mod Next
pub mod Ends
pub mod Set
mod Tests
use mandoc_mirror.Prelude.{
  ℕ, zero, suc, ◌+◌, ◌-◌, ◌%◌, ◌^◌, Bool, true, false, not, ◌&&◌, Option, none, some, List, [], ◌∷◌,
  ◌++◌, map, ltb, leb, ◌==◌, if◌then◌else◌, Bytes, codes, str_same, peek, next, length, get_or,
}
use mandoc_mirror.Roffsu.{Scale, inch, em, Strtod, a2roffsu}

-- `struct tablist`: the used positions, and the number `s` of allocated ones.
pub record Tablist : Type 0 where
  pub t : List ℕ
  pub s : ℕ

-- `tabs.r`: nothing yet, the list of all positions, or the periodic ones.
pub data Recorded : Type 0 where
  nowhere in_all in_periodic : Recorded

pub record Tabs : Type 0 where
  pub a : Tablist
  pub p : Tablist
  pub r : Recorded
  pub d : ℕ

abbrev pub add_size : ℕ → ℕ → ℕ
add_size x y = (x + y) % 2 ^ 64

-- The last used position, which `n > 0` guards in the code; 0 where there is none.
unfoldable pub last_or_zero : List ℕ → ℕ
last_or_zero [] = 0
last_or_zero (x ∷ []) = x
last_or_zero (x ∷ y ∷ ys) = last_or_zero (y ∷ ys)

-- Append one position, 8 at a time being allocated; `add` is the sign `+`.
unfoldable pub record_tab : Bool → ℕ → Tablist → Tablist
unfolding last_or_zero
record_tab add pos l = record {
  t = l.t ++ ((if add && not (length l.t == 0) then add_size pos (last_or_zero l.t) else pos) ∷ []);
  s = if leb l.s (length l.t) then l.s + 8 else l.s;
}

-- Append to the list that is being recorded; `none` is the use of a null pointer.
unfoldable pub record_in : Recorded → Bool → ℕ → Tabs → Option Tabs
record_in nowhere add pos tabs = none
record_in in_all add pos tabs = some (record tabs { a = record_tab add pos tabs.a })
record_in in_periodic add pos tabs = some (record tabs { p = record_tab add pos tabs.p })

module _ {Double : Type 0} (lib : Strtod Double) (hspan : Scale × Double → ℕ) where
  -- `term_tab_set`; the argument `none` is NULL.
  unfoldable pub tab_set : Option Bytes → Tabs → Option Tabs
  unfolding record_in
  tab_set none tabs = some (record {
    a = record { t = []; s = tabs.a.s };
    p = record { t = []; s = tabs.p.s };
    r = in_all;
    d = if tabs.d == 0 then hspan (a2roffsu lib (codes ".8i") inch).0 else tabs.d;
  })
  tab_set (some arg) tabs =
      if str_same arg (codes "T")
      then some (record tabs { r = in_periodic })
      else let add = peek arg == b'+' in
        let (su, end) = a2roffsu lib (if add then next arg else arg) em in
        elim end [ none ↦ some tabs | some rest ↦ record_in tabs.r add (hspan su) tabs ]

-- The periodic positions, put behind the last position `base`.
unfoldable pub period : ℕ → List ℕ → List ℕ
period base p = map (λ x. add_size x base) p

-- `tabs.a` with one more period
unfoldable pub extend : Tablist → List ℕ → Tablist
unfolding last_or_zero period
extend a p =
    let n = length a.t + length p in
    record { t = a.t ++ period (last_or_zero a.t) p; s = if ltb a.s n then n else a.s }

-- The loop of `term_tab_next` at the index `i`: the result and `tabs.a`. `none` means that the fuel
-- ran out.
unfoldable pub next_from : ℕ → ℕ → ℕ → Tablist → List ℕ → Option (ℕ × Tablist)
next_from zero prev i a p = none
next_from (suc fuel) prev i a p =
    let a' = if i == length a.t then extend a p else a in
    let found = get_or a'.t i 0 in
    let more = next_from fuel prev (i + 1) a' p in
    if i == length a.t && length p == 0
    then some (prev, a)
    else if ltb prev found
    then some (found, a')
    else more

unfoldable pub tab_next : ℕ → ℕ → Tabs → Option (ℕ × Tabs)
tab_next fuel prev tabs = elim (next_from fuel prev 0 tabs.a tabs.p.t) [
  | none ↦ none
  | some (x, a) ↦ some (x, record tabs { a = a })
]

-- `term_tab_free`
abbrev pub tab_free : Tabs
tab_free = record { a = record { t = []; s = 0 }; p = record { t = []; s = 0 }; r = in_all; d = 0 }
