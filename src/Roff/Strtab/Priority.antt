-- ===== src/Roff/Strtab/Priority.antt =====
-- Which definition of a name `roff_getstrn` finds.
use mandoc_mirror.Prelude.{
  ◌≡◌, ◌∙◌, Bool, true, false, not, ◌&&◌, ◌||◌, Option, none, some, List, [], ◌∷◌, ◌++◌,
  if◌then◌else◌, Bytes, arith, str_same_refl,
}
use mandoc_mirror.Roff.Strtab.{
  Strings, Def, user, ren, pre, std, undef, nothing, Wanted, is_any, Tables, Macroset, Found,
  is_none, is_standard, setstrn, find_val, getstrn_end, getstrn, new_value,
}
use mandoc_mirror.Roff.Strtab.Lookup.{UniqueNames, find_val-setstrn}

abbrev pub wants : Wanted → Def → Bool
wants w user = w.user
wants w ren = w.ren
wants w pre = w.pre
wants w std = w.std
wants w undef = false
wants w nothing = false

any_needs_ren : (w : Wanted) → w.ren ≡ false → is_any w ≡ false
any_needs_ren w h = ground arith

abbrev with_text : Def → Option Bytes → List (Def × Option Bytes)
with_text k none = []
with_text k (some s) = (k, some s) ∷ []

abbrev candidates_of : Option Bytes → Option Bytes → Option Bytes → Bool → List (Def × Option Bytes)
candidates_of u n p s =
    with_text user u
    ++ (with_text ren n ++ (with_text pre p ++ (if s then (std, none) ∷ [] else [])))

-- The first definition of a wanted kind.
abbrev pub first_wanted : Wanted → List (Def × Option Bytes) → Option (Def × Option Bytes)
first_wanted w [] = none
first_wanted w ((k, s) ∷ rest) = if wants w k then some (k, s) else first_wanted w rest

abbrev pub no_candidates : List (Def × Option Bytes) → Bool
no_candidates [] = true
no_candidates (c ∷ cs) = false

module _ (tables : Tables) (set : Macroset) where
  -- All definitions of a name, in the order user-defined, renamed, predefined, standard macro.
  abbrev pub candidates : Bytes → Strings → List (Def × Option Bytes)
  candidates name r =
      candidates_of (find_val name r.strtab) (find_val name r.rentab) (tables.predefined name)
        (is_standard tables set name)

  -- What is expected of `roff_getstrn`.
  abbrev pub expected :
      Bytes → Wanted → Strings → List (Def × Option Bytes) → Option (Def × Option Bytes) → Found
  expected name w r cs (some (k, s)) = (k, s, r)
  expected name w r cs none =
      if not (no_candidates cs) || is_any w
      then (nothing, none, r)
      else if w.ren
      then (undef, none, r)
      else (
        nothing,
        none,
        record {
          strtab = setstrn name (some []) 0 r.strtab;
          rentab = setstrn name none 0 r.rentab;
        },
      )

  select :
      (name : Bytes) (w : Wanted) (r : Strings) (u n p : Option Bytes) (s : Bool)
      → (if not (is_none u) && w.user
          then (user, u, r)
          else if not (is_none n) && w.ren
          then (ren, n, r)
          else if not (is_none p) && w.pre
          then (pre, p, r)
          else if s && w.std
          then (std, none, r)
          else getstrn_end tables set name w
              (not (is_none u) || not (is_none n) || not (is_none p) || s)
              r)
        ≡ expected name w r (candidates_of u n p s) (first_wanted w (candidates_of u n p s))
  unfolding getstrn_end
  select name w r none none none false = ground arith
  select name w r (some a) (some b) (some c) true = ground arith
  select name w r _ _ _ _ = ground arith

  -- `roff_getstrn` finds the first definition of a wanted kind, in the order user-defined, renamed,
  -- predefined, standard, and then changes nothing. If there is none, it reports nothing, or an
  -- undefined name where renamed ones are wanted and the name has no definition at all; only a name
  -- without any definition, where renamed ones are not wanted, is made a string with an empty text.
  pub getstrn-candidates :
      (name : Bytes) (w : Wanted) (r : Strings)
      → getstrn tables set name w r
        ≡ expected name w r (candidates name r) (first_wanted w (candidates name r))
  unfolding getstrn
  getstrn-candidates name w r =
      select name w r (find_val name r.strtab) (find_val name r.rentab) (tables.predefined name)
        (is_standard tables set name)

  defined_empty :
      (name : Bytes) (w : Wanted) (r : Strings) (cs : List (Def × Option Bytes))
      → UniqueNames r.strtab
      → no_candidates cs ≡ true
      → w.ren ≡ false
      → find_val name (expected name w r cs (first_wanted w cs)).2.strtab ≡ some []
  unfolding new_value
  defined_empty name w r [] u h b =
      rw (any_needs_ren w b, b)
        ((find_val-setstrn name name (some []) 0 r.strtab u).0 ∙ rw (str_same_refl name))
  defined_empty name w r (c ∷ cs) u h b = cc

  -- A name without any definition, that is asked for where renamed ones are not wanted, has the
  -- empty text from then on, where the names of the table are unique.
  pub getstrn_defines :
      (name : Bytes) (w : Wanted) (r : Strings)
      → UniqueNames r.strtab
      → no_candidates (candidates name r) ≡ true
      → w.ren ≡ false
      → find_val name (getstrn tables set name w r).2.strtab ≡ some []
  getstrn_defines name w r u h b =
      rw (getstrn-candidates name w r) (defined_empty name w r (candidates name r) u h b)
