-- ===== src/Roff/Name.antt =====
-- The name of a request, macro or string, `roff_getname` of roff.c. The name is moved to the left in place:
-- it is what has been read so far, and what follows in the line is not changed by that.
pub mod Room
use mandoc_mirror.Prelude.{
  ℕ, zero, suc, Bool, true, false, List, [], ◌∷◌, ◌++◌, ◌==◌, not, ◌||◌, if◌then◌else◌, Bytes, peek,
  length, drop,
}
use mandoc_mirror.Escape.Syntax.{Escape, escaped, overread, out_of_fuel, at, is_undef}
use mandoc_mirror.Escape.Parse.{escape}

-- The name with the line behind it, or a read behind the line
pub data Named : Type 0 where
  named : Bytes → Bytes → Named
  name_overread : Named
  name_out_of_fuel : Named

-- At an escape sequence at the beginning of `v`, where `again` is the loop
unfoldable pub name_escape : (Bytes → Bytes → Named) → Bytes → Bytes → Escape → Named
name_escape again out v (escaped f) =
    let more = again (out ++ at v f.inam ∷ []) (drop f.iend v) in
    if is_undef f.rval then more else named out (drop f.iend v)
name_escape again out v overread = name_overread
name_escape again out v out_of_fuel = name_out_of_fuel

-- The loop, with the name so far
unfoldable pub name_loop : ℕ → Bytes → Bytes → Named
unfolding name_escape
name_loop zero out v = name_out_of_fuel
name_loop (suc fuel) out [] = named out []
name_loop (suc fuel) out (c ∷ v) =
    let plain = name_loop fuel (out ++ c ∷ []) v in
    let special =
      name_escape (λ o w. name_loop fuel o w) out (c ∷ v)
        (escape (suc (length (c ∷ v))) true (c ∷ v) 0) in
    if c == b' ' || c == 9
    then named out v
    else if not (c == b'\\')
    then plain
    else if peek v == b'{' || peek v == b'}'
    then named out (c ∷ v)
    else special

-- "Read past spaces."
unfoldable pub past_spaces : Bytes → Bytes
past_spaces [] = []
past_spaces (c ∷ v) = let more = past_spaces v in if c == b' ' then more else c ∷ v

abbrev pub past_name : Named → Named
past_name (named out v) = named out (past_spaces v)
past_name name_overread = name_overread
past_name name_out_of_fuel = name_out_of_fuel

-- `roff_getname`, which returns the length of the name
unfoldable pub getname : Bytes → Named
unfolding name_loop past_spaces
getname [] = named [] []
getname (c ∷ v) = past_name (name_loop (suc (length (c ∷ v))) [] (c ∷ v))
