-- ===== src/Escape/Delimit.antt =====
-- Where an argument begins and how it ends: the second part of `roff_escape` of roff_escape.c.
use mandoc_mirror.Prelude.{
  ℕ, ◌+◌, Bool, true, false, not, ◌&&◌, ◌||◌, Option, none, some, ◌==◌, if◌then◌else◌, Bytes, codes,
  elem,
}
use mandoc_mirror.Font.{expand, error}
use mandoc_mirror.Escape.Syntax.{
  at, in_set, Located, Pos, any_term, is_none_limit, is_expand, is_undef,
}

-- "Mandatory argument is missing."
unfoldable pub is_missing : Bytes → Pos → Bool
is_missing buf p = at buf p.iarg == 0 && (not (p.term == 0) || not (is_none_limit p.limit))

-- Whether another escape sequence stands where the argument begins, and matters there.
unfoldable pub is_nested : Bytes → ℕ → Pos → Bool
is_nested buf iesc p =
    (p.term == any_term || (p.term == 0 && is_none_limit p.limit)) && at buf p.iarg == at buf iesc

-- "Decide how to end the argument.": the jump to `out`, or `escterm` and the variables.
pub data Delimited : Type 0 where
  ended : Pos → Delimited
  opened : Bool → Pos → Delimited

-- `if (term == '\b') term = buf[iarg++];`
unfoldable pub take_term : Bytes → Bool → Pos → Delimited
take_term buf escterm p =
    if p.term == any_term
    then opened escterm (record p { term = at buf p.iarg; iarg = p.iarg + 1 })
    else opened escterm p

-- The delimiter is the byte at `iarg`.
unfoldable pub delimit_byte : Bytes → ℕ → Pos → Delimited
unfolding take_term
delimit_byte buf nam p =
    let q = record p { rval = if is_expand p.rval then expand else error } in
    if elem nam (codes "BDHLRSvxNhl") && in_set (at buf p.iarg) (codes " %&()*+-./0123456789:<=>")
    then (if nam == b'D'
        then take_term buf false q
        else ended (record q { iendarg = p.iarg + 1; iend = p.iarg + 1 }))
    else take_term buf false p

-- The delimiter is the escape sequence `f`.
unfoldable pub delimit_escape : Bytes → ℕ → Pos → Located → Delimited
unfolding take_term
delimit_escape buf nam p f =
    if elem nam (codes "BHLRSNhlvx") && in_set (at buf f.inam) (codes " ,.0DLOXYZ^abdhlortuvx|~")
    then ended (record p { iend = f.iend; iarg = f.iesc; iendarg = f.iesc })
    else take_term buf true (record p { iarg = f.iend; term = at buf f.inam })

unfoldable pub delimit_quoted : Bytes → ℕ → Pos → Option Located → Delimited
unfolding delimit_byte delimit_escape
delimit_quoted buf nam p none = delimit_byte buf nam p
delimit_quoted buf nam p (some f) =
    if is_undef f.rval
    then delimit_byte buf nam (record p { iarg = p.iarg + 1 })
    else delimit_escape buf nam p f

-- The standard argument that begins at `i`.
unfoldable pub delimit_standard : Bytes → ℕ → Pos → Delimited
delimit_standard buf i p =
    if at buf i == b'('
    then opened false (record p { limit = some 2; iarg = i + 1 })
    else if at buf i == b'['
    then (if at buf (i + 1) == b' '
        then ended (record p { rval = error; iarg = i + 1; iendarg = i + 2; iend = i + 2 })
        else opened false (record p { term = b']'; iarg = i + 1 }))
    else opened false (record p { limit = some 1; iarg = i })

unfoldable pub delimit : Bytes → ℕ → Pos → Option Located → Delimited
unfolding delimit_quoted delimit_standard
delimit buf nam p sub =
    let c = at buf p.iarg in
    if p.term == any_term
    then delimit_quoted buf nam p sub
    else if p.term == 0 && is_none_limit p.limit
    then delimit_standard buf
        (if nam == b'n' && (c == b'+' || c == b'-') then p.iarg + 1 else p.iarg) p
    else opened false p
