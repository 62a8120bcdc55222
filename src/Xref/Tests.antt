-- ===== src/Xref/Tests.antt =====
-- `mandoc_xr_add` at concrete calls.
use mandoc_mirror.Prelude.{◌≡◌, true, some, List, [], ◌∷◌, ◌+◌, codes, str_same}
use mandoc_mirror.Prelude.Int.{pos, negsuc}
use mandoc_mirror.Xref.{Xr, key_of}
use mandoc_mirror.Xref.Counts.{Call, after, count_of, own_of, has, after-counts}

-- A page's own name, and a reference to it.
abbrev calls : List Call
calls =
    record { sec = codes "1"; name = codes "ls"; line = negsuc 0; at = pos 0 }
    ∷ record { sec = codes "1"; name = codes "ls"; line = pos 9; at = pos 4 }
    ∷ []

after-counts_example :
    (new : List Xr) × (after calls (some []) ≡ some new)
    × (count_of (key_of (codes "1") (codes "ls")) new ≡ 0 + 2)
    × (own_of (key_of (codes "1") (codes "ls")) new ≡ true)
    × (has (key_of (codes "1") (codes "ls")) new ≡ true)
unfolding str_same
after-counts_example = after-counts (key_of (codes "1") (codes "ls")) calls []
