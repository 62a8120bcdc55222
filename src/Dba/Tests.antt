-- ===== src/Dba/Tests.antt =====
-- Runs of the arrays of dba_array.c at concrete inputs.
use mandoc_mirror.Prelude.{
  ℕ, ◌≡◌, refl, ◌+◌, ◌*◌, true, Option, none, some, List, [], ◌∷◌, ◌==◌, arith,
}
use mandoc_mirror.Prelude.Int.{pos}
use mandoc_mirror.Dba.Write.{File, tell, skip, int_write, align}
use mandoc_mirror.Dba.Array.{
  Array, array_new, array_add, array_get, array_start, array_writelen, array_writepos,
  array_writelst, foreach, place, mark,
}
use mandoc_mirror.Dba.Loop.{live, foreach-live}
use mandoc_mirror.Dba.Counts.{Reached, writelen-writepos}

-- Three entries, of which the second is deleted.
abbrev three : Array ℕ
three = record {
  slots = place (some 7) ∷ mark (place (some 8)) ∷ place (some 9) ∷ [];
  grow = true;
  ea = 4;
  ed = 1;
  ec = 1;
  pos = 0;
}

foreach-live_example :
    (b : Array ℕ) × (foreach (λ x. x == 9) 4 (array_start three) ≡ some (7 ∷ 9 ∷ [], b))
    × (live b.slots ≡ 7 ∷ [])
foreach-live_example = foreach-live (λ x. x == 9) 4 three refl (omega arith)

abbrev one : Array ℕ
one = record { slots = place (some 5) ∷ []; grow = true; ea = 1; ed = 0; ec = 0; pos = 0 }

abbrev empty_array : Array ℕ
empty_array = record { slots = []; grow = true; ea = 1; ed = 0; ec = 0; pos = 0 }

made_empty : array_new 1 true ≡ some empty_array
unfolding array_new
made_empty = refl

made_one : array_add empty_array (some 5) ≡ some one
unfolding array_add
made_one = refl

abbrev empty_file : File
empty_file = record { bytes = []; at = 0 }

tell_empty : tell empty_file ≡ some 0
unfolding tell
tell_empty = refl

writelen-writepos_example :
    (array_writelen 5 one empty_file ≡ skip 5 1 (int_write (pos 1) empty_file))
    × ((b : Array ℕ) × (g : File) × (array_writepos one empty_file ≡ some (b, g))
        × (b.pos ≡ 0)
        × (g.at ≡ 0 + 4 * 1))
writelen-writepos_example =
    writelen-writepos one 5 0 empty_file
      (Reached.add empty_array one (some 5) (Reached.new 1 true empty_array made_empty) made_one)
      tell_empty

abbrev some_strings : Array (List ℕ)
some_strings = record {
  slots = place (some (97 ∷ [])) ∷ place (some (98 ∷ 99 ∷ [])) ∷ [];
  grow = true;
  ea = 2;
  ed = 0;
  ec = 0;
  pos = 0;
}

abbrev written : Option (Array (List ℕ) × File) → List ℕ
written none = []
written (some (a, f)) = f.bytes

write_strings_run :
    written (array_writelst 3 some_strings empty_file) ≡ 97 ∷ 0 ∷ 98 ∷ 99 ∷ 0 ∷ 0 ∷ []
unfolding array_writelst
write_strings_run = refl

get_run : array_get three (pos 1) ≡ none
unfolding array_get
get_run = refl

align_run :
    align (record { bytes = 1 ∷ []; at = 1 })
    ≡ some (4, record { bytes = 1 ∷ 0 ∷ 0 ∷ 0 ∷ []; at = 4 })
unfolding align
align_run = refl
