-- ===== src/Sentence.antt =====
-- The end of a sentence: `mandoc_eos` of mandoc.c, on the text of the given size.
pub mod Parts
mod Tests
use mandoc_mirror.Prelude.{
  ℕ, Bool, true, false, not, ◌&&◌, ◌||◌, [], ◌∷◌, ◌==◌, if◌then◌else◌, Bytes, isalnum,
}
use mathlib.Core.List.{reverse}

-- The first group of the switch: what may close a sentence behind its punctuation.
unfoldable pub is_closer : ℕ → Bool
is_closer c = c == b'"' || c == b'\'' || c == b']' || c == b')'

-- The second group.
unfoldable pub is_stop : ℕ → Bool
is_stop c = c == b'.' || c == b'!' || c == b'?'

-- The loop, over the bytes from the last one to the first.
unfoldable pub scan : Bool → Bool → Bytes → Bool
scan enclosed found [] = found && not enclosed
scan enclosed found (c ∷ q) = elim (is_closer c) [
  | true ↦ scan (if found then enclosed else true) found q
  | false ↦ elim (is_stop c) [
    | true ↦ scan enclosed true q
    | false ↦ found && (not enclosed || isalnum c)
  ]
]

-- `mandoc_eos`
unfoldable pub eos : Bytes → Bool
unfolding scan
eos p = scan false false (reverse p)
