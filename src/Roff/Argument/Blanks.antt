-- ===== src/Roff/Argument/Blanks.antt =====
-- Escaped blanks behind a tab, in the model of `roff_getarg`.
use mandoc_mirror.Prelude.{
  ℕ, zero, suc, ◌<◌, ◌≡◌, refl, false, [], ◌∷◌, ◌++◌, arith, ◌==◌, Bytes, codes, peek, length,
}
use mandoc_mirror.Roff.Argument.{
  unquoted, round, do_round, arg_loop, add_byte, getarg, past_blanks, move_byte,
}
use mandoc_mirror.Roff.Argument.Quoting.{add_byte_lem, append_nil}

-- Neither blanks nor backslashes
abbrev pub IsWord : Bytes → Type 0
IsWord [] = Unit {0}
IsWord (c ∷ x) = (c == b'\\' ≡ false) × (c == b' ' ≡ false) × IsWord x

round_word : (c d : ℕ) → c == b'\\' ≡ false → c == b' ' ≡ false → round false c d ≡ move_byte
unfolding round
round_word c d e q = rw (e, q) refl

arg_loop-word :
    (fuel : ℕ) (start out x : Bytes)
    → IsWord x
    → length x < fuel
    → arg_loop fuel start false false out x
      ≡ record { text = out ++ x; newesc = false; quoted = unquoted; rest = [] }
unfolding arg_loop do_round
arg_loop-word zero start out x w l = absurd (omega arith)
arg_loop-word (suc fuel) start out [] w l = rw (append_nil out) refl
arg_loop-word (suc fuel) start out (c ∷ x) w l =
    rw (← add_byte_lem out c x, round_word c (peek x) w.0 w.1)
      (arg_loop-word fuel start (add_byte out c) x w.2 (omega arith))

-- At an escaped tab and an escaped blank in front of a word without blanks and backslashes that ends the
-- line, roff_getarg returns the tab, two backslashes and the word: the blank is lost.
pub getarg-escaped_blank :
    (x : Bytes)
    → IsWord x
    → getarg (codes "\\t\\ " ++ x)
      ≡ record { text = 9 ∷ b'\\' ∷ b'\\' ∷ x; newesc = false; quoted = unquoted; rest = [] }
unfolding getarg arg_loop do_round round past_blanks
getarg-escaped_blank x w =
    rw
      (arg_loop-word (suc (suc (suc (length x)))) (codes "\\t\\ " ++ x) (9 ∷ b'\\' ∷ b'\\' ∷ []) x w
        (omega arith))
      refl
