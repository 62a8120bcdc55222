-- ===== src/Sentence/Tests.antt =====
-- `mandoc_eos` at concrete texts.
use mandoc_mirror.Prelude.{◌≡◌, refl, true, false, ◌++◌, ◌∷◌, codes}
use mandoc_mirror.Sentence.{scan, eos, is_closer, is_stop}
use mandoc_mirror.Sentence.Parts.{eos-stop}

eos-stop_example : eos (codes "end" ++ (codes "?" ++ (b'.' ∷ codes ")"))) ≡ true
unfolding is_closer is_stop
eos-stop_example = eos-stop (codes "end") (codes "?") (codes ")") b'.' refl refl refl refl

closed_run : eos (codes "one - .)") ≡ false
unfolding eos scan is_closer is_stop
closed_run = refl
