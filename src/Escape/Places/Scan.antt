-- ===== src/Escape/Places/Scan.antt =====
-- The places in the loop over an argument: roff_escape.c.
use mandoc_mirror.Prelude.{
  ℕ, zero, suc, ◌+◌, ◌<◌, Bool, not, ◌&&◌, ◌||◌, arith, ltb, ◌==◌, if_both, Bytes, isdigit, length,
}
use mandoc_mirror.Escape.Syntax.{at, Escape, Pos, is_expand}
use mandoc_mirror.Escape.Scan.{
  Scanned, is_zero_limit, incomplete, scan_nested, scan_byte, scan_round, scan_argument,
}
use mandoc_mirror.Escape.Places.{
  Done, ScanFits, EscapeFits, at-pos, SubFits, scanned_fits, nested_fits, escaped_fits,
}

module _ (buf : Bytes) (m : ℕ) where
  -- The loop.
  incomplete-Done :
      (nam : ℕ) (p : Pos) → Done (length buf) m p → Done (length buf) m (incomplete nam p)
  unfolding incomplete
  incomplete-Done nam p r = ground arith

  module _ (esc : ℕ) (sub : ℕ → Escape) (subs : SubFits buf esc m sub) where
    abbrev Again : ℕ → (Bool → Pos → Scanned) → Type 0
    Again k again =
        (v : Bool) (q : Pos)
        → Done (length buf) m q
        → length buf < q.iendarg + k
        → ScanFits buf m (again v q)

    scan_nested-Fits :
        (k nam : ℕ) (escterm : Bool) (again : Bool → Pos → Scanned) (v : Bool) (p : Pos)
        (x : Escape)
        → Again k again
        → Done (length buf) m p
        → length buf < p.iendarg + suc k
        → EscapeFits buf p.iendarg x
        → ScanFits buf m (scan_nested buf nam escterm again v p x)
    unfolding scan_nested
    scan_nested-Fits k nam escterm again v p _ ag r lt (escaped_fits f g pl) =
        if_both (ScanFits buf m) (is_expand f.rval) (λ e. nested_fits f (omega arith) pl)
          λ e.
            if_both (ScanFits buf m) (escterm && (at buf f.inam == p.term || nam == b'N'))
              (λ j. scanned_fits v _ (omega arith)) λ j. ag _ _ (omega arith) (omega arith)

    scan_byte-Fits :
        (k nam c : ℕ) (again : Bool → Pos → Scanned) (v : Bool) (p : Pos)
        → Again k again
        → Done (length buf) m p
        → length buf < p.iendarg + suc k
        → p.iendarg < length buf
        → ScanFits buf m (scan_byte nam c again v p)
    unfolding scan_byte
    scan_byte-Fits k nam c again v p ag r lt h =
        if_both (ScanFits buf m) (nam == b'N' && not (isdigit c))
          (λ j. scanned_fits v _ (omega arith)) λ j. ag _ _ (omega arith) (omega arith)

    scan_round-Fits :
        (k nam : ℕ) (escterm : Bool) (again : Bool → Pos → Scanned) (v : Bool) (p : Pos)
        → Again k again
        → Done (length buf) m p
        → length buf < p.iendarg + suc k
        → ScanFits buf m (scan_round buf esc nam escterm sub again v p)
    unfolding scan_round
    scan_round-Fits k nam escterm again v p ag r lt =
        if_both (ScanFits buf m) (is_zero_limit p.limit) (λ e. scanned_fits v p r)
          λ e.
            if_both (ScanFits buf m) (ltb (length buf) p.iendarg) (λ e. absurd (ground arith))
              λ e.
                if_both (ScanFits buf m) (at buf p.iendarg == 0)
                  (λ e. scanned_fits v _ (incomplete-Done nam p r))
                  λ c.
                    let inside : p.iendarg < length buf = ground (arith, at-pos buf p.iendarg) in
                    if_both (ScanFits buf m) (not escterm && at buf p.iendarg == p.term)
                      (λ e. scanned_fits v _ (omega arith))
                      λ e.
                        if_both (ScanFits buf m) (at buf p.iendarg == esc)
                          (λ e.
                            scan_nested-Fits k nam escterm again v p (sub p.iendarg) ag r lt
                              (subs p.iendarg (omega arith) (ground arith)))
                          λ e. scan_byte-Fits k nam (at buf p.iendarg) again v p ag r lt inside

    pub scan_argument-Fits :
        (k nam : ℕ) (escterm : Bool) (v : Bool) (p : Pos)
        → Done (length buf) m p
        → length buf < p.iendarg + k
        → ScanFits buf m (scan_argument k buf esc nam escterm sub v p)
    unfolding scan_argument
    scan_argument-Fits zero nam escterm v p r lt = absurd (omega arith)
    scan_argument-Fits (suc k) nam escterm v p r lt =
        scan_round-Fits k nam escterm _ v p (λ w q. scan_argument-Fits k nam escterm w q) r lt
