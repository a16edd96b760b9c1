-- ===== src/Filescan/Scan.antt =====
-- ScanFile of generic/tclXfilescan.c: the loops over the matches and over the lines.
use tclx.Base.{
  ℕ, zero, suc, Bool, true, false, none, some, List, [], ◌∷◌, ◌++◌, Text, ◌==◌, if◌then◌else◌,
  get_elem?,
}
use tclx.Filescan.{
  Reading, got_line, blocked, failure, World, Code, tcl_ok, tcl_error, tcl_return, tcl_break,
  tcl_continue, tcl_other, ScanApi, ScanData, LineEnd, line_done, scan_ok, scan_error, fault,
  no_fuel, Rest, set_match_info, run_match,
}

module _ {I : Type 0} (api : ScanApi I) where
  -- The loop over the matches from the one at `idx`, on fuel. A command may change the context, so
  -- it is read again for every match.
  unfoldable pub matches_loop : ℕ → ℕ → ℕ → ℕ → Bool → Rest api
  unfolding set_match_info run_match
  matches_loop zero address channel idx matched d w = (no_fuel, w)
  matches_loop (suc fuel) address channel idx matched d w = elim (w.heap address) [
    | none ↦ (fault, w)
    | some ctx ↦ elim (get_elem? ctx.matches idx) [
      | none ↦ (line_done matched, w)
      | some m ↦ elim (api.exec m.regexp d.line) [
        | none ↦ (scan_error, w)
        | some found ↦ elim found [
          | false ↦ matches_loop fuel address channel (suc idx) matched d w
          | true ↦
              run_match api m (set_match_info api ctx channel (some m) d w) d
                (matches_loop fuel address channel (suc idx) true)
        ]
      ]
    ]
  ]

  -- The copying of a line that no match was found for.
  unfoldable pub copy_line : ℕ → Text → World I → LineEnd × World I
  copy_line address text w = elim (w.heap address) [
    | none ↦ (fault, w)
    | some ctx ↦ elim ctx.copy_file [
      | none ↦ (line_done false, w)
      | some c ↦
          if api.can_write c text
          then (line_done false, record w { written = w.written ++ (c, text) ∷ [] })
          else (scan_error, w)
    ]
  ]

  unfoldable pub after_default : ℕ → Text → Code × World I → LineEnd × World I
  unfolding copy_line
  after_default address text (tcl_error, w) = (scan_error, w)
  after_default address text (tcl_break, w) = (scan_ok, w)
  after_default address text (tcl_return, w) = (scan_ok, w)
  after_default address text (tcl_continue, w) = copy_line address text w
  after_default address text (tcl_ok, w) = copy_line address text w
  after_default address text (tcl_other n, w) = copy_line address text w

  unfoldable pub run_default : ℕ → Text → Text → Bool × World I → LineEnd × World I
  unfolding after_default
  run_default address text action (false, w) = (scan_error, w)
  run_default address text action (true, w) = after_default address text (api.eval action w)

  -- From matchLineExit to the end of the loop's body. Where a match was found, the line is stored.
  unfoldable pub finish_line : ℕ → ℕ → ScanData → LineEnd × World I → LineEnd × World I
  unfolding set_match_info run_default copy_line
  finish_line address channel d (line_done true, w) = elim (w.heap address) [
    | none ↦ (fault, w)
    | some ctx ↦ (line_done true, w)
  ]
  finish_line address channel d (line_done false, w) = elim (w.heap address) [
    | none ↦ (fault, w)
    | some ctx ↦ elim ctx.default_action [
      | none ↦ copy_line address d.line w
      | some action ↦ run_default address d.line action (set_match_info api ctx channel none d w)
    ]
  ]
  finish_line address channel d (scan_ok, w) = (scan_ok, w)
  finish_line address channel d (scan_error, w) = (scan_error, w)
  finish_line address channel d (fault, w) = (fault, w)
  finish_line address channel d (no_fuel, w) = (no_fuel, w)

  unfoldable pub scan_line : ℕ → ℕ → ℕ → ScanData → World I → LineEnd × World I
  unfolding matches_loop finish_line
  scan_line fuel address channel d w =
      finish_line address channel d (matches_loop fuel address channel 0 false d w)

  abbrev pub set_input : ℕ → List Reading → World I → World I
  set_input channel rs w = record w { input = λ c. if channel == c then rs else w.input c }

  unfoldable pub after_line :
      (ℕ → World I → LineEnd × World I) → ℕ → LineEnd × World I → LineEnd × World I
  after_line again num (line_done matched, w) = again num w
  after_line again num (scan_ok, w) = (scan_ok, w)
  after_line again num (scan_error, w) = (scan_error, w)
  after_line again num (fault, w) = (fault, w)
  after_line again num (no_fuel, w) = (no_fuel, w)

  -- Tcl_Gets and the rest of the body for what it gives.
  unfoldable pub scan_next :
      ℕ → ℕ → ℕ → ℕ → (ℕ → World I → LineEnd × World I) → List Reading → World I → LineEnd × World I
  unfolding scan_line after_line
  scan_next fuel address channel num again [] w = (scan_ok, w)
  scan_next fuel address channel num again (blocked ∷ rs) w = (scan_ok, set_input channel rs w)
  scan_next fuel address channel num again (failure ∷ rs) w = (scan_error, set_input channel rs w)
  scan_next fuel address channel num again (got_line offset text ∷ rs) w =
      let d : ScanData = record {
        stored_line = false;
        line = text;
        offset = offset;
        line_num = suc num;
      } in
      after_line again (suc num) (scan_line fuel address channel d (set_input channel rs w))

  -- The loop over the lines behind line `num`, on `fuel` for the lines and `match_fuel` for the
  -- matches of a line.
  unfoldable pub scan_loop : ℕ → ℕ → ℕ → ℕ → ℕ → World I → LineEnd × World I
  unfolding scan_next
  scan_loop zero match_fuel address channel num w = (no_fuel, w)
  scan_loop (suc fuel) match_fuel address channel num w = elim (w.heap address) [
    | none ↦ (fault, w)
    | some ctx ↦ elim ctx.file_open [
      | false ↦ (scan_ok, w)
      | true ↦
          scan_next match_fuel address channel num (scan_loop fuel match_fuel address channel)
            (w.input channel) w
    ]
  ]

  -- ScanFile; the error for a context without a pattern comes first.
  unfoldable pub scan_file : ℕ → ℕ → ℕ → ℕ → World I → LineEnd × World I
  unfolding scan_loop
  scan_file fuel match_fuel address channel w = elim (w.heap address) [
    | none ↦ (fault, w)
    | some ctx ↦ elim ctx.matches [
      | [] ↦ (scan_error, w)
      | m ∷ ms ↦ scan_loop fuel match_fuel address channel 0 w
    ]
  ]
