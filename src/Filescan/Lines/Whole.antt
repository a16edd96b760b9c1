-- ===== src/Filescan/Lines/Whole.antt =====
-- ScanFile agrees with the account of its lines.
use tclx.Base.{
  ℕ, zero, suc, ◌<◌, ◌≡◌, refl, ap, ◌∙◌, Bool, true, false, none, some, List, [], ◌∷◌, ◌++◌, Text,
  ==_refl, if◌then◌else◌, length, arith, Bool-cases, inl, inr,
}
use tclx.Filescan.{
  Regexp, Match, Context, Reading, got_line, blocked, failure, World, Code, tcl_ok, tcl_error,
  tcl_return, tcl_break, tcl_continue, tcl_other, ScanApi, ScanData, LineEnd, line_done, scan_ok,
  scan_error, fault, no_fuel, set_match_info,
}
use tclx.Filescan.Scan.{
  copy_line, after_default, run_default, finish_line, scan_line, after_line, scan_next, scan_loop,
  scan_file, set_input,
}
use tclx.Filescan.Lines.{
  Quiet, hits, run_hits, unmatched_line, line_by, lines_by, Kept, copied, default_done, default_set,
  set_match_info-Kept,
}
use tclx.Filescan.Lines.Matches.{matches_loop-run_hits, run_hits-Settled, eval-Kept}

module _ {I : Type 0} (api : ScanApi I) (accepts : Regexp → Text → Bool) (address channel : ℕ)
    (ctx : Context) (quiet : Quiet api accepts address channel) where
  abbrev K : List Reading → World I → Type 0
  K = Kept api accepts address channel ctx

  -- What the end of a line that no match was found for gives.
  abbrev Agrees : List Reading → LineEnd × World I → LineEnd × World I → Type 0
  Agrees rs r r' = (r ≡ r') × K rs r'.1

  copied-K :
      (rs : List Reading) (t : Text) (w : World I)
      → K rs w
      → K rs (copied api accepts address channel ctx t w).1
  copied-K rs t w h =
      elim ctx.copy_file
        as (λ o.
          K rs
            (elim o as (λ _. LineEnd × World I) [
              | none ↦ (line_done false, w)
              | some c ↦
                  if api.can_write c t
                  then (line_done false, record w { written = w.written ++ (c, t) ∷ [] })
                  else (scan_error, w)
            ]).1) [
              | none ↦ h
              | some c ↦ elim (Bool-cases (api.can_write c t)) [ inl e ↦ rw e h | inr e ↦ rw e h ]
            ]

  copy_line-Agrees :
      (rs : List Reading) (t : Text) (w : World I)
      → K rs w
      → Agrees rs (copy_line api address t w) (copied api accepts address channel ctx t w)
  unfolding copy_line
  copy_line-Agrees rs t w h = (rw (copy_line, h.0) refl, copied-K rs t w h)

  after_default-Agrees :
      (rs : List Reading) (t : Text) (r : Code × World I)
      → K rs r.1
      → Agrees rs (after_default api address t r) (default_done api accepts address channel ctx t r)
  unfolding after_default
  after_default-Agrees rs t (tcl_error, w) h = (refl, h)
  after_default-Agrees rs t (tcl_break, w) h = (refl, h)
  after_default-Agrees rs t (tcl_return, w) h = (refl, h)
  after_default-Agrees rs t (tcl_continue, w) h = copy_line-Agrees rs t w h
  after_default-Agrees rs t (tcl_ok, w) h = copy_line-Agrees rs t w h
  after_default-Agrees rs t (tcl_other n, w) h = copy_line-Agrees rs t w h

  run_default-Agrees :
      (rs : List Reading) (t action : Text) (r : Bool × World I)
      → K rs r.1
      → Agrees rs
          (run_default api address t action r)
          (default_set api accepts address channel ctx t action r)
  unfolding run_default
  run_default-Agrees rs t action (false, w) h = (refl, h)
  run_default-Agrees rs t action (true, w) h =
      after_default-Agrees rs t (api.eval action w)
        (eval-Kept api accepts address channel ctx quiet rs action w h)

  finish_line-Agrees :
      (rs : List Reading) (d : ScanData) (w : World I)
      → K rs w
      → Agrees rs
          (finish_line api address channel d (line_done false, w))
          (unmatched_line api accepts address channel ctx d w)
  unfolding finish_line unmatched_line
  finish_line-Agrees rs d w h =
      rw (finish_line, h.0)
        (elim ctx.default_action
          as (λ o.
            Agrees rs
              (elim o as (λ _. LineEnd × World I) [
                | none ↦ copy_line api address d.line w
                | some action ↦
                    run_default api address d.line action (set_match_info api ctx channel none d w)
              ])
              (elim o as (λ _. LineEnd × World I) [
                | none ↦ copied api accepts address channel ctx d.line w
                | some action ↦
                    default_set api accepts address channel ctx d.line action
                      (set_match_info api ctx channel none d w)
              ])) [
                | none ↦ copy_line-Agrees rs d.line w h
                | some action ↦
                    run_default-Agrees rs d.line action (set_match_info api ctx channel none d w)
                      (set_match_info-Kept api accepts address channel ctx rs none d w h)
              ])

  run_hits-Agrees :
      (rs : List Reading) (hs : List Match) (d : ScanData) (w : World I)
      → K rs w
      → Agrees rs
          (finish_line api address channel d
            (run_hits api accepts address channel ctx hs false d w))
          (line_by api accepts address channel ctx hs d w)
  unfolding run_hits line_by
  run_hits-Agrees rs [] d w h = finish_line-Agrees rs d w h
  run_hits-Agrees rs (m ∷ ms) d w h =
      let (kept, settled) =
        run_hits-Settled api accepts address channel ctx quiet rs (m ∷ ms) false d d w
          (inr (λ e. cc)) h in
      (settled, kept)

  scan_line-Agrees :
      (rs : List Reading) (fuel : ℕ) (d : ScanData) (w : World I)
      → length ctx.matches < fuel
      → K rs w
      → Agrees rs
          (scan_line api fuel address channel d w)
          (line_by api accepts address channel ctx (hits accepts ctx.matches d.line) d w)
  unfolding scan_line
  scan_line-Agrees rs fuel d w enough h =
      let (same, kept) = run_hits-Agrees rs (hits accepts ctx.matches d.line) d w h in
      (
        ap (finish_line api address channel d) (
              matches_loop-run_hits api accepts address channel ctx quiet rs fuel 0 false d w enough
                h)
            ∙ same,
        kept,
      )

  next_line_congr :
      (rs : List Reading) (f g : ℕ → World I → LineEnd × World I) (num : ℕ) (r : LineEnd × World I)
      → ((w : World I) → K rs w → f num w ≡ g num w)
      → K rs r.1
      → after_line api f num r ≡ after_line api g num r
  unfolding after_line
  next_line_congr rs f g num (line_done found, w) same h = same w h
  next_line_congr rs f g num (scan_ok, w) same h = refl
  next_line_congr rs f g num (scan_error, w) same h = refl
  next_line_congr rs f g num (fault, w) same h = refl
  next_line_congr rs f g num (no_fuel, w) same h = refl

  scan_loop_open :
      (fuel match_fuel num : ℕ) (w : World I)
      → w.heap address ≡ some ctx
      → ctx.file_open ≡ true
      → scan_loop api (suc fuel) match_fuel address channel num w
        ≡ scan_next api match_fuel address channel num
            (scan_loop api fuel match_fuel address channel)
            (w.input channel)
            w
  unfolding scan_loop
  scan_loop_open fuel match_fuel num w h opened = ground arith

  set_input-K :
      (rs : List Reading) (w : World I)
      → w.heap address ≡ some ctx
      → K rs (set_input api channel rs w)
  set_input-K rs w h = (h, rw (==_refl channel))

  module _ (opened : ctx.file_open ≡ true) (match_fuel : ℕ)
      (enough : length ctx.matches < match_fuel) where
    scan_loop-lines_by :
        (rs : List Reading) (fuel num : ℕ) (w : World I)
        → length rs < fuel
        → K rs w
        → scan_loop api fuel match_fuel address channel num w
          ≡ lines_by api accepts address channel ctx rs num w
    unfolding scan_next lines_by
    scan_loop-lines_by rs zero num w more h = absurd (omega arith)
    scan_loop-lines_by [] (suc fuel) num w more h =
        scan_loop_open fuel match_fuel num w h.0 opened ∙ rw h.1
    scan_loop-lines_by (blocked ∷ rs) (suc fuel) num w more h =
        scan_loop_open fuel match_fuel num w h.0 opened ∙ rw h.1
    scan_loop-lines_by (failure ∷ rs) (suc fuel) num w more h =
        scan_loop_open fuel match_fuel num w h.0 opened ∙ rw h.1
    scan_loop-lines_by (got_line offset t ∷ rs) (suc fuel) num w more h =
        let d : ScanData = record {
          stored_line = false;
          line = t;
          offset = offset;
          line_num = suc num;
        } in
        let w' = set_input api channel rs w in
        let (same, kept) = scan_line-Agrees rs match_fuel d w' enough (set_input-K rs w h.0) in
        let body = line_by api accepts address channel ctx (hits accepts ctx.matches t) d w' in
        scan_loop_open fuel match_fuel num w h.0 opened
        ∙ rw h.1 (
            ap (after_line api (scan_loop api fuel match_fuel address channel) (suc num)) same
            ∙ next_line_congr rs (scan_loop api fuel match_fuel address channel)
                (lines_by api accepts address channel ctx rs) (suc num) body
                (λ w'' h'. scan_loop-lines_by rs fuel (suc num) w'' (omega arith) h') kept)

    -- On a context that the commands leave alone, with patterns that all answer, and on enough
    -- fuel for the lines and the matches, ScanFile gives the error for a context without a
    -- pattern, or else what the lines give in turn: for each the commands of the patterns that
    -- accept it, in their order, or if none does the default action and the copy.
    pub scan_file-lines_by :
        (fuel : ℕ) (w : World I)
        → w.heap address ≡ some ctx
        → length (w.input channel) < fuel
        → scan_file api fuel match_fuel address channel w ≡ elim ctx.matches [
          | [] ↦ (scan_error, w)
          | m ∷ ms ↦ lines_by api accepts address channel ctx (w.input channel) 0 w
        ]
    unfolding scan_file
    scan_file-lines_by fuel w h more =
        rw (scan_file, h)
          (elim ctx.matches
            as (λ ms.
              elim ms as (λ _. LineEnd × World I) [
                | [] ↦ (scan_error, w)
                | m ∷ ms' ↦ scan_loop api fuel match_fuel address channel 0 w
              ]
              ≡ elim ms as (λ _. LineEnd × World I) [
                | [] ↦ (scan_error, w)
                | m ∷ ms' ↦ lines_by api accepts address channel ctx (w.input channel) 0 w
              ]) [
                | [] ↦ refl
                | m ∷ ms ↦ scan_loop-lines_by (w.input channel) fuel 0 w more (h, refl)
              ])
