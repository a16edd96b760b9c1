-- ===== src/Filescan/Lines/Copies.antt =====
-- The lines that ScanFile copies.
use tclx.Base.{
  ℕ, suc, ◌<◌, ◌≡◌, ◌≢◌, refl, ap, sym, ◌∙◌, subst, Bool, true, false, ◌||◌, Option, none, some,
  List, [], ◌∷◌, ◌++◌, Text, if◌then◌else◌, length, Bool-cases, inl, inr,
}
use mathlib.Core.List.{append-nil, append_assoc}
use tclx.Filescan.{
  Regexp, Match, Context, Reading, got_line, World, Code, tcl_ok, tcl_error, tcl_return, tcl_break,
  tcl_continue, tcl_other, ScanApi, ScanData, LineEnd, line_done, scan_ok, scan_error, fault,
  no_fuel, Rest, set_match_info, run_match, after_match, set_infos, Key, MatchValue, line_infos,
  copy_infos, match_infos,
}
use tclx.Filescan.Scan.{after_line, scan_file, set_input}
use tclx.Filescan.Lines.{
  Quiet, hits, run_hits, unmatched_line, line_by, lines_by, copied, default_done, default_set,
}
use tclx.Filescan.Lines.Whole.{scan_file-lines_by}

abbrev pub goes_on : Code → Bool
goes_on tcl_ok = true
goes_on tcl_continue = true
goes_on (tcl_other n) = true
goes_on tcl_error = false
goes_on tcl_return = false
goes_on tcl_break = false

-- The assumptions: no command fails or ends the scan or writes to a channel, and every element of
-- matchInfo can be set and every line be written.
pub record Smooth {I : Type 0} (api : ScanApi I) : Type 0 where
  pub continues : (c : Text) (w : World I) → goes_on (api.eval c w).0 ≡ true
  pub keeps_written : (c : Text) (w : World I) → (api.eval c w).1.written ≡ w.written
  pub settable : (k : Key) → api.can_set k ≡ true
  pub writable : (c : ℕ) (t : Text) → api.can_write c t ≡ true

abbrev pub accepted : (Regexp → Text → Bool) → List Match → Text → Bool
accepted accepts [] t = false
accepted accepts (m ∷ ms) t = accepts m.regexp t || accepted accepts ms t

-- What is read: lines only.
abbrev pub readings : List (ℕ × Text) → List Reading
readings [] = []
readings ((offset, t) ∷ ts) = got_line offset t ∷ readings ts

-- The lines that no pattern accepts, each with the channel that it goes to.
abbrev pub rejected : (Regexp → Text → Bool) → List Match → ℕ → List (ℕ × Text) → List (ℕ × Text)
rejected accepts ms c [] = []
rejected accepts ms c ((offset, t) ∷ ts) =
    if accepted accepts ms t then rejected accepts ms c ts else (c, t) ∷ rejected accepts ms c ts

not_empty :
    {R : Type 0} (ms : List Match)
    → ms ≢ []
    → (a b : R) → (elim ms as (λ _. R) [ [] ↦ a | m ∷ ms' ↦ b ]) ≡ b
not_empty [] ne a b = absurd (ne refl)
not_empty (m ∷ ms) ne a b = refl

module _ {I : Type 0} (api : ScanApi I) (smooth : Smooth api) where
  set_infos-true :
      (kvs : List (Key × MatchValue)) (w : World I)
      → ((set_infos api kvs w).0 ≡ true) × ((set_infos api kvs w).1.written ≡ w.written)
  unfolding set_infos
  set_infos-true [] w = (refl, refl)
  set_infos-true ((k, v) ∷ kvs) w =
      rw (smooth.settable k) (set_infos-true kvs (record w { match_info = (k, v) ∷ w.match_info }))

  set_match_info-true :
      (ctx : Context) (channel : ℕ) (m : Option Match) (d : ScanData) (w : World I)
      → ((set_match_info api ctx channel m d w).0 ≡ true)
        × ((set_match_info api ctx channel m d w).1.written ≡ w.written)
  unfolding set_match_info
  set_match_info-true ctx channel m d w =
      let more = copy_infos api ctx.copy_file ++ match_infos api m d in
      let all = line_infos api ctx channel d ++ more in
      let fresh = record w { match_info = [] } in
      elim d.stored_line
        as (λ b.
          ((if b then set_infos api more w else set_infos api all fresh).0 ≡ true)
          × ((if b then set_infos api more w else set_infos api all fresh).1.written ≡ w.written)) [
            | true ↦ set_infos-true more w
            | false ↦ set_infos-true all fresh
          ]

  -- The line ends by the next one, with this written.
  abbrev Done : List (ℕ × Text) → LineEnd × World I → Type 0
  Done out r = (b : Bool) × (r.0 ≡ line_done b) × (r.1.written ≡ out)

  after_match-Done :
      (out : List (ℕ × Text)) (r : Code × World I) (d : ScanData) (next : Rest api)
      → goes_on r.0 ≡ true
      → r.1.written ≡ out
      → ((w : World I) → w.written ≡ out → Done out (next d w))
      → Done out (after_match api r d next)
  unfolding after_match
  after_match-Done out (tcl_ok, w) d next g h all = all w h
  after_match-Done out (tcl_other n, w) d next g h all = all w h
  after_match-Done out (tcl_continue, w) d next g h all = (true, refl, h)
  after_match-Done out (tcl_error, w) d next g h all = cc
  after_match-Done out (tcl_return, w) d next g h all = cc
  after_match-Done out (tcl_break, w) d next g h all = cc

  run_match-Done :
      (out : List (ℕ × Text)) (m : Match) (r : Bool × World I) (d : ScanData) (next : Rest api)
      → r.0 ≡ true
      → r.1.written ≡ out
      → ((w : World I) → w.written ≡ out → Done out (next (record d { stored_line = true }) w))
      → Done out (run_match api m r d next)
  unfolding run_match
  run_match-Done out m (false, w) d next s h all = cc
  run_match-Done out m (true, w) d next s h all =
      after_match-Done out (api.eval m.command w) (record d { stored_line = true }) next
        (smooth.continues m.command w) (smooth.keeps_written m.command w ∙ h) all

  module _ (accepts : Regexp → Text → Bool) (address channel : ℕ) (ctx : Context) where
    run_hits-Done :
        (out : List (ℕ × Text)) (ms : List Match) (found : Bool) (d : ScanData) (w : World I)
        → w.written ≡ out
        → Done out (run_hits api accepts address channel ctx ms found d w)
    unfolding run_hits
    run_hits-Done out [] found d w h = (found, refl, h)
    run_hits-Done out (m ∷ ms) found d w h =
        let (set, kept) = set_match_info-true ctx channel (some m) d w in
        run_match-Done out m (set_match_info api ctx channel (some m) d w) d
          (run_hits api accepts address channel ctx ms true) set (kept ∙ h)
          (λ w' h'. run_hits-Done out ms true (record d { stored_line = true }) w' h')

    module _ (c : ℕ) (copies : ctx.copy_file ≡ some c) where
      copied-Done :
          (out : List (ℕ × Text)) (t : Text) (w : World I)
          → w.written ≡ out
          → Done (out ++ (c, t) ∷ []) (copied api accepts address channel ctx t w)
      copied-Done out t w h =
          elim ctx.copy_file
              as (λ o.
                o ≡ some c
                → Done (out ++ (c, t) ∷ []) (elim o as (λ _. LineEnd × World I) [
                  | none ↦ (line_done false, w)
                  | some c' ↦
                      if api.can_write c' t
                      then (line_done false, record w { written = w.written ++ (c', t) ∷ [] })
                      else (scan_error, w)
                ])) [
                  | none ↦ λ e. cc
                  | some c' ↦ λ e.
                      rw (smooth.writable c' t) (false, refl, (let s : c' ≡ c = cc in rw (h, s)))
                ]
            copies

      default_done-Done :
          (out : List (ℕ × Text)) (t : Text) (r : Code × World I)
          → goes_on r.0 ≡ true
          → r.1.written ≡ out
          → Done (out ++ (c, t) ∷ []) (default_done api accepts address channel ctx t r)
      default_done-Done out t (tcl_ok, w) g h = copied-Done out t w h
      default_done-Done out t (tcl_other n, w) g h = copied-Done out t w h
      default_done-Done out t (tcl_continue, w) g h = copied-Done out t w h
      default_done-Done out t (tcl_error, w) g h = cc
      default_done-Done out t (tcl_return, w) g h = cc
      default_done-Done out t (tcl_break, w) g h = cc

      default_set-Done :
          (out : List (ℕ × Text)) (t action : Text) (r : Bool × World I)
          → r.0 ≡ true
          → r.1.written ≡ out
          → Done (out ++ (c, t) ∷ []) (default_set api accepts address channel ctx t action r)
      default_set-Done out t action (false, w) s h = cc
      default_set-Done out t action (true, w) s h =
          default_done-Done out t (api.eval action w) (smooth.continues action w)
            (smooth.keeps_written action w ∙ h)

      unmatched_line-Done :
          (out : List (ℕ × Text)) (d : ScanData) (w : World I)
          → w.written ≡ out
          → Done (out ++ (c, d.line) ∷ []) (unmatched_line api accepts address channel ctx d w)
      unfolding unmatched_line
      unmatched_line-Done out d w h =
          elim ctx.default_action
            as (λ o. Done (out ++ (c, d.line) ∷ []) (elim o as (λ _. LineEnd × World I) [
              | none ↦ copied api accepts address channel ctx d.line w
              | some action ↦
                  default_set api accepts address channel ctx d.line action
                    (set_match_info api ctx channel none d w)
            ])) [
              | none ↦ copied-Done out d.line w h
              | some action ↦
                  let (set, kept) = set_match_info-true ctx channel none d w in
                  default_set-Done out d.line action (set_match_info api ctx channel none d w) set
                    (kept ∙ h)
            ]

      after_line-Done :
          (out out' : List (ℕ × Text)) (again : ℕ → World I → LineEnd × World I) (num : ℕ)
          (r : LineEnd × World I)
          → Done out r
          → ((w : World I)
              → w.written ≡ out
              → ((again num w).0 ≡ scan_ok) × ((again num w).1.written ≡ out'))
          → ((after_line api again num r).0 ≡ scan_ok)
            × ((after_line api again num r).1.written ≡ out')
      unfolding after_line
      after_line-Done out out' again num (line_done found, w) (b, e, h) all = all w h
      after_line-Done out out' again num (scan_ok, w) (b, e, h) all = cc
      after_line-Done out out' again num (scan_error, w) (b, e, h) all = cc
      after_line-Done out out' again num (fault, w) (b, e, h) all = cc
      after_line-Done out out' again num (no_fuel, w) (b, e, h) all = cc

      -- The filter of the hits is empty just where no pattern accepts.
      line_by-Done :
          (out : List (ℕ × Text)) (ms : List Match) (d : ScanData) (w : World I)
          → w.written ≡ out
          → Done
              (if accepted accepts ms d.line then out else out ++ (c, d.line) ∷ [])
              (line_by api accepts address channel ctx (hits accepts ms d.line) d w)
      unfolding line_by
      line_by-Done out [] d w h = unmatched_line-Done out d w h
      line_by-Done out (m ∷ ms) d w h = elim (Bool-cases (accepts m.regexp d.line)) [
        | inl e ↦ rw e (run_hits-Done out (m ∷ hits accepts ms d.line) false d w h)
        | inr e ↦ rw e (line_by-Done out ms d w h)
      ]

      lines_by-written :
          (ts : List (ℕ × Text)) (num : ℕ) (w : World I) (out : List (ℕ × Text))
          → w.written ≡ out
          → ((lines_by api accepts address channel ctx (readings ts) num w).0 ≡ scan_ok)
            × ((lines_by api accepts address channel ctx (readings ts) num w).1.written
                ≡ out ++ rejected accepts ctx.matches c ts)
      unfolding lines_by
      lines_by-written [] num w out h = (refl, h ∙ sym (append-nil out))
      lines_by-written ((offset, t) ∷ ts) num w out h =
          let d : ScanData = record {
            stored_line = false;
            line = t;
            offset = offset;
            line_num = suc num;
          } in
          let w' = set_input api channel (readings ts) w in
          let r = line_by api accepts address channel ctx (hits accepts ctx.matches t) d w' in
          let here = line_by-Done out ctx.matches d w' h in
          let again = lines_by api accepts address channel ctx (readings ts) in
          elim (Bool-cases (accepted accepts ctx.matches t)) [
            | inl e ↦ rw e (
                after_line-Done out (out ++ rejected accepts ctx.matches c ts) again (suc num) r
                  (rw e at here) (λ w'' h'. lines_by-written ts (suc num) w'' out h'))
            | inr e ↦
                rw (e, ← append_assoc out ((c, t) ∷ []) (rejected accepts ctx.matches c ts))
                  (after_line-Done (out ++ (c, t) ∷ [])
                    ((out ++ (c, t) ∷ []) ++ rejected accepts ctx.matches c ts) again (suc num) r
                    (rw e at here)
                    (λ w'' h'. lines_by-written ts (suc num) w'' (out ++ (c, t) ∷ []) h'))
          ]

      -- On a file of lines and enough fuel, with patterns that all answer, commands that leave
      -- the scan alone and neither fail nor end it, and elements and writes that do not fail,
      -- ScanFile on a context with a pattern and a copy file succeeds and writes to the copy file
      -- just the lines that no pattern accepts, in their order.
      pub scan_file-rejected :
          (fuel match_fuel : ℕ) (ts : List (ℕ × Text)) (w : World I)
          → Quiet api accepts address channel
          → ctx.file_open ≡ true
          → ctx.matches ≢ []
          → w.heap address ≡ some ctx
          → w.input channel ≡ readings ts
          → length (readings ts) < fuel
          → length ctx.matches < match_fuel
          → ((scan_file api fuel match_fuel address channel w).0 ≡ scan_ok)
            × ((scan_file api fuel match_fuel address channel w).1.written
                ≡ w.written ++ rejected accepts ctx.matches c ts)
      scan_file-rejected fuel match_fuel ts w quiet opened some_match at_address reads enough more =
          let long : length (w.input channel) < fuel = rw reads enough in
          let by_lines = lines_by api accepts address channel ctx in
          let same : scan_file api fuel match_fuel address channel w ≡ by_lines (readings ts) 0 w =
            scan_file-lines_by api accepts address channel ctx quiet opened match_fuel more fuel w
              at_address long
            ∙ not_empty ctx.matches some_match (scan_error, w) (by_lines (w.input channel) 0 w)
            ∙ ap (λ rs. by_lines rs 0 w) reads in
          subst
            (λ r. (r.0 ≡ scan_ok) × (r.1.written ≡ w.written ++ rejected accepts ctx.matches c ts))
            (sym same) (lines_by-written ts 0 w w.written refl)
