-- ===== src/Filescan/Lines.antt =====
-- What ScanFile does where no command changes the context or the input of the scan: an account of
-- its own that runs down the lines, with the matches of each line filtered first.
pub mod Matches
pub mod Whole
pub mod Copies
use tclx.Base.{
  ℕ, zero, suc, ◌+◌, ◌-◌, ◌<◌, ◌≡◌, refl, ap, ◌∙◌, Bool, true, false, Option, none, some, List, [],
  ◌∷◌, ◌++◌, Text, ◌==◌, ==_refl, if◌then◌else◌, get_elem?, length, drop, arith, Bool-cases, inl,
  inr, ◌⊎◌,
}
use tclx.Filescan.{
  Regexp, Match, Context, Reading, got_line, blocked, failure, World, Code, tcl_ok, tcl_error,
  tcl_return, tcl_break, tcl_continue, tcl_other, ScanApi, ScanData, LineEnd, line_done, scan_ok,
  scan_error, fault, no_fuel, Rest, set_match_info, run_match, after_match, set_infos, Key,
  MatchValue, line_infos, copy_infos, match_infos,
}
use tclx.Filescan.Scan.{
  matches_loop, copy_line, after_default, run_default, finish_line, scan_line, after_line,
  scan_next, scan_loop, scan_file, set_input,
}

-- The assumptions: every pattern answers, and the commands leave the context and the input alone.
pub record Quiet {I : Type 0} (api : ScanApi I) (accepts : Regexp → Text → Bool)
    (address channel : ℕ) : Type 0 where
  pub answers : (r : Regexp) (t : Text) → api.exec r t ≡ some (accepts r t)
  pub keeps_heap : (c : Text) (w : World I) → (api.eval c w).1.heap address ≡ w.heap address
  pub keeps_input : (c : Text) (w : World I) → (api.eval c w).1.input channel ≡ w.input channel

-- The matches whose patterns accept the line, in order.
abbrev pub hits : (Regexp → Text → Bool) → List Match → Text → List Match
hits accepts [] t = []
hits accepts (m ∷ ms) t = if accepts m.regexp t then m ∷ hits accepts ms t else hits accepts ms t

module _ {I : Type 0} (api : ScanApi I) (accepts : Regexp → Text → Bool) (address channel : ℕ)
    (ctx : Context) where
  -- The commands of the matches left, `found` before them.
  unfoldable pub run_hits : List Match → Bool → Rest api
  run_hits [] found d w = (line_done found, w)
  run_hits (m ∷ ms) found d w =
      run_match api m (set_match_info api ctx channel (some m) d w) d (run_hits ms true)

  abbrev pub copied : Text → World I → LineEnd × World I
  copied t w = elim ctx.copy_file [
    | none ↦ (line_done false, w)
    | some c ↦
        if api.can_write c t
        then (line_done false, record w { written = w.written ++ (c, t) ∷ [] })
        else (scan_error, w)
  ]

  abbrev pub default_done : Text → Code × World I → LineEnd × World I
  default_done t (tcl_error, w) = (scan_error, w)
  default_done t (tcl_break, w) = (scan_ok, w)
  default_done t (tcl_return, w) = (scan_ok, w)
  default_done t (tcl_continue, w) = copied t w
  default_done t (tcl_ok, w) = copied t w
  default_done t (tcl_other n, w) = copied t w

  abbrev pub default_set : Text → Text → Bool × World I → LineEnd × World I
  default_set t action (false, w) = (scan_error, w)
  default_set t action (true, w) = default_done t (api.eval action w)

  -- A line that no pattern accepts: the default action, and then the copy.
  unfoldable pub unmatched_line : ScanData → World I → LineEnd × World I
  unmatched_line d w = elim ctx.default_action [
    | none ↦ copied d.line w
    | some action ↦ default_set d.line action (set_match_info api ctx channel none d w)
  ]

  unfoldable pub line_by : List Match → ScanData → World I → LineEnd × World I
  unfolding run_hits unmatched_line
  line_by [] d w = unmatched_line d w
  line_by (m ∷ ms) d w = run_hits (m ∷ ms) false d w

  unfoldable pub lines_by : List Reading → ℕ → World I → LineEnd × World I
  unfolding line_by after_line
  lines_by [] num w = (scan_ok, w)
  lines_by (blocked ∷ rs) num w = (scan_ok, set_input api channel rs w)
  lines_by (failure ∷ rs) num w = (scan_error, set_input api channel rs w)
  lines_by (got_line offset t ∷ rs) num w =
      let d : ScanData = record {
        stored_line = false;
        line = t;
        offset = offset;
        line_num = suc num;
      } in
      after_line api (lines_by rs) (suc num)
        (line_by (hits accepts ctx.matches t) d (set_input api channel rs w))

  abbrev pub Kept : List Reading → World I → Type 0
  Kept rs w = (w.heap address ≡ some ctx) × (w.input channel ≡ rs)

  pub set_infos-Kept :
      (rs : List Reading) (kvs : List (Key × MatchValue)) (w : World I)
      → Kept rs w
      → Kept rs (set_infos api kvs w).1
  unfolding set_infos
  set_infos-Kept rs [] w h = h
  set_infos-Kept rs ((k, v) ∷ kvs) w h = elim (Bool-cases (api.can_set k)) [
    | inl e ↦ rw e (set_infos-Kept rs kvs (record w { match_info = (k, v) ∷ w.match_info }) h)
    | inr e ↦ rw e h
  ]

  pub set_match_info-Kept :
      (rs : List Reading) (m : Option Match) (d : ScanData) (w : World I)
      → Kept rs w
      → Kept rs (set_match_info api ctx channel m d w).1
  unfolding set_match_info
  set_match_info-Kept rs m d w h =
      let more = copy_infos api ctx.copy_file ++ match_infos api m d in
      let all = line_infos api ctx channel d ++ more in
      let fresh = record w { match_info = [] } in
      elim d.stored_line
        as (λ b. Kept rs (if b then set_infos api more w else set_infos api all fresh).1) [
          | true ↦ set_infos-Kept rs more w h
          | false ↦ set_infos-Kept rs all fresh h
        ]
