-- ===== src/Filescan/Lines/Matches.antt =====
-- The loop of ScanFile over the matches runs the commands of the filtered matches.
use tclx.Base.{
  ℕ, zero, suc, ◌<◌, ◌≡◌, refl, ap, ◌∙◌, Bool, true, false, none, some, List, [], ◌∷◌, Text,
  get_elem?, length, drop, arith, ◌≢◌, Bool-cases, inl, inr, ◌⊎◌,
}
use tclx.Filescan.{
  Regexp, Match, Context, Reading, World, Code, tcl_ok, tcl_error, tcl_return, tcl_break,
  tcl_continue, tcl_other, ScanApi, ScanData, LineEnd, Rest, set_match_info, run_match, after_match,
}
use tclx.Filescan.Scan.{matches_loop, finish_line}
use tclx.Filescan.Lines.{Quiet, hits, run_hits, Kept, set_match_info-Kept}

drop-cases :
    (xs : List Match) (i : ℕ)
    → (drop i xs ≡ []) × (get_elem? xs i ≡ none)
      ⊎ ((x : Match) × (drop i xs ≡ x ∷ drop (suc i) xs) × (get_elem? xs i ≡ some x))
drop-cases [] zero = inl (refl, refl)
drop-cases [] (suc i) = inl (refl, refl)
drop-cases (x ∷ xs) zero = inr (x, refl, refl)
drop-cases (x ∷ xs) (suc i) = drop-cases xs i

module _ {I : Type 0} (api : ScanApi I) (accepts : Regexp → Text → Bool) (address channel : ℕ)
    (ctx : Context) (quiet : Quiet api accepts address channel) where
  pub eval-Kept :
      (rs : List Reading) (c : Text) (w : World I)
      → Kept api accepts address channel ctx rs w
      → Kept api accepts address channel ctx rs (api.eval c w).1
  eval-Kept rs c w (h, i) = (quiet.keeps_heap c w ∙ h, quiet.keeps_input c w ∙ i)

  after_match_congr :
      (rs : List Reading) (r : Code × World I) (d : ScanData) (f g : Rest api)
      → ((w : World I) → Kept api accepts address channel ctx rs w → f d w ≡ g d w)
      → Kept api accepts address channel ctx rs r.1
      → after_match api r d f ≡ after_match api r d g
  unfolding after_match
  after_match_congr rs (tcl_ok, w) d f g same h = same w h
  after_match_congr rs (tcl_other n, w) d f g same h = same w h
  after_match_congr rs (tcl_error, w) d f g same h = refl
  after_match_congr rs (tcl_return, w) d f g same h = refl
  after_match_congr rs (tcl_break, w) d f g same h = refl
  after_match_congr rs (tcl_continue, w) d f g same h = refl

  run_match_congr :
      (rs : List Reading) (m : Match) (r : Bool × World I) (d : ScanData) (f g : Rest api)
      → ((w : World I)
          → Kept api accepts address channel ctx rs w
          → f (record d { stored_line = true }) w ≡ g (record d { stored_line = true }) w)
      → Kept api accepts address channel ctx rs r.1
      → run_match api m r d f ≡ run_match api m r d g
  unfolding run_match
  run_match_congr rs m (false, w) d f g same h = refl
  run_match_congr rs m (true, w) d f g same h =
      after_match_congr rs (api.eval m.command w) (record d { stored_line = true }) f g same
        (eval-Kept rs m.command w h)

  pub matches_loop-run_hits :
      (rs : List Reading) (fuel idx : ℕ) (found : Bool) (d : ScanData) (w : World I)
      → length (drop idx ctx.matches) < fuel
      → Kept api accepts address channel ctx rs w
      → matches_loop api fuel address channel idx found d w
        ≡ run_hits api accepts address channel ctx
            (hits accepts (drop idx ctx.matches) d.line)
            found
            d
            w
  unfolding matches_loop run_hits
  matches_loop-run_hits rs zero idx found d w enough h = absurd (omega arith)
  matches_loop-run_hits rs (suc fuel) idx found d w enough h = elim (drop-cases ctx.matches idx) [
    | inl (over, ends) ↦ rw (matches_loop, h.0, ends, over)
    | inr (m, more, here) ↦
        let left : length (drop (suc idx) ctx.matches) < fuel = omega (arith, ap length more) in
        elim (Bool-cases (accepts m.regexp d.line)) [
          | inl e ↦
              rw (matches_loop, h.0, here, quiet.answers m.regexp d.line, e, more, e)
                (run_match_congr rs m (set_match_info api ctx channel (some m) d w) d
                  (matches_loop api fuel address channel (suc idx) true)
                  (run_hits api accepts address channel ctx
                    (hits accepts (drop (suc idx) ctx.matches) d.line) true)
                  (λ w' h'.
                    matches_loop-run_hits rs fuel (suc idx) true (record d { stored_line = true })
                      w' left h')
                  (set_match_info-Kept api accepts address channel ctx rs (some m) d w h))
          | inr e ↦
              rw (matches_loop, h.0, here, quiet.answers m.regexp d.line, e, more, e)
                (matches_loop-run_hits rs fuel (suc idx) found d w left h)
        ]
  ]

  -- What the matches of a line leave: the context and the input as they were, and nothing for the
  -- end of the line to do.
  abbrev pub Settled : List Reading → ScanData → LineEnd × World I → Type 0
  Settled rs d₀ r =
      Kept api accepts address channel ctx rs r.1 × (finish_line api address channel d₀ r ≡ r)

  after_match-Settled :
      (rs : List Reading) (d₀ d : ScanData) (r : Code × World I) (next : Rest api)
      → ((w : World I) → Kept api accepts address channel ctx rs w → Settled rs d₀ (next d w))
      → Kept api accepts address channel ctx rs r.1
      → Settled rs d₀ (after_match api r d next)
  unfolding after_match finish_line
  after_match-Settled rs d₀ d (tcl_ok, w) next all h = all w h
  after_match-Settled rs d₀ d (tcl_other n, w) next all h = all w h
  after_match-Settled rs d₀ d (tcl_error, w) next all h = (h, refl)
  after_match-Settled rs d₀ d (tcl_return, w) next all h = (h, refl)
  after_match-Settled rs d₀ d (tcl_break, w) next all h = (h, refl)
  after_match-Settled rs d₀ d (tcl_continue, w) next all h = (h, rw (finish_line, h.0))

  run_match-Settled :
      (rs : List Reading) (d₀ d : ScanData) (m : Match) (r : Bool × World I) (next : Rest api)
      → ((w : World I)
          → Kept api accepts address channel ctx rs w
          → Settled rs d₀ (next (record d { stored_line = true }) w))
      → Kept api accepts address channel ctx rs r.1
      → Settled rs d₀ (run_match api m r d next)
  unfolding run_match finish_line
  run_match-Settled rs d₀ d m (false, w) next all h = (h, refl)
  run_match-Settled rs d₀ d m (true, w) next all h =
      after_match-Settled rs d₀ (record d { stored_line = true }) (api.eval m.command w) next all
        (eval-Kept rs m.command w h)

  pub run_hits-Settled :
      (rs : List Reading) (ms : List Match) (found : Bool) (d₀ d : ScanData) (w : World I)
      → (found ≡ true) ⊎ (ms ≢ [])
      → Kept api accepts address channel ctx rs w
      → Settled rs d₀ (run_hits api accepts address channel ctx ms found d w)
  unfolding run_hits finish_line
  run_hits-Settled rs [] found d₀ d w (inl e) h = rw e (h, rw (finish_line, h.0))
  run_hits-Settled rs [] found d₀ d w (inr ne) h = absurd (ne refl)
  run_hits-Settled rs (m ∷ ms) found d₀ d w some' h =
      run_match-Settled rs d₀ d m (set_match_info api ctx channel (some m) d w)
        (run_hits api accepts address channel ctx ms true)
        (λ w' h'. run_hits-Settled rs ms true d₀ (record d { stored_line = true }) w' (inl refl) h')
        (set_match_info-Kept api accepts address channel ctx rs (some m) d w h)
