-- ===== src/Signals/Drain.antt =====
-- The async handler as Tcl invokes it until no mark is left: every signal is processed in the end.
use tclx.Base.{
  ◌==◌, ℕ, zero, suc, ◌+◌, ◌-◌, ◌≤◌, ◌<◌, ◌≡◌, refl, Bool, true, false, Option, none, some, arith,
  Bool-cases, inl, inr, ◌∙◌, subst, if◌then◌else◌,
}
use tclx.Signals.{
  Signals, SigEnv, stage, any_received, mark_again, finish_signals, process_loop, process_signals,
}
use tclx.Signals.Trap.{Budget, measure}
use tclx.Signals.Process.{process_signals_ends}
use tclx.Signals.Pending.{unmarked, IsNoticed, process_signals-IsNoticed}

module _ (env : SigEnv) where
  -- The rounds of Tcl_AsyncInvoke: each one clears the mark and calls ProcessSignals, with fuel `f`.
  unfoldable pub rounds : ℕ → ℕ → Bool → ℕ → Signals → env.World → Option (Signals × env.World × ℕ)
  unfolding process_signals
  rounds zero f background code s w = none
  rounds (suc k) f background code s w =
      let rest = λ (r : Signals × env.World × ℕ). rounds k f background r.2 r.0 r.1 in
      if s.marked
      then elim (process_signals env f background code (unmarked s) w) [
        | none ↦ none
        | some r ↦ rest r
      ]
      else some (s, w, code)

  -- The rounds end, and no signal waits.
  abbrev pub Drains : Option (Signals × env.World × ℕ) → Type 0
  Drains o =
      (s : Signals) × (w : env.World) × (code : ℕ) × (o ≡ some (s, w, code))
      × (any_received (env.maxsig - 1) 1 s ≡ false)

  process_loop_idle :
      (f : ℕ) (background : Bool) (left n : ℕ) (s : Signals) (w : env.World)
      → any_received left n s ≡ false
      → process_loop env f background left n s w ≡ some (stage env s w true)
  unfolding process_loop any_received
  process_loop_idle f background zero n s w h = refl
  process_loop_idle f background (suc left) n s w h = elim (Bool-cases (s.received n == 0)) [
    | inl e ↦ rw e (process_loop_idle f background left (suc n) s w (ground arith))
    | inr e ↦ absurd (ground arith)
  ]

  mark_again_idle :
      (s : Signals)
      → any_received (env.maxsig - 1) 1 s ≡ false
      → (mark_again env s).marked ≡ s.marked
  unfolding mark_again
  mark_again_idle s h = rw h refl

  abbrev MarkIs : Bool → Option (Signals × env.World × ℕ) → Type 0
  MarkIs m none = Unit {0}
  MarkIs m (some r) = r.0.marked ≡ m

  -- A round without a signal sets no mark.
  process_signals_idle :
      (f : ℕ) (background : Bool) (code : ℕ) (s s' : Signals) (w w' : env.World) (code' : ℕ)
      → any_received (env.maxsig - 1) 1 s ≡ false
      → process_signals env f background code s w ≡ some (s', w', code')
      → s'.marked ≡ s.marked
  unfolding process_signals finish_signals
  process_signals_idle f background code s s' w w' code' h e =
      subst (MarkIs s.marked) e
        (rw (process_loop_idle f background (env.maxsig - 1) 1 s w h) (mark_again_idle s h))

module _ (env : SigEnv) (b : Budget env) (pos : 1 ≤ env.maxsig) (f : ℕ) (background : Bool) where
  rounds_stop :
      (k code : ℕ) (s : Signals) (w : env.World)
      → IsNoticed env s
      → s.has_handler ≡ true
      → s.marked ≡ false
      → Drains env (rounds env (suc k) f background code s w)
  unfolding rounds
  rounds_stop k code s w noticed h m = elim (Bool-cases (any_received (env.maxsig - 1) 1 s)) [
    | inl waits ↦ absurd (ground (arith, noticed h waits))
    | inr idle ↦ (s, w, code, rw m refl, idle)
  ]

  -- When the handler exists, is marked if a signal waits, and the signals that commands let
  -- arrive are bounded by a budget, then with fuel above the waiting signals and the budget, and
  -- two rounds more than these, ProcessSignals invoked as long as the handler is marked comes to
  -- an end with no signal waiting, errors of trap commands included.
  pub rounds_drain :
      (k code : ℕ) (s : Signals) (w : env.World)
      → IsNoticed env s
      → s.has_handler ≡ true
      → measure env b s w < f
      → measure env b s w + 2 ≤ k
      → Drains env (rounds env k f background code s w)
  unfolding rounds
  rounds_drain zero code s w noticed h fuel enough = absurd (omega arith)
  rounds_drain (suc zero) code s w noticed h fuel enough = absurd (omega arith)
  rounds_drain (suc (suc k)) code s w noticed h fuel enough = elim (Bool-cases s.marked) [
    | inr m ↦ rounds_stop (suc k) code s w noticed h m
    | inl m ↦
        let (s', w', code', e, le, kept) =
          process_signals_ends env b f background code (unmarked s) w pos fuel in
        let noticed' =
          process_signals-IsNoticed env f code code' background (unmarked s) s' w w' e in
        elim (Bool-cases (any_received (env.maxsig - 1) 1 (unmarked s))) [
          | inl waits ↦
              rw (m, e)
                (rounds_drain (suc k) code' s' w' noticed' (kept ∙ h) (ground arith) (ground arith))
          | inr idle ↦
              rw (m, e)
                (rounds_stop k code' s' w' noticed' (kept ∙ h)
                  (process_signals_idle env f background code (unmarked s) s' w w' code' idle e))
        ]
  ]
