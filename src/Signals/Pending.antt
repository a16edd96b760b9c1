-- ===== src/Signals/Pending.antt =====
-- The async handler is marked whenever a signal waits.
use tclx.Base.{
  ℕ, zero, suc, ◌-◌, ◌≡◌, refl, Bool, true, false, ◌&&◌, Option, none, some, Text, arith,
  Bool-cases, inl, inr, ap, ◌∙◌, sym, subst,
}
use tclx.Signals.{
  Signals, Disposition, SigEnv, Stage, signal_trap, signal_init, any_received, mark_again,
  finish_signals, map_stage, process_loop, process_signals,
}
use tclx.Signals.Names.{SigApi, Sig, done, failed}
use tclx.Signals.Actions.{set_signal_actions}
use tclx.Signals.Actions.Set.{Sets, set_signal_actions-Sets}

-- Tcl_AsyncInvoke clears the mark before it calls the handler.
abbrev pub unmarked : Signals → Signals
unmarked s = record s { marked = false }

abbrev pub signals_of : {R : Type 0} → Sig R → Signals
signals_of (done s r) = s
signals_of (failed s e) = s

nothing_received :
    (left n : ℕ) (s : Signals) → ((i : ℕ) → s.received i ≡ 0) → any_received left n s ≡ false
unfolding any_received
nothing_received zero n s h = refl
nothing_received (suc left) n s h = rw (h n) (nothing_received left (suc n) s h)

any_received-received :
    (left n : ℕ) (s s' : Signals)
    → s.received ≡ s'.received
    → any_received left n s ≡ any_received left n s'
unfolding any_received
any_received-received zero n s s' e = refl
any_received-received (suc left) n s s' e =
    ground (arith, ap (λ f. f n) e, any_received-received left (suc n) s s' e)

module _ (env : SigEnv) where
  -- A signal that waits has a mark that will have it processed.
  abbrev pub IsNoticed : Signals → Type 0
  IsNoticed s = s.has_handler ≡ true → any_received (env.maxsig - 1) 1 s ≡ true → s.marked ≡ true

  signal_init-IsNoticed : (s : Signals) → IsNoticed (signal_init s)
  unfolding signal_init
  signal_init-IsNoticed s h waits =
      absurd (ground (arith, nothing_received (env.maxsig - 1) 1 (signal_init s) (λ i. refl)))

  signal_trap-IsNoticed : (s : Signals) (n : ℕ) → IsNoticed s → IsNoticed (signal_trap n s)
  unfolding signal_trap
  signal_trap-IsNoticed s n p = elim (Bool-cases s.has_handler) [
    | inl h ↦ rw h (λ h' waits. refl)
    | inr h ↦ rw h (λ h' waits. absurd (ground arith))
  ]

  mark_again-IsNoticed : (s : Signals) → IsNoticed (mark_again env s)
  unfolding mark_again
  mark_again-IsNoticed s = elim (Bool-cases (any_received (env.maxsig - 1) 1 s && s.has_handler)) [
    | inl both ↦ rw both (λ h waits. refl)
    | inr neither ↦ rw neither (λ h waits. absurd (ground arith))
  ]

  finish_signals-IsNoticed :
      (background : Bool) (saved : env.Saved) (code : ℕ) (r : Stage env)
      → IsNoticed (finish_signals env background saved code r).0
  unfolding finish_signals
  finish_signals-IsNoticed background saved code r = elim (Bool-cases r.went_ok) [
    | inl h ↦ rw h (mark_again-IsNoticed r.signals)
    | inr h ↦ rw h (mark_again-IsNoticed r.signals)
  ]

  abbrev Leaves : Option (Signals × env.World × ℕ) → Type 0
  Leaves none = Unit {0}
  Leaves (some r) = IsNoticed r.0

  pub process_signals-IsNoticed :
      (f code code' : ℕ) (background : Bool) (s s' : Signals) (w w' : env.World)
      → process_signals env f background code s w ≡ some (s', w', code')
      → IsNoticed s'
  unfolding process_signals
  process_signals-IsNoticed f code code' background s s' w w' e =
      subst Leaves e (go (process_loop env f background (env.maxsig - 1) 1 s w))
    where
      go :
          (o : Option (Stage env))
          → Leaves (map_stage env (finish_signals env background (env.save w) code) o)
      go none = tt
      go (some r) = finish_signals-IsNoticed background (env.save w) code r

module _ (env : SigEnv) (api : SigApi) where
  -- What happens to the signals: the first interpreter starts, a signal arrives, the marked handler
  -- is invoked, or the actions of signals are set.
  pub data Step : Signals → Signals → Type 0 where
    starts : (s : Signals) → Step s (signal_init s)
    arrives : (s : Signals) (n : ℕ) → Step s (signal_trap n s)
    invoked :
        (s s' : Signals) (f code code' : ℕ) (background : Bool) (w w' : env.World)
        → s.marked ≡ true
        → process_signals env f background code (unmarked s) w ≡ some (s', w', code')
        → Step s s'
    sets :
        (s : Signals) (signals : ℕ → Bool) (act : Disposition) (again : Bool)
        (command : Option Text)
        → Step s (signals_of (set_signal_actions api signals act again command s))

  pub data Reach (s : Signals) : Signals → Type 0 where
    unchanged : Reach s s
    after : {t u : Signals} → Reach s t → Step t u → Reach s u

  Sets-IsNoticed :
      (signals : ℕ → Bool) (act : Disposition) (again : Bool) (command : Option Text)
      → (s : Signals) (r : Sig (Unit {0})) → Sets api signals act again command 0 api.maxsig s r
      → IsNoticed env s
      → IsNoticed env (signals_of r)
  Sets-IsNoticed signals act again command s (done s' u) p q h waits =
      p.marks_same.1
      ∙ q (sym p.marks_same.0 ∙ h)
          (sym (any_received-received (env.maxsig - 1) 1 s' s p.received_same) ∙ waits)
  Sets-IsNoticed signals act again command s (failed s' e) (k, low, high, sel, bad, why, p) q h
        waits =
      p.marks_same.1
      ∙ q (sym p.marks_same.0 ∙ h)
          (sym (any_received-received (env.maxsig - 1) 1 s' s p.received_same) ∙ waits)

  Step-IsNoticed : {s t : Signals} → Step s t → IsNoticed env s → IsNoticed env t
  Step-IsNoticed (starts s) p = signal_init-IsNoticed env s
  Step-IsNoticed (arrives s n) p = signal_trap-IsNoticed env s n p
  Step-IsNoticed (invoked s s' f code code' background w w' m e) p =
      process_signals-IsNoticed env f code code' background (unmarked s) s' w w' e
  Step-IsNoticed (sets s signals act again command) p =
      Sets-IsNoticed signals act again command s
        (set_signal_actions api signals act again command s)
        (set_signal_actions-Sets api signals act again command s) p

  -- After any sequence of arriving signals, invocations of the marked handler, settings of
  -- actions and new starts that follows TclX_SignalInit, the handler, when it exists, is marked
  -- if a signal waits.
  pub Reach-IsNoticed : (s : Signals) {t : Signals} → Reach (signal_init s) t → IsNoticed env t
  Reach-IsNoticed s unchanged = signal_init-IsNoticed env s
  Reach-IsNoticed s (after r st) = Step-IsNoticed st (Reach-IsNoticed s r)
