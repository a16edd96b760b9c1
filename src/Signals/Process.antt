-- ===== src/Signals/Process.antt =====
-- ProcessSignals: the processing comes to an end.
use tclx.Base.{
  ℕ, zero, suc, ◌+◌, ◌-◌, ◌≤◌, ◌<◌, ◌≡◌, refl, Bool, true, ◌&&◌, ◌==◌, arith, Bool-cases, inl, inr,
  some, ap, ◌∙◌,
}
use tclx.Signals.{
  Signals, SigEnv, Stage, stage, any_received, process_loop, mark_again, finish_signals,
  process_signals,
}
use tclx.Signals.Counts.{sum_from, pending}
use tclx.Signals.Trap.{Budget, any_gone, measure, ReachedBy, process_a_signal_ends}

module _ (env : SigEnv) (b : Budget env) where
  process_loop_ends :
      (f : ℕ) (background : Bool) (left n : ℕ) (s : Signals) (w : env.World)
      → 1 ≤ n
      → n + left ≤ env.maxsig
      → measure env b s w < f
      → ReachedBy env b (any_gone left n s) (process_loop env f background left n s w) s w
  unfolding process_loop any_received
  process_loop_ends f background zero n s w low high h =
      (stage env s w true, refl, omega arith, refl)
  process_loop_ends f background (suc left) n s w low high h =
      elim (Bool-cases (s.received n == 0)) [
        | inl none_left ↦
            rw none_left
              (process_loop_ends f background left (suc n) s w (omega arith) (omega arith) h)
        | inr some_left ↦
            let (r, e, le, kept) =
              process_a_signal_ends env b f (s.trap_cmds n) background n s w low (omega arith) h in
            let (r', e', le', kept') =
              process_loop_ends f background left (suc n) r.signals r.world (omega arith)
                (omega arith) (ground arith) in
            elim (Bool-cases r.went_ok) [
              | inl h' ↦ rw (some_left, e, h') (r', e', ground arith, kept' ∙ kept)
              | inr h' ↦ rw (some_left, e, h') (r, refl, ground arith, kept)
            ]
      ]

  has_handler-mark_again : (s : Signals) → (mark_again env s).has_handler ≡ s.has_handler
  unfolding mark_again
  has_handler-mark_again s =
      elim (Bool-cases (any_received (env.maxsig - 1) 1 s && s.has_handler)) [
        | inl h ↦ rw h refl
        | inr h ↦ rw h refl
      ]

  received-mark_again : (s : Signals) → (mark_again env s).received ≡ s.received
  unfolding mark_again
  received-mark_again s = elim (Bool-cases (any_received (env.maxsig - 1) 1 s && s.has_handler)) [
    | inl h ↦ rw h refl
    | inr h ↦ rw h refl
  ]

  has_handler-finish_signals :
      (background : Bool) (sv : env.Saved) (code : ℕ) (r : Stage env)
      → (finish_signals env background sv code r).0.has_handler ≡ r.signals.has_handler
  unfolding finish_signals mark_again
  has_handler-finish_signals background sv code r = elim (Bool-cases r.went_ok) [
    | inl h ↦ rw h (has_handler-mark_again r.signals)
    | inr h ↦ rw h (has_handler-mark_again r.signals)
  ]

  measure-finish_signals :
      (background : Bool) (sv : env.Saved) (code : ℕ) (r : Stage env)
      → let o = finish_signals env background sv code r in
        measure env b o.0 o.1 ≤ measure env b r.signals r.world
  unfolding finish_signals
  measure-finish_signals background sv code r =
      let same : pending (env.maxsig - 1) (mark_again env r.signals)
          ≡ pending (env.maxsig - 1) r.signals =
        ap (sum_from (env.maxsig - 1) 1) (received-mark_again r.signals) in
      elim (Bool-cases r.went_ok) [
        | inl h ↦ rw h (omega (arith, same, b.restore_le sv r.world))
        | inr h ↦ elim (Bool-cases background) [
          | inl h' ↦ rw (h, h') (omega (arith, same, b.background_le r.world))
          | inr h' ↦ rw (h, h') (omega (arith, same))
        ]
      ]

  -- Where the signals that commands let arrive are bounded by a budget, ProcessSignals with fuel
  -- above the waiting signals and the budget comes to a result, leaves no more of both together,
  -- and less if a signal was waiting, and keeps the handler.
  pub process_signals_ends :
      (f : ℕ) (background : Bool) (code : ℕ) (s : Signals) (w : env.World)
      → 1 ≤ env.maxsig
      → measure env b s w < f
      → (s' : Signals) × (w' : env.World) × (code' : ℕ) × (process_signals env f background code s w
          ≡ some (s', w', code'))
        × (measure env b s' w' + any_gone (env.maxsig - 1) 1 s ≤ measure env b s w)
        × (s'.has_handler ≡ s.has_handler)
  unfolding process_signals
  process_signals_ends f background code s w pos h =
      let (r, e, le, kept) =
        process_loop_ends f background (env.maxsig - 1) 1 s w (omega arith) (omega arith) h in
      let (s', w', code') = finish_signals env background (env.save w) code r in
      (
        s',
        w',
        code',
        rw e refl,
        omega (arith, le, measure-finish_signals background (env.save w) code r),
        has_handler-finish_signals background (env.save w) code r ∙ kept,
      )
