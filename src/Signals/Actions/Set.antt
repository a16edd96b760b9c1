-- ===== src/Signals/Actions/Set.antt =====
-- SetSignalActions: what it changes when it succeeds, and how far it comes when it fails.
use tclx.Base.{
  ℕ, zero, suc, ◌+◌, ◌≤◌, ◌<◌, ◌≡◌, refl, sym, Bool, true, false, ◌&&◌, Option, Text, ◌==◌, ltb,
  leb, if◌then◌else◌, arith, Bool-cases, inl, inr, ==→eq, ◌∙◌, ap,
}
use tclx.Signals.{Signals, Disposition, update}
use tclx.Signals.Names.{SigApi, Sig, done, failed, posix_error}
use tclx.Signals.Actions.{with_command, with_state, set_actions, set_signal_actions}

abbrev chosen : (ℕ → Bool) → ℕ → ℕ → ℕ → Bool
chosen signals n last i = signals i && (leb n i && ltb i last)

-- What a run of the loop from `n` on leaves: the selected signals below `cmd_last` have the new
-- command, those below `last` the new action, and nothing else is changed.
pub record IsSetUpTo (signals : ℕ → Bool) (act : Disposition) (again : Bool) (command : Option Text)
    (n cmd_last last : ℕ) (s s' : Signals) : Type 0 where
  pub trap_cmds_are :
      (i : ℕ) → s'.trap_cmds i ≡ (if chosen signals n cmd_last i then command else s.trap_cmds i)
  pub disposition_is :
      (i : ℕ) → s'.disposition i ≡ (if chosen signals n last i then act else s.disposition i)
  pub restart_is : (i : ℕ) → s'.restart i ≡ (if chosen signals n last i then again else s.restart i)
  pub received_same : s'.received ≡ s.received
  pub blocked_same : s'.blocked ≡ s.blocked
  pub marks_same : (s'.has_handler ≡ s.has_handler) × (s'.marked ≡ s.marked)

chosen_empty : (signals : ℕ → Bool) (n last i : ℕ) → last ≤ n → chosen signals n last i ≡ false
chosen_empty signals n last i h = elim (Bool-cases (signals i)) [
  | inl e ↦ ground arith
  | inr e ↦ ground arith
]

chosen_over :
    (signals : ℕ → Bool) (n last i : ℕ)
    → signals n ≡ false
    → chosen signals n last i ≡ chosen signals (suc n) last i
chosen_over signals n last i h = elim (Bool-cases (n == i)) [
  | inl same ↦ let e = ap signals (==→eq n i same) in ground (arith, e)
  | inr other ↦ ground arith
]

written_first {ℓ} :
    {A : Type ℓ} (signals : ℕ → Bool) (n last : ℕ) (f : ℕ → A) (v : A) (i : ℕ)
    → signals n ≡ true
    → n < last
    → (if chosen signals (suc n) last i then v else update f n v i)
      ≡ (if chosen signals n last i then v else f i)
written_first signals n last f v i h lt = elim (Bool-cases (n == i)) [
  | inl same ↦ let e = ap signals (==→eq n i same) in ground (arith, e)
  | inr other ↦ ground arith
]

module _ (api : SigApi) (signals : ℕ → Bool) (act : Disposition) (again : Bool)
    (command : Option Text) where
  abbrev IsSetTo : ℕ → ℕ → ℕ → Signals → Signals → Type 0
  IsSetTo = IsSetUpTo signals act again command

  is_set_over :
      {n a b : ℕ} {s s' : Signals}
      → signals n ≡ false
      → IsSetTo (suc n) a b s s'
      → IsSetTo n a b s s'
  is_set_over {n} {a} {b} {s} h p = record {
    trap_cmds_are = λ i. rw (chosen_over signals n a i h) (p.trap_cmds_are i);
    disposition_is = λ i. rw (chosen_over signals n b i h) (p.disposition_is i);
    restart_is = λ i. rw (chosen_over signals n b i h) (p.restart_is i);
    received_same = p.received_same;
    blocked_same = p.blocked_same;
    marks_same = p.marks_same;
  }

  is_set_next :
      {n a b : ℕ} {s s' : Signals}
      → signals n ≡ true
      → n < a
      → n < b
      → IsSetTo (suc n) a b (with_state n act again (with_command n command s)) s'
      → IsSetTo n a b s s'
  is_set_next {n} {a} {b} {s} h lt lt' p = record {
    trap_cmds_are = λ i. p.trap_cmds_are i ∙ written_first signals n a s.trap_cmds command i h lt;
    disposition_is = λ i. p.disposition_is i ∙ written_first signals n b s.disposition act i h lt';
    restart_is = λ i. p.restart_is i ∙ written_first signals n b s.restart again i h lt';
    received_same = p.received_same;
    blocked_same = p.blocked_same;
    marks_same = p.marks_same;
  }

  -- What SetSignalActions may give on the signals from `n` up to `top`.
  abbrev pub Sets : ℕ → ℕ → Signals → Sig (Unit {0}) → Type 0
  Sets n top s (done s' u) = IsSetTo n top top s s'
  Sets n top s (failed s' e) =
      (k : ℕ) × (n ≤ k)
      × (k < top)
      × (signals k ≡ true)
      × (api.sigaction_set k act ≡ false)
      × (e ≡ posix_error k)
      × IsSetTo n (suc k) k s s'

  over-Sets :
      {n : ℕ} (top : ℕ) (s : Signals) (r : Sig (Unit {0}))
      → signals n ≡ false
      → Sets (suc n) top s r
      → Sets n top s r
  over-Sets top s (done s' u) h p = is_set_over h p
  over-Sets top s (failed s' e) h (k, ge, lt, sel, bad, why, p) =
      (k, omega arith, lt, sel, bad, why, is_set_over h p)

  next-Sets :
      {n : ℕ} (top : ℕ) (s : Signals) (r : Sig (Unit {0}))
      → signals n ≡ true
      → n < top
      → Sets (suc n) top (with_state n act again (with_command n command s)) r
      → Sets n top s r
  next-Sets top s (done s' u) h lt p = is_set_next h lt lt p
  next-Sets top s (failed s' e) h lt (k, ge, lt', sel, bad, why, p) =
      (k, omega arith, lt', sel, bad, why, is_set_next h (omega arith) (omega arith) p)

  refused-Sets :
      (n top : ℕ) (s : Signals)
      → n < top
      → signals n ≡ true
      → api.sigaction_set n act ≡ false
      → Sets n top s (failed (with_command n command s) (posix_error n))
  refused-Sets n top s lt h bad = (
    n,
    omega arith,
    lt,
    h,
    bad,
    refl,
    record {
      trap_cmds_are = λ i.
          sym (rw (chosen_empty signals (suc n) (suc n) i (omega arith)) refl)
          ∙ written_first signals n (suc n) s.trap_cmds command i h (omega arith);
      disposition_is = λ i. rw (chosen_empty signals n n i (omega arith)) refl;
      restart_is = λ i. rw (chosen_empty signals n n i (omega arith)) refl;
      received_same = refl;
      blocked_same = refl;
      marks_same = (refl, refl);
    },
  )

  set_actions-Sets :
      (left n top : ℕ) (s : Signals)
      → n + left ≡ top
      → Sets n top s (set_actions api left n signals act again command s)
  unfolding set_actions
  set_actions-Sets zero n top s e =
      let empty = λ (i : ℕ). chosen_empty signals n top i (omega arith) in
      record {
        trap_cmds_are = λ i. rw (empty i) refl;
        disposition_is = λ i. rw (empty i) refl;
        restart_is = λ i. rw (empty i) refl;
        received_same = refl;
        blocked_same = refl;
        marks_same = (refl, refl);
      }
  set_actions-Sets (suc left) n top s e =
      let s' = with_state n act again (with_command n command s) in
      elim (Bool-cases (signals n)) [
        | inr out ↦ rw out (
            over-Sets top s (set_actions api left (suc n) signals act again command s) out
              (set_actions-Sets left (suc n) top s (omega arith)))
        | inl sel ↦ elim (Bool-cases (api.sigaction_set n act)) [
          | inr bad ↦ rw (sel, bad) (refused-Sets n top s (omega arith) sel bad)
          | inl good ↦
              rw (sel, good)
                (next-Sets top s (set_actions api left (suc n) signals act again command s') sel
                  (omega arith) (set_actions-Sets left (suc n) top s' (omega arith)))
        ]
      ]

  -- SetSignalActions either gives exactly the selected signals the command, the action and the
  -- restart flag, or it fails at a selected signal that sigaction refuses, with the settings made
  -- up to there and the command changed on that signal as well; nothing else changes.
  pub set_signal_actions-Sets :
      (s : Signals) → Sets 0 api.maxsig s (set_signal_actions api signals act again command s)
  unfolding set_signal_actions
  set_signal_actions-Sets s = set_actions-Sets api.maxsig 0 api.maxsig s (omega arith)
