-- ===== src/Signals/Trap.antt =====
-- ProcessASignal: it comes to an end and takes signals away.
use tclx.Base.{
  ℕ, zero, suc, ◌+◌, ◌-◌, ◌≤◌, ◌<◌, ◌≡◌, refl, Bool, true, false, ◌==◌, if◌then◌else◌, arith,
  Bool-cases, inl, inr, Option, none, some, List, [], ◌∷◌, length, ◌∙◌, Text,
}
use tclx.Signals.{
  Signals, SigEnv, Stage, stage, signal_trap, arrive_all, any_received, eval_formatted,
  eval_trap_code, get_signal_name, format_trap_code, trap_loop, decremented, cleared, report_signal,
  process_a_signal,
}
use tclx.Signals.Counts.{pending, sum_from-update, pending-arrive_all}

-- A number that bounds the signals that the interpreter lets arrive: what arrives while a command
-- runs is taken from it, and no other operation adds to it.
pub record Budget (env : SigEnv) : Type 0 where
  pub budget : env.World → ℕ
  pub eval_le :
      (cmd : Text) (w : env.World)
      → budget (env.eval cmd w).0 + length (env.eval cmd w).1 ≤ budget w
  pub restore_le : (r : env.Saved) (w : env.World) → budget (env.restore r w) ≤ budget w
  pub reset_le : (w : env.World) → budget (env.reset_result w) ≤ budget w
  pub bad_spec_le : (w : env.World) → budget (env.bad_spec_error w) ≤ budget w
  pub info_le : (n : ℕ) (w : env.World) → budget (env.trap_error_info n w) ≤ budget w
  pub error_le : (t : Text) (w : env.World) → budget (env.signal_error t w) ≤ budget w
  pub handler_le :
      (h : Bool → ℕ → env.World → env.World × Bool) (b : Bool) (n : ℕ) (w : env.World)
      → env.app_handler ≡ some h
      → budget (h b n w).0 ≤ budget w
  pub background_le : (w : env.World) → budget (env.background_error w) ≤ budget w

-- The signals that a run over the range takes away at least.
abbrev pub any_gone : ℕ → ℕ → Signals → ℕ
any_gone left n s = if any_received left n s then 1 else 0

has_handler-signal_trap : (n : ℕ) (s : Signals) → (signal_trap n s).has_handler ≡ s.has_handler
unfolding signal_trap
has_handler-signal_trap n s = elim (Bool-cases s.has_handler) [
  | inl h ↦ rw h refl
  | inr h ↦ rw h refl
]

has_handler-arrive_all : (ns : List ℕ) (s : Signals) → (arrive_all ns s).has_handler ≡ s.has_handler
unfolding arrive_all
has_handler-arrive_all [] s = refl
has_handler-arrive_all (n ∷ ns) s =
    has_handler-arrive_all ns (signal_trap n s) ∙ has_handler-signal_trap n s

module _ (env : SigEnv) (b : Budget env) where
  abbrev pub measure : Signals → env.World → ℕ
  measure s w = pending (env.maxsig - 1) s + b.budget w

  measure-eval_formatted :
      (n : ℕ) (sv : env.Saved) (s : Signals) (w : env.World) (o : Option Text)
      → let r = eval_formatted env n sv s w o in measure r.signals r.world ≤ measure s w
  unfolding eval_formatted
  measure-eval_formatted n sv s w none =
      omega (arith, b.info_le n (env.bad_spec_error w), b.bad_spec_le w)
  measure-eval_formatted n sv s w (some c) =
      let (w', arrived, done_ok) = env.eval c w in
      let came = pending-arrive_all (env.maxsig - 1) arrived s in
      elim (Bool-cases done_ok) [
        | inl h ↦ rw h (omega (arith, came, b.eval_le c w, b.restore_le sv w'))
        | inr h ↦ rw h (omega (arith, came, b.eval_le c w, b.info_le n w'))
      ]

  measure-eval_trap_code :
      (n : ℕ) (cmd : Text) (s : Signals) (w : env.World)
      → let r = eval_trap_code env n cmd s w in measure r.signals r.world ≤ measure s w
  unfolding eval_trap_code
  measure-eval_trap_code n cmd s w = omega (
    arith,
    b.reset_le w,
    measure-eval_formatted n (env.save w) s (env.reset_result w)
        (format_trap_code (get_signal_name env n) cmd),
  )

  has_handler-eval_formatted :
      (n : ℕ) (sv : env.Saved) (s : Signals) (w : env.World) (o : Option Text)
      → (eval_formatted env n sv s w o).signals.has_handler ≡ s.has_handler
  unfolding eval_formatted
  has_handler-eval_formatted n sv s w none = refl
  has_handler-eval_formatted n sv s w (some c) =
      let (w', arrived, done_ok) = env.eval c w in
      elim (Bool-cases done_ok) [
        | inl h ↦ rw h (has_handler-arrive_all arrived s)
        | inr h ↦ rw h (has_handler-arrive_all arrived s)
      ]

  has_handler-eval_trap_code :
      (n : ℕ) (cmd : Text) (s : Signals) (w : env.World)
      → (eval_trap_code env n cmd s w).signals.has_handler ≡ s.has_handler
  unfolding eval_trap_code
  has_handler-eval_trap_code n cmd s w =
      has_handler-eval_formatted n (env.save w) s (env.reset_result w)
        (format_trap_code (get_signal_name env n) cmd)

  pending-decremented :
      (n : ℕ) (s : Signals)
      → 1 ≤ n
      → n < env.maxsig
      → (s.received n == 0) ≡ false
      → pending (env.maxsig - 1) (decremented env n s) + 1 ≡ pending (env.maxsig - 1) s
  pending-decremented n s low high h =
      ground (
        arith,
        sum_from-update (env.maxsig - 1) 1 n s.received (s.received n - 1) low (omega arith),
      )

  -- At least one signal is gone where there was one.
  abbrev gone : ℕ → Signals → ℕ
  gone n s = if s.received n == 0 then 0 else 1

  -- A result whose measure is less by `d` at least, with the handler as it was.
  abbrev pub ReachedBy : ℕ → Option (Stage env) → Signals → env.World → Type 0
  ReachedBy d o s w =
      (r : Stage env) × (o ≡ some r)
      × (measure r.signals r.world + d ≤ measure s w)
      × (r.signals.has_handler ≡ s.has_handler)

  trap_loop_ends :
      (f n : ℕ) (cmd : Text) (s : Signals) (w : env.World)
      → 1 ≤ n
      → n < env.maxsig
      → measure s w < f
      → ReachedBy (gone n s) (trap_loop env f n cmd s w) s w
  unfolding trap_loop
  trap_loop_ends zero n cmd s w low high h = absurd (omega arith)
  trap_loop_ends (suc f) n cmd s w low high h = elim (Bool-cases (s.received n == 0)) [
    | inl none_left ↦ rw none_left (stage env s w true, refl, omega arith, refl)
    | inr some_left ↦
        let r = eval_trap_code env n cmd (decremented env n s) w in
        let fewer = pending-decremented n s low high some_left in
        let le = measure-eval_trap_code n cmd (decremented env n s) w in
        let kept = has_handler-eval_trap_code n cmd (decremented env n s) w in
        let (r', e, le', kept') = trap_loop_ends f n cmd r.signals r.world low high (omega arith) in
        elim (Bool-cases r.went_ok) [
          | inl h' ↦ rw (some_left, h') (r', e, omega arith, kept' ∙ kept)
          | inr h' ↦ rw (some_left, h') (r, refl, omega arith, kept)
        ]
  ]

  measure-report_signal :
      (h : Option (Bool → ℕ → env.World → env.World × Bool))
      → env.app_handler ≡ h
      → (background : Bool) (n : ℕ) (s : Signals) (w : env.World)
      → let r = report_signal env h background n s w in measure r.signals r.world ≤ measure s w
  unfolding report_signal
  measure-report_signal none e background n s w = omega arith
  measure-report_signal (some g) e background n s w = omega (arith, b.handler_le g background n w e)

  has_handler-report_signal :
      (h : Option (Bool → ℕ → env.World → env.World × Bool)) (background : Bool) (n : ℕ)
      → (s : Signals) (w : env.World)
      → (report_signal env h background n s w).signals.has_handler ≡ s.has_handler
  unfolding report_signal
  has_handler-report_signal none background n s w = refl
  has_handler-report_signal (some g) background n s w = refl

  pub process_a_signal_ends :
      (f : ℕ) (cmd : Option Text) (background : Bool) (n : ℕ) (s : Signals) (w : env.World)
      → 1 ≤ n
      → n < env.maxsig
      → measure s w < f
      → ReachedBy (gone n s) (process_a_signal env f cmd background n s w) s w
  unfolding process_a_signal
  process_a_signal_ends f (some cmd) background n s w low high h =
      trap_loop_ends f n cmd s w low high h
  process_a_signal_ends f none background n s w low high h =
      let name = get_signal_name env n in
      let w' = env.signal_error name w in
      let fewer = sum_from-update (env.maxsig - 1) 1 n s.received 0 low (omega arith) in
      let le = b.error_le name w in
      (
        report_signal env env.app_handler background n (cleared env n s) w',
        refl,
        ground
            (arith, measure-report_signal env.app_handler refl background n (cleared env n s) w'),
        has_handler-report_signal env.app_handler background n (cleared env n s) w',
      )
