-- ===== src/Signals.antt =====
-- generic/tclXsignal.c: the signals that were received and not processed, and the trap commands.
-- An array of MAXSIG cells is a function of the signal's number.
pub mod Counts
pub mod Format
pub mod Trap
pub mod Process
pub mod Pending
pub mod Drain
pub mod Names
pub mod Actions
pub mod Command
pub mod Kill
use tclx.Base.{
  ℕ, zero, suc, ◌+◌, ◌-◌, ◌%◌, ◌^◌, Bool, true, false, ◌&&◌, Option, none, some, List, [], ◌∷◌,
  ◌++◌, Text, text, ◌==◌, if◌then◌else◌,
}

-- What the kernel does on a signal: SIG_DFL, SIG_IGN, the handler SignalTrap, or another handler.
pub data Disposition : Type 0 where
  sig_dfl sig_ign signal_trap_proc other_proc : Disposition

pub record Signals : Type 0 where
  pub received : ℕ → ℕ
  pub trap_cmds : ℕ → Option Text
  -- whether the asynchronous handler was created, and whether it is marked
  pub has_handler : Bool
  pub marked : Bool
  pub disposition : ℕ → Disposition
  pub restart : ℕ → Bool
  pub blocked : ℕ → Bool

abbrev pub update {ℓ} : {A : Type ℓ} → (ℕ → A) → ℕ → A → ℕ → A
update f n v i = if n == i then v else f i

-- SignalTrap; the counter is an `unsigned`.
unfoldable pub signal_trap : ℕ → Signals → Signals
signal_trap n s =
    if s.has_handler
    then record s { received = update s.received n ((s.received n + 1) % 2 ^ 32); marked = true }
    else s

-- Signals that arrive one after the other.
unfoldable pub arrive_all : List ℕ → Signals → Signals
unfolding signal_trap
arrive_all [] s = s
arrive_all (n ∷ ns) s = arrive_all ns (signal_trap n s)

-- The loop of FormatTrapCode: `copied` is the text between `copyPtr` and `scanPtr`, which holds
-- no NUL, and `none` a bad specification. A negative length copies up to the NUL.
unfoldable pub format_loop : Text → Text → Text → Text → Option Text
format_loop name command copied [] = some (command ++ copied)
format_loop name command copied (c ∷ []) =
    if c == b'%' then none else some (command ++ (copied ++ c ∷ []))
format_loop name command copied (c ∷ d ∷ s) =
    let plain = format_loop name command (copied ++ c ∷ []) (d ∷ s) in
    let percent = format_loop name command (copied ++ c ∷ d ∷ []) s in
    let substituted = format_loop name (command ++ (copied ++ name)) [] s in
    if c == b'%'
    then if d == b'%' then percent else if d == b'S' then substituted else none
    else plain

unfoldable pub format_trap_code : Text → Text → Option Text
unfolding format_loop
format_trap_code name cmd = format_loop name [] [] cmd

-- The loop that looks for a signal that is still there.
unfoldable pub any_received : ℕ → ℕ → Signals → Bool
any_received zero n s = false
any_received (suc left) n s = if s.received n == 0 then any_received left (suc n) s else true

-- What TclX_SignalInit sets for the first interpreter.
unfoldable pub signal_init : Signals → Signals
signal_init s = record s {
  received = λ n. 0;
  trap_cmds = λ n. none;
  has_handler = true;
  marked = false;
}

-- The interpreter as the processing of signals uses it: `signal_id` is Tcl_SignalId, `sigchld` the value
-- of SIGCHLD where it is defined, `eval` runs a command and gives the
-- signals that arrived meanwhile and whether it went without error, `save` and `restore` keep the
-- result and the error information, and the rest set these.
pub record SigEnv : Type 1 where
  pub World : Type 0
  pub Saved : Type 0
  pub maxsig : ℕ
  pub signal_id : ℕ → Text
  pub sigchld : Option ℕ
  pub eval : Text → World → World × List ℕ × Bool
  pub save : World → Saved
  pub restore : Saved → World → World
  pub reset_result : World → World
  pub bad_spec_error : World → World
  pub trap_error_info : ℕ → World → World
  pub signal_error : Text → World → World
  pub app_handler : Option (Bool → ℕ → World → World × Bool)
  pub background_error : World → World

module _ (env : SigEnv) where
  unfoldable pub get_signal_name : ℕ → Text
  get_signal_name n = elim env.sigchld [
    | none ↦ env.signal_id n
    | some c ↦ if n == c then text "SIGCHLD" else env.signal_id n
  ]

  -- What a stage leaves: the signals, the interpreter, and whether its result is not TCL_ERROR.
  pub record Stage : Type 0 where
    pub signals : Signals
    pub world : env.World
    pub went_ok : Bool

  abbrev pub stage : Signals → env.World → Bool → Stage
  stage s w b = record { signals = s; world = w; went_ok = b }

  -- The command that was formatted is evaluated; a NULL command is not asked for.
  unfoldable pub eval_formatted : ℕ → env.Saved → Signals → env.World → Option Text → Stage
  unfolding arrive_all
  eval_formatted n saved s w none = stage s (env.trap_error_info n (env.bad_spec_error w)) false
  eval_formatted n saved s w (some command) =
      let (w', arrived, done_ok) = env.eval command w in
      if done_ok
      then stage (arrive_all arrived s) (env.restore saved w') true
      else stage (arrive_all arrived s) (env.trap_error_info n w') false

  unfoldable pub eval_trap_code : ℕ → Text → Signals → env.World → Stage
  unfolding eval_formatted format_trap_code
  eval_trap_code n cmd s w =
      eval_formatted n (env.save w) s (env.reset_result w)
        (format_trap_code (get_signal_name n) cmd)

  abbrev pub decremented : ℕ → Signals → Signals
  decremented n s = record s { received = update s.received n (s.received n - 1) }

  -- `while (signalsReceived [signalNum] > 0)`, on fuel.
  unfoldable pub trap_loop : ℕ → ℕ → Text → Signals → env.World → Option Stage
  unfolding eval_trap_code
  trap_loop zero n cmd s w = none
  trap_loop (suc f) n cmd s w =
      let r = eval_trap_code n cmd (decremented n s) w in
      let rest = trap_loop f n cmd r.signals r.world in
      if s.received n == 0 then some (stage s w true) else if r.went_ok then rest else some r

  abbrev pub cleared : ℕ → Signals → Signals
  cleared n s = record s { received = update s.received n 0 }

  unfoldable pub report_signal :
      Option (Bool → ℕ → env.World → env.World × Bool) → Bool → ℕ → Signals → env.World → Stage
  report_signal none background n s w = stage s w false
  report_signal (some handler) background n s w =
      let (w', done_ok) = handler background n w in stage s w' done_ok

  -- ProcessASignal, by the trap command of the signal.
  unfoldable pub process_a_signal : ℕ → Option Text → Bool → ℕ → Signals → env.World → Option Stage
  unfolding report_signal trap_loop
  process_a_signal f none background n s w = some (
      report_signal env.app_handler background n (cleared n s)
        (env.signal_error (get_signal_name n) w))
  process_a_signal f (some cmd) background n s w = trap_loop f n cmd s w

  abbrev pub continue_if : Option Stage → (Signals → env.World → Option Stage) → Option Stage
  continue_if none rest = none
  continue_if (some r) rest = if r.went_ok then rest r.signals r.world else some r

  -- The loop over the signals: `left` of them from `n` on.
  unfoldable pub process_loop : ℕ → Bool → ℕ → ℕ → Signals → env.World → Option Stage
  unfolding process_a_signal
  process_loop f background zero n s w = some (stage s w true)
  process_loop f background (suc left) n s w =
      let skip = process_loop f background left (suc n) s w in
      let rest = process_loop f background left (suc n) in
      if s.received n == 0
      then skip
      else continue_if (process_a_signal f (s.trap_cmds n) background n s w) rest

  unfoldable pub mark_again : Signals → Signals
  unfolding any_received
  mark_again s =
      if any_received (env.maxsig - 1) 1 s && s.has_handler then record s { marked = true } else s

  abbrev pub tcl_error : ℕ
  tcl_error = 1

  unfoldable pub finish_signals : Bool → env.Saved → ℕ → Stage → Signals × env.World × ℕ
  unfolding mark_again
  finish_signals background saved code r =
      if r.went_ok then (mark_again r.signals, env.restore saved r.world, code) else (
        mark_again r.signals,
        if background then env.background_error r.world else r.world,
        tcl_error,
      )

  abbrev pub map_stage {ℓ} : {B : Type ℓ} → (Stage → B) → Option Stage → Option B
  map_stage g none = none
  map_stage g (some r) = some (g r)

  -- ProcessSignals on an interpreter; `background` says that the caller passed none, so that the
  -- first of the table is used (there is one whenever the handler exists), and `code` is the result of the command that was interrupted.
  unfoldable pub process_signals :
      ℕ → Bool → ℕ → Signals → env.World → Option (Signals × env.World × ℕ)
  unfolding process_loop finish_signals
  process_signals f background code s w =
      map_stage (finish_signals background (env.save w) code)
        (process_loop f background (env.maxsig - 1) 1 s w)
