-- ===== src/Examples/Signals.antt =====
-- Runs of the signal handling: an interpreter whose commands let a further signal arrive as long as
-- its world, a number, is not zero.
use tclx.Base.{
  ℕ, zero, suc, ◌+◌, ◌≤◌, ◌<◌, ◌≡◌, refl, Bool, true, false, none, some, List, [], ◌∷◌, Text, text,
  text_eq, ltb, if◌then◌else◌, arith, length, inl,
}
use tclx.Signals.{
  Signals, Disposition, sig_dfl, signal_trap_proc, SigEnv, update, signal_init, signal_trap,
  format_trap_code, process_signals,
}
use tclx.Signals.Format.{substitute, format_trap_code-substitute}
use tclx.Signals.Counts.{sum_from}
use tclx.Signals.Trap.{Budget, measure, any_gone}
use tclx.Signals.Process.{process_signals_ends}
use tclx.Signals.Pending.{Step, Reach, IsNoticed, Reach-IsNoticed}
use tclx.Signals.Names.{SigApi, none_set, sig_name_to_num, find_name, strip_sig}
use tclx.Util.{up_shift}
use tclx.Signals.Actions.{set_signal_actions, format_entry, process_words}
use tclx.Signals.Actions.Set.{Sets, set_signal_actions-Sets}
use tclx.Signals.Actions.Entries.{describable, HasSettings, Done, process_words-format_entry}
use tclx.Signals.Drain.{rounds, rounds_drain, Drains}

abbrev trap_text : Text
trap_text = text "got %S"

format_trap_code-substitute_example :
    format_trap_code (text "SIGINT") trap_text ≡ substitute (text "SIGINT") trap_text
format_trap_code-substitute_example = format_trap_code-substitute (text "SIGINT") trap_text

abbrev eval_test : Text → ℕ → ℕ × List ℕ × Bool
eval_test cmd zero = (0, [], true)
eval_test cmd (suc w) = (w, 2 ∷ [], true)

abbrev test_env : SigEnv
test_env = record {
  World = ℕ;
  Saved = Unit {0};
  maxsig = 4;
  signal_id = λ n. text "SIGINT";
  sigchld = none;
  eval = eval_test;
  save = λ w. tt;
  restore = λ r w. w;
  reset_result = λ w. w;
  bad_spec_error = λ w. w;
  trap_error_info = λ n w. w;
  signal_error = λ t w. w;
  app_handler = none;
  background_error = λ w. w;
}

eval_test_le : (cmd : Text) (w : ℕ) → (eval_test cmd w).0 + length (eval_test cmd w).1 ≤ w
eval_test_le cmd zero = omega arith
eval_test_le cmd (suc w) = omega arith

no_handler :
    (h : Bool → ℕ → ℕ → ℕ × Bool) (b : Bool) (n w : ℕ)
    → test_env.app_handler ≡ some h
    → (h b n w).0 ≤ w
no_handler h b n w e = absurd (ground arith)

abbrev test_budget : Budget test_env
test_budget = record {
  budget = λ w. w;
  eval_le = eval_test_le;
  restore_le = λ r w. omega arith;
  reset_le = λ w. omega arith;
  bad_spec_le = λ w. omega arith;
  info_le = λ n w. omega arith;
  error_le = λ t w. omega arith;
  handler_le = no_handler;
  background_le = λ w. omega arith;
}

abbrev no_signals : Signals
no_signals = record {
  received = λ n. 0;
  trap_cmds = λ n. none;
  has_handler = false;
  marked = false;
  disposition = λ n. sig_dfl;
  restart = λ n. false;
  blocked = λ n. false;
}

-- A handler that is marked by two signals, with a trap command for the second.
abbrev waiting : Signals
waiting = record {
  received = update (λ n. 0) 2 2;
  trap_cmds = update (λ n. none) 2 (some trap_text);
  has_handler = true;
  marked = true;
  disposition = λ n. signal_trap_proc;
  restart = λ n. false;
  blocked = λ n. false;
}

small : measure test_env test_budget waiting 1 < 10
unfolding sum_from
small = omega arith

process_signals_ends_example :
    (s' : Signals) × (w' : ℕ) × (code : ℕ) × (process_signals test_env 10 false 0 waiting 1
      ≡ some (s', w', code))
    × (measure test_env test_budget s' w' + any_gone 3 1 waiting
        ≤ measure test_env test_budget waiting 1)
    × (s'.has_handler ≡ true)
process_signals_ends_example =
    process_signals_ends test_env test_budget 10 false 0 waiting 1 (omega arith) small

waiting-IsNoticed : IsNoticed test_env waiting
waiting-IsNoticed h waits = refl

few : measure test_env test_budget waiting 1 + 2 ≤ 5
unfolding sum_from
few = omega arith

rounds_drain_example : Drains test_env (rounds test_env 5 10 false 0 waiting 1)
rounds_drain_example =
    rounds_drain test_env test_budget (omega arith) 10 false 5 0 waiting 1 waiting-IsNoticed refl
      small few

-- Three signals: INT and KILL, which cannot be set, are 2 and 3.
abbrev test_api : SigApi
test_api = record {
  maxsig = 4;
  value_of = λ n.
      if text_eq n (text "INT") then some 2 else if text_eq n (text "KILL") then some 3 else none;
  signal_id = λ n. none;
  sigaction_set = λ n act. ltb n 3;
  sigaction_get = λ n. true;
  sigprocmask = λ block these old. some (λ i. if these i then block else old i);
  get_boolean = λ t. some (text_eq t (text "1"));
  new_boolean = λ v. if v then text "1" else text "0";
  strtoul_any = λ t. record { value = 0; end = t; matched = false; erange = false };
  elements = λ t. none;
}

Reach-IsNoticed_example : IsNoticed test_env (signal_trap 2 (signal_init no_signals))
Reach-IsNoticed_example =
    Reach-IsNoticed test_env test_api no_signals
      (Reach.after Reach.unchanged (Step.arrives (signal_init no_signals) 2))

set_signal_actions-Sets_example :
    Sets test_api
      (λ n. true)
      signal_trap_proc
      false
      (some trap_text)
      0
      4
      no_signals
      (set_signal_actions test_api (λ n. true) signal_trap_proc false (some trap_text) no_signals)
set_signal_actions-Sets_example =
    set_signal_actions-Sets test_api (λ n. true) signal_trap_proc false (some trap_text) no_signals

int_is_2 : sig_name_to_num test_api (text "sigint") ≡ some 2
unfolding sig_name_to_num find_name strip_sig up_shift
int_is_2 = refl

blocks_2 :
    (block : Bool) (old : ℕ → Bool)
    → (mask : ℕ → Bool) × (test_api.sigprocmask block (update none_set 2 true) old ≡ some mask)
      × (mask 2 ≡ block)
blocks_2 block old = ((λ i. if update none_set 2 true i then block else old i), refl, refl)

reads_back : (v : Bool) → test_api.get_boolean (test_api.new_boolean v) ≡ some v
reads_back true = refl
reads_back false = refl

describes_waiting : describable (waiting.disposition 2) (waiting.trap_cmds 2) ≡ true
unfolding describable
describes_waiting = refl

sets_2 : (act : Disposition) → test_api.sigaction_set 2 act ≡ true
sets_2 act = refl

process_words-format_entry_example :
    (words : List Text) × (format_entry test_api 2 waiting ≡ inl words)
    × Done
        (HasSettings 2 signal_trap_proc false false (some trap_text))
        (process_words test_api (text "sigint") words no_signals)
process_words-format_entry_example =
    process_words-format_entry test_api 2 (omega arith) sets_2 blocks_2 (text "sigint") int_is_2
      reads_back waiting no_signals describes_waiting refl
