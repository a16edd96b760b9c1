-- ===== src/Signals/Names.antt =====
-- The names of signals, and the lists of signals that the signal command takes.
use tclx.Base.{
  ◌⊎◌, inl, inr, ℕ, Bool, true, false, ◌&&◌, ◌||◌, Option, none, some, List, [], ◌∷◌, Text, text,
  ◌==◌, ltb, if◌then◌else◌, text_eq, length, take, drop,
}
use tclx.Base.Int.{ℤ, pos, negsuc}
use tclx.Libc.{Strtoul}
use tclx.Util.{str_to_int, up_shift}
use tclx.Signals.{Signals, Disposition, update}

-- The kernel and the headers: the values of the macros of the signals, Tcl_SignalId (`none` is its
-- message for an unknown signal, which it gives for every negative number), whether sigaction accepts a setting or a question, the mask that
-- sigprocmask leaves, and the text of a Boolean value.
pub record SigApi : Type 0 where
  pub maxsig : ℕ
  pub value_of : Text → Option ℕ
  pub signal_id : ℕ → Option Text
  pub sigaction_set : ℕ → Disposition → Bool
  pub sigaction_get : ℕ → Bool
  pub sigprocmask : Bool → (ℕ → Bool) → (ℕ → Bool) → Option (ℕ → Bool)
  pub get_boolean : Text → Option Bool
  pub new_boolean : Bool → Text
  pub strtoul_any : Text → Strtoul
  pub elements : Text → Option (List Text)

pub data SigError : Type 0 where
  posix_error : ℕ → SigError
  mask_error list_error empty_list wild_not_alone : SigError
  bad_option bad_action command_forbidden : Text → SigError
  wrong_args command_required : SigError
  invalid_signal invalid_entry : Text → SigError
  not_boolean : Text → SigError

-- What a step of the command gives: the signals and what was computed, or the signals at an error.
pub data Sig (R : Type 0) : Type 0 where
  done : Signals → R → Sig R
  failed : Signals → SigError → Sig R

abbrev pub bind : {R S : Type 0} → Sig R → (Signals → R → Sig S) → Sig S
bind (done s r) k = k s r
bind (failed s e) k = failed s e

-- The names of sigNameTable, in its order; a name that the headers do not define is left out.
abbrev pub sig_names : List Text
sig_names =
    text "ABRT"
    ∷ text "ALRM"
    ∷ text "BUS"
    ∷ text "CHLD"
    ∷ text "CLD"
    ∷ text "CONT"
    ∷ text "EMT"
    ∷ text "FPE"
    ∷ text "HUP"
    ∷ text "ILL"
    ∷ text "INT"
    ∷ text "IO"
    ∷ text "IOT"
    ∷ text "KILL"
    ∷ text "LOST"
    ∷ text "PIPE"
    ∷ text "POLL"
    ∷ text "PROF"
    ∷ text "PWR"
    ∷ text "QUIT"
    ∷ text "SEGV"
    ∷ text "STOP"
    ∷ text "SYS"
    ∷ text "TERM"
    ∷ text "TRAP"
    ∷ text "TSTP"
    ∷ text "TTIN"
    ∷ text "TTOU"
    ∷ text "URG"
    ∷ text "USR1"
    ∷ text "USR2"
    ∷ text "VTALRM"
    ∷ text "WINCH"
    ∷ text "XCPU"
    ∷ text "XFSZ"
    ∷ []

abbrev pub sig_name_max : ℕ
sig_name_max = 9

-- `&sigNameUp [3]` behind a leading "SIG".
unfoldable pub strip_sig : Text → Text
strip_sig s = if text_eq (take 3 s) (text "SIG") then drop 3 s else s

abbrev pub none_set : ℕ → Bool
none_set n = false

module _ (api : SigApi) where
  -- The loop of SigNameToNum over the table.
  unfoldable pub find_name : Text → List Text → Option ℕ
  find_name name [] = none
  find_name name (n ∷ ns) =
      let rest = find_name name ns in
      elim (api.value_of n) [ none ↦ rest | some v ↦ if text_eq name n then some v else rest ]

  unfoldable pub sig_name_to_num : Text → Option ℕ
  unfolding find_name strip_sig up_shift
  sig_name_to_num name =
      if ltb sig_name_max (length name)
      then none
      else find_name (strip_sig (up_shift name)) sig_names

  -- ParseSignalSpec for a number; `by_name` is the number of the name.
  unfoldable pub parse_number : Bool → ℤ → Option ℕ → Option ℕ
  parse_number allow_zero (negsuc n) by_name = by_name
  parse_number allow_zero (pos n) by_name =
      if allow_zero && n == 0
      then some 0
      else elim (api.signal_id n) [ none ↦ by_name | some id ↦ some n ]

  -- `none` is -1, with the message of SigNameToNum.
  unfoldable pub parse_signal_spec : Bool → Text → Option ℕ
  unfolding sig_name_to_num parse_number
  parse_signal_spec allow_zero str =
      let by_name = sig_name_to_num str in
      elim (str_to_int api.strtoul_any str) [
        | none ↦ by_name
        | some z ↦ parse_number allow_zero z by_name
      ]

  abbrev is_macro : ℕ → Text → Bool
  is_macro v n = elim (api.value_of n) [ none ↦ false | some w ↦ v == w ]

  -- The wild card: every name of the table but SIGKILL and SIGSTOP.
  unfoldable pub all_signals : List Text → ℕ → Bool
  all_signals [] = none_set
  all_signals (n ∷ ns) =
      let rest = all_signals ns in
      elim (api.value_of n) [
        | none ↦ rest
        | some v ↦
            if is_macro v (text "KILL") || is_macro v (text "STOP")
            then rest
            else update rest v true
      ]

  abbrev wild : Text
  wild = text "*"

  -- The loop over the words of the list.
  unfoldable pub parse_words : List Text → (ℕ → Bool) → (ℕ → Bool) ⊎ SigError
  unfolding parse_signal_spec
  parse_words [] signals = inl signals
  parse_words (x ∷ xs) signals =
      let rest = λ (v : ℕ). parse_words xs (update signals v true) in
      if text_eq x wild
      then inr wild_not_alone
      else elim (parse_signal_spec false x) [ none ↦ inr (invalid_signal x) | some v ↦ rest v ]

  unfoldable pub parse_signal_list : List Text → (ℕ → Bool) ⊎ SigError
  unfolding all_signals parse_words
  parse_signal_list [] = inr empty_list
  parse_signal_list (x ∷ xs) =
      if text_eq x wild
      then elim xs [ [] ↦ inl (all_signals sig_names) | y ∷ ys ↦ inr wild_not_alone ]
      else parse_words (x ∷ xs) none_set
