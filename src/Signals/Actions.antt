-- ===== src/Signals/Actions.antt =====
-- The settings of signals: their actions, blocking, and the entries that describe them.
pub mod Set
pub mod Entries
use tclx.Base.{
  ◌⊎◌, inl, inr, ℕ, zero, suc, ◌+◌, ◌-◌, ◌%◌, ◌^◌, ◌≡◌, Bool, true, false, not, ◌&&◌, ◌||◌, Option,
  none, some, List, [], ◌∷◌, Text, text, ◌==◌, leb, ltb, if◌then◌else◌, text_eq, length, take, drop,
}
use tclx.Base.Int.{ℤ, pos, negsuc, ◌-ℤ◌}
use tclx.Libc.{Strtoul, skip_space}
use tclx.Util.{wrap_int, str_to_int, up_shift}
use tclx.Signals.{Signals, Disposition, sig_dfl, sig_ign, signal_trap_proc, other_proc, update}
use tclx.Signals.Names.{
  SigApi, SigError, posix_error, mask_error, list_error, empty_list, wild_not_alone, bad_option,
  bad_action, command_forbidden, wrong_args, command_required, invalid_signal, invalid_entry,
  not_boolean, Sig, done, failed, bind, none_set, sig_name_to_num, parse_signal_list,
}

-- The new trap command of a signal, and what sigaction stores.
abbrev pub with_command : ℕ → Option Text → Signals → Signals
with_command n command s = record s { trap_cmds = update s.trap_cmds n command }

abbrev pub with_state : ℕ → Disposition → Bool → Signals → Signals
with_state n action restart s = record s {
  disposition = update s.disposition n action;
  restart = update s.restart n restart;
}

-- The first word of an entry.
unfoldable pub action_word : Disposition → Option Text → Text
action_word sig_dfl cmd = text "default"
action_word sig_ign cmd = text "ignore"
action_word signal_trap_proc none = text "error"
action_word signal_trap_proc (some cmd) = text "trap"
action_word other_proc cmd = text "unknown"

abbrev pub or_empty : Option Text → Text
or_empty none = []
or_empty (some cmd) = cmd

-- What the action word of an entry asks for; NULL, which is SIG_DFL, for a word that is none of
-- the known ones.
pub data EntryAction : Type 0 where
  invalid ignored : EntryAction
  set_to : Disposition → EntryAction

abbrev without_command : Option Text → EntryAction → EntryAction
without_command none a = a
without_command (some cmd) a = invalid

abbrev with_a_command : Option Text → EntryAction → EntryAction
with_a_command none a = invalid
with_a_command (some cmd) a = a

unfoldable pub entry_action : Text → Option Text → EntryAction
entry_action word cmd =
    if text_eq word (text "default")
    then without_command cmd (set_to sig_dfl)
    else if text_eq word (text "ignore")
    then without_command cmd (set_to sig_ign)
    else if text_eq word (text "error")
    then without_command cmd (set_to signal_trap_proc)
    else if text_eq word (text "trap")
    then with_a_command cmd (set_to signal_trap_proc)
    else if text_eq word (text "unknown")
    then without_command cmd ignored
    else set_to sig_dfl

abbrev command_of : List Text → Option Text
command_of [] = none
command_of ([] ∷ ws) = none
command_of ((c ∷ s) ∷ ws) = some (c ∷ s)

module _ (api : SigApi) where
  -- The loop of SetSignalActions: `left` signals from `n` on.
  unfoldable pub set_actions :
      ℕ → ℕ → (ℕ → Bool) → Disposition → Bool → Option Text → Signals → Sig (Unit {0})
  set_actions zero n signals action restart command s = done s tt
  set_actions (suc left) n signals action restart command s =
      let skip = set_actions left (suc n) signals action restart command s in
      let s' = with_command n command s in
      let rest =
        set_actions left (suc n) signals action restart command (with_state n action restart s') in
      if signals n
      then if api.sigaction_set n action then rest else failed s' (posix_error n)
      else skip

  unfoldable pub set_signal_actions :
      (ℕ → Bool) → Disposition → Bool → Option Text → Signals → Sig (Unit {0})
  unfolding set_actions
  set_signal_actions signals action restart command s =
      set_actions api.maxsig 0 signals action restart command s

  unfoldable pub block_signals : Bool → (ℕ → Bool) → Signals → Sig (Unit {0})
  block_signals block signals s = elim (api.sigprocmask block signals s.blocked) [
    | none ↦ failed s mask_error
    | some mask ↦ done (record s { blocked = mask }) tt
  ]

  -- FormatSignalListEntry: the four words of the entry.
  unfoldable pub format_entry : ℕ → Signals → List Text ⊎ SigError
  unfolding action_word
  format_entry n s =
      if api.sigaction_get n
      then inl (
          action_word (s.disposition n) (s.trap_cmds n)
          ∷ api.new_boolean (s.blocked n)
          ∷ or_empty (s.trap_cmds n)
          ∷ api.new_boolean (s.restart n)
          ∷ [])
      else inr (posix_error n)

  abbrev restart_of : List Text → Bool ⊎ SigError
  restart_of (cmd ∷ flag ∷ ws) = elim (api.get_boolean flag) [
    | none ↦ inr (not_boolean flag)
    | some r ↦ inl r
  ]
  restart_of ws = inl false

  -- The settings of an entry, in their order: blocking first, unblocking last.
  unfoldable pub set_entry : ℕ → Disposition → Bool → Bool → Option Text → Signals → Sig (Unit {0})
  unfolding set_signal_actions block_signals
  set_entry n act blocked restart command s =
      let signals = update none_set n true in
      if blocked
      then bind (block_signals true signals s)
          (λ s' r. set_signal_actions signals act restart command s')
      else bind (set_signal_actions signals act restart command s)
          (λ s' r. block_signals false signals s')

  -- ProcessSignalListEntry, on the words behind the first two.
  unfoldable pub process_parsed : ℕ → Text → Text → Text → List Text → Signals → Sig (Unit {0})
  unfolding entry_action set_entry
  process_parsed n name word flag rest s = elim (entry_action word (command_of rest)) [
    | invalid ↦ failed s (invalid_entry name)
    | ignored ↦ done s tt
    | set_to act ↦ elim (api.get_boolean flag) [
      | none ↦ failed s (not_boolean flag)
      | some blocked ↦ elim (restart_of rest) [
        | inr e ↦ failed s e
        | inl restart ↦ set_entry n act blocked restart (command_of rest) s
      ]
    ]
  ]

  unfoldable pub process_words : Text → List Text → Signals → Sig (Unit {0})
  unfolding process_parsed sig_name_to_num
  process_words name (word ∷ flag ∷ rest) s =
      if ltb 2 (length rest)
      then failed s (invalid_entry name)
      else elim (sig_name_to_num api name) [
        | none ↦ failed s (invalid_signal name)
        | some n ↦ process_parsed n name word flag rest s
      ]
  process_words name words s = failed s (invalid_entry name)

  unfoldable pub process_entry : Text → Option (List Text) → Signals → Sig (Unit {0})
  unfolding process_words
  process_entry name none s = failed s list_error
  process_entry name (some words) s = process_words name words s

  -- SetSignalStates, on the keys of the keyed list with the value of each.
  unfoldable pub set_signal_states : List (Text × Text) → Signals → Sig (Unit {0})
  unfolding process_entry
  set_signal_states [] s = done s tt
  set_signal_states ((name, state) ∷ xs) s =
      bind (process_entry name (api.elements state) s) (λ s' r. set_signal_states xs s')

  -- The loop of GetSignalStates: the entries of `left` signals from `n` on.
  unfoldable pub get_states : ℕ → ℕ → (ℕ → Bool) → Signals → List (ℕ × List Text) ⊎ SigError
  unfolding format_entry
  get_states zero n signals s = inl []
  get_states (suc left) n signals s =
      let rest = get_states left (suc n) signals s in
      if signals n
      then elim (format_entry n s) [
        | inr e ↦ inr e
        | inl words ↦ elim rest [ inr e ↦ inr e | inl xs ↦ inl ((n, words) ∷ xs) ]
      ]
      else rest
