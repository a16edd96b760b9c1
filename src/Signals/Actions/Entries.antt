-- ===== src/Signals/Actions/Entries.antt =====
-- The entries of the keyed list: what FormatSignalListEntry writes, ProcessSignalListEntry restores.
use tclx.Base.{
  ℕ, ◌<◌, ◌≡◌, refl, Bool, true, false, Option, none, some, List, [], ◌∷◌, Text, ◌==◌, ltb, leb,
  ◌&&◌, arith, Bool-cases, inl, inr, ==→eq, ◌∙◌, ap,
}
use tclx.Signals.{Signals, Disposition, sig_dfl, sig_ign, signal_trap_proc, other_proc, update}
use tclx.Signals.Names.{SigApi, Sig, done, failed, none_set, sig_name_to_num}
use tclx.Signals.Actions.{
  set_signal_actions, block_signals, set_entry, format_entry, action_word, or_empty, entry_action,
  process_words, process_parsed,
}
use tclx.Signals.Actions.Set.{Sets, set_signal_actions-Sets}

-- The settings that an entry can describe.
unfoldable pub describable : Disposition → Option Text → Bool
describable sig_dfl none = true
describable sig_dfl (some cmd) = false
describable sig_ign none = true
describable sig_ign (some cmd) = false
describable signal_trap_proc none = true
describable signal_trap_proc (some []) = false
describable signal_trap_proc (some (c ∷ cmd)) = true
describable other_proc cmd = false

-- The settings of a signal.
pub record HasSettings (n : ℕ) (act : Disposition) (blocked again : Bool) (command : Option Text)
    (s : Signals) : Type 0 where
  pub disposition_is : s.disposition n ≡ act
  pub blocked_is : s.blocked n ≡ blocked
  pub restart_is : s.restart n ≡ again
  pub command_is : s.trap_cmds n ≡ command

-- The step succeeds, with signals of which `P` holds.
abbrev pub Done : (Signals → Type 0) → Sig (Unit {0}) → Type 0
Done P r = (s' : Signals) × (r ≡ done s' tt) × P s'

module _ (api : SigApi) (n : ℕ) (in_range : n < api.maxsig)
    (can_set : (act : Disposition) → api.sigaction_set n act ≡ true)
    (can_block : (block : Bool) (old : ℕ → Bool)
      → (mask : ℕ → Bool) × (api.sigprocmask block (update none_set n true) old ≡ some mask)
        × (mask n ≡ block)) where
  abbrev only_n : ℕ → Bool
  only_n = update none_set n true

  set_signal_actions_this :
      (act : Disposition) (again : Bool) (command : Option Text) (s : Signals)
      → Done
          (HasSettings n act (s.blocked n) again command)
          (set_signal_actions api only_n act again command s)
  set_signal_actions_this act again command s =
      go (set_signal_actions api only_n act again command s) refl
        (set_signal_actions-Sets api only_n act again command s)
    where
      chosen_this : only_n n && (leb 0 n && ltb n api.maxsig) ≡ true
      chosen_this = ground arith

      go :
          (r : Sig (Unit {0}))
          → set_signal_actions api only_n act again command s ≡ r
          → Sets api only_n act again command 0 api.maxsig s r
          → Done (HasSettings n act (s.blocked n) again command) r
      go (done s' tt) e p = (
        s',
        refl,
        record {
          disposition_is = p.disposition_is n ∙ rw chosen_this refl;
          blocked_is = ap (λ f. f n) p.blocked_same;
          restart_is = p.restart_is n ∙ rw chosen_this refl;
          command_is = p.trap_cmds_are n ∙ rw chosen_this refl;
        },
      )
      go (failed s' x) e (k, low, high, sel, bad, why, p) = elim (Bool-cases (n == k)) [
        | inl same ↦
            let eq = ap (λ i. api.sigaction_set i act) (==→eq n k same) in
            absurd (ground (arith, eq, can_set act))
        | inr other ↦ absurd (ground arith)
      ]

  block_signals_this :
      (block : Bool) (s : Signals)
      → (mask : ℕ → Bool) × (block_signals api block only_n s
          ≡ done (record s { blocked = mask }) tt)
        × (mask n ≡ block)
  unfolding block_signals
  block_signals_this block s =
      let (mask, e, m) = can_block block s.blocked in (mask, rw (block_signals, e) refl, m)

  set_entry_this :
      (act : Disposition) (blocked again : Bool) (command : Option Text) (s : Signals)
      → Done (HasSettings n act blocked again command) (set_entry api n act blocked again command s)
  unfolding set_entry
  set_entry_this act true again command s =
      let (mask, e, m) = block_signals_this true s in
      let (s', e', p) = set_signal_actions_this act again command (record s { blocked = mask }) in
      (
        s',
        rw (e, e') refl,
        record {
          disposition_is = p.disposition_is;
          blocked_is = p.blocked_is ∙ m;
          restart_is = p.restart_is;
          command_is = p.command_is;
        },
      )
  set_entry_this act false again command s =
      let (s', e, p) = set_signal_actions_this act again command s in
      let (mask, e', m) = block_signals_this false s' in
      (
        record s' { blocked = mask },
        rw (e, e') refl,
        record {
          disposition_is = p.disposition_is;
          blocked_is = m;
          restart_is = p.restart_is;
          command_is = p.command_is;
        },
      )

  module _ (name : Text) (named : sig_name_to_num api name ≡ some n)
      (read_back : (v : Bool) → api.get_boolean (api.new_boolean v) ≡ some v) where
    -- The words of an entry, behind the check of their number.
    process_parsed_words :
        (act : Disposition) (command : Option Text) (blocked again : Bool) (s : Signals)
        → describable act command ≡ true
        → process_parsed api n name
            (action_word act command)
            (api.new_boolean blocked)
            (or_empty command ∷ api.new_boolean again ∷ [])
            s
          ≡ set_entry api n act blocked again command s
    unfolding process_parsed entry_action action_word describable
    process_parsed_words sig_dfl none blocked again s h =
        rw (read_back blocked, read_back again) refl
    process_parsed_words sig_dfl (some cmd) blocked again s h = absurd (ground arith)
    process_parsed_words sig_ign none blocked again s h =
        rw (read_back blocked, read_back again) refl
    process_parsed_words sig_ign (some cmd) blocked again s h = absurd (ground arith)
    process_parsed_words signal_trap_proc none blocked again s h =
        rw (read_back blocked, read_back again) refl
    process_parsed_words signal_trap_proc (some []) blocked again s h = absurd (ground arith)
    process_parsed_words signal_trap_proc (some (c ∷ cmd)) blocked again s h =
        rw (read_back blocked, read_back again) refl
    process_parsed_words other_proc cmd blocked again s h = absurd (ground arith)

    -- For a signal that a name stands for, whose action can be set and read and which can be
    -- blocked, the entry that FormatSignalListEntry makes of settings that are the default or
    -- ignore without a command, an error, or a trap with a command that is not empty, gives the
    -- signal these settings when ProcessSignalListEntry is called on it, whatever they were
    -- before.
    pub process_words-format_entry :
        (s s2 : Signals)
        → describable (s.disposition n) (s.trap_cmds n) ≡ true
        → api.sigaction_get n ≡ true
        → (words : List Text) × (format_entry api n s ≡ inl words)
          × Done
              (HasSettings n (s.disposition n) (s.blocked n) (s.restart n) (s.trap_cmds n))
              (process_words api name words s2)
    unfolding format_entry process_words
    process_words-format_entry s s2 h get =
        let act = s.disposition n in
        let command = s.trap_cmds n in
        let (s', e, p) = set_entry_this act (s.blocked n) (s.restart n) command s2 in
        (
          action_word act command
              ∷ api.new_boolean (s.blocked n)
              ∷ or_empty command
              ∷ api.new_boolean (s.restart n)
              ∷ [],
          rw get refl,
          (s', rw named (process_parsed_words act command (s.blocked n) (s.restart n) s2 h ∙ e), p),
        )
