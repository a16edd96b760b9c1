-- ===== src/Signals/Command.antt =====
-- The signal command: what its arguments ask for, and what it does.
use tclx.Base.{
  ◌⊎◌, inl, inr, ℕ, Bool, true, false, Option, none, some, List, [], ◌∷◌, Text, text, ◌==◌,
  if◌then◌else◌, text_eq,
}
use tclx.Signals.{Signals, Disposition, sig_dfl, sig_ign, signal_trap_proc}
use tclx.Signals.Names.{
  SigApi, SigError, list_error, bad_option, bad_action, command_forbidden, wrong_args,
  command_required, Sig, done, failed, bind, parse_signal_list,
}
use tclx.Signals.Actions.{set_signal_states, set_signal_actions, get_states, block_signals}

-- What the arguments of the signal command ask for.
pub data Request : Type 0 where
  set_from : Text → Request
  act_on : (ℕ → Bool) → Disposition → Bool → Option Text → Request
  get_of : (ℕ → Bool) → Request
  block_of : Bool → (ℕ → Bool) → Request

-- The actions without a command.
unfoldable pub plain_action : Text → (ℕ → Bool) → Bool → Request ⊎ SigError
plain_action word signals restart =
    if text_eq word (text "default")
    then inl (act_on signals sig_dfl restart none)
    else if text_eq word (text "ignore")
    then inl (act_on signals sig_ign restart none)
    else if text_eq word (text "error")
    then inl (act_on signals signal_trap_proc restart none)
    else if text_eq word (text "get")
    then inl (get_of signals)
    else if text_eq word (text "block")
    then inl (block_of true signals)
    else if text_eq word (text "unblock")
    then inl (block_of false signals)
    else inr (bad_action word)

-- The actions on a list of signals; `command` is the third argument.
unfoldable pub listed_action : Text → Option Text → Bool → (ℕ → Bool) → Request ⊎ SigError
unfolding plain_action
listed_action word none restart signals =
    if text_eq word (text "trap") then inr command_required else plain_action word signals restart
listed_action word (some command) restart signals =
    if text_eq word (text "trap")
    then inl (act_on signals signal_trap_proc restart (some command))
    else inr (command_forbidden word)

module _ (api : SigApi) where
  abbrev with_list : Option (List Text) → ((ℕ → Bool) → Request ⊎ SigError) → Request ⊎ SigError
  with_list none k = inr list_error
  with_list (some words) k = elim (parse_signal_list api words) [
    | inr e ↦ inr e
    | inl signals ↦ k signals
  ]

  unfoldable pub request_of : Text → Text → Option Text → Bool → Request ⊎ SigError
  unfolding listed_action parse_signal_list
  request_of word sigs command restart =
      if text_eq word (text "set")
      then elim command [ none ↦ inl (set_from sigs) | some c ↦ inr (command_forbidden word) ]
      else with_list (api.elements sigs) (listed_action word command restart)

  abbrev is_option : Text → Bool
  is_option [] = false
  is_option (c ∷ s) = c == b'-'

  unfoldable pub parse_args : List Text → Bool → Request ⊎ SigError
  unfolding request_of
  parse_args (word ∷ sigs ∷ []) restart = request_of word sigs none restart
  parse_args (word ∷ sigs ∷ command ∷ []) restart = request_of word sigs (some command) restart
  parse_args args restart = inr wrong_args

  -- The arguments of TclX_SignalObjCmd, behind the name of the command.
  unfoldable pub parse_options : List Text → Bool → Request ⊎ SigError
  unfolding parse_args
  parse_options [] restart = inr wrong_args
  parse_options (arg ∷ args) restart =
      let rest = parse_options args true in
      if is_option arg
      then if text_eq arg (text "-restart") then rest else inr (bad_option arg)
      else parse_args (arg ∷ args) restart

  -- What the request does; `entries` are those of the keyed list of a "set".
  unfoldable pub run_request :
      (Text → List (Text × Text) ⊎ SigError) → Request → Signals → Sig (List (ℕ × List Text))
  unfolding set_signal_states set_signal_actions get_states block_signals
  run_request entries (set_from keyl) s = elim (entries keyl) [
    | inr e ↦ failed s e
    | inl xs ↦ bind (set_signal_states api xs s) (λ s' r. done s' [])
  ]
  run_request entries (act_on signals act restart command) s =
      bind (set_signal_actions api signals act restart command s) (λ s' r. done s' [])
  run_request entries (get_of signals) s = elim (get_states api api.maxsig 0 signals s) [
    | inr e ↦ failed s e
    | inl xs ↦ done s xs
  ]
  run_request entries (block_of block signals) s =
      bind (block_signals api block signals s) (λ s' r. done s' [])

  unfoldable pub signal_cmd :
      (Text → List (Text × Text) ⊎ SigError) → List Text → Signals → Sig (List (ℕ × List Text))
  unfolding parse_options run_request
  signal_cmd entries args s = elim (parse_options args false) [
    | inr e ↦ failed s e
    | inl r ↦ run_request entries r s
  ]
