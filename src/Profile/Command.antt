-- ===== src/Profile/Command.antt =====
-- The profile command: its arguments, and the variable that the table is written to.
use tclx.Base.{
  ℕ, ◌==◌, Bool, true, false, ◌||◌, ◌⊎◌, inl, inr, Option, none, some, List, [], ◌∷◌, Text, text,
  text_eq, if◌then◌else◌,
}
use tclx.Profile.{Time, Info, Data, turn_on, delete_trace, and_then}

pub data ProfileError : Type 0 where
  bad_option bad_subcommand : Text → ProfileError
  wrong_args already_on not_on cannot_set : ProfileError
  option_when_off : Bool → ProfileError

pub data Request : Type 0 where
  switch_on : Bool → Bool → Request
  switch_off : Text → Request

-- The arguments behind the options.
unfoldable pub parse_switch : List Text → Bool → Bool → Request ⊎ ProfileError
parse_switch [] commands eval = inr wrong_args
parse_switch (word ∷ []) commands eval =
    if text_eq word (text "on")
    then inl (switch_on commands eval)
    else if text_eq word (text "off")
    then inr wrong_args
    else inr (bad_subcommand word)
parse_switch (word ∷ arg ∷ []) commands eval =
    if text_eq word (text "on")
    then inr wrong_args
    else if text_eq word (text "off")
    then if commands || eval then inr (option_when_off commands) else inl (switch_off arg)
    else inr (bad_subcommand word)
parse_switch (word ∷ arg ∷ args) commands eval =
    if text_eq word (text "on") || text_eq word (text "off")
    then inr wrong_args
    else inr (bad_subcommand word)

abbrev is_option : Text → Bool
is_option [] = false
is_option (c ∷ s) = c == b'-'

unfoldable pub parse_profile : List Text → Bool → Bool → Request ⊎ ProfileError
unfolding parse_switch
parse_profile [] commands eval = inr wrong_args
parse_profile (arg ∷ args) commands eval =
    let with_commands = parse_profile args true eval in
    let with_eval = parse_profile args commands true in
    if is_option arg
    then if text_eq arg (text "-commands")
      then with_commands
      else if text_eq arg (text "-eval")
      then with_eval
      else inr (bad_option arg)
    else parse_switch (arg ∷ args) commands eval

-- The interpreter: an array variable is unset, and an element of it is set, or refused.
pub record ProfileEnv : Type 1 where
  pub World : Type 0
  pub unset : Text → World → World
  pub set_element : Text → List Text → Data → World → Option World

module _ (env : ProfileEnv) where
  -- The loop of TurnOffProfiling: the entries that are left, and the interpreter.
  unfoldable pub dump_table :
      Text → List (List Text × Data) → env.World → List (List Text × Data) × env.World × Bool
  dump_table name [] w = ([], w, true)
  dump_table name ((key, d) ∷ table) w =
      let rest = dump_table name table in
      elim (env.set_element name key d w) [
        | none ↦ ((key, d) ∷ table, w, false)
        | some w' ↦ rest w'
      ]

  unfoldable pub turn_off : Text → Time → Info → env.World → Option (Info × env.World × Bool)
  unfolding delete_trace dump_table
  turn_off name clock i w = and_then (delete_trace clock i) (λ j.
      let (left, w', done_ok) = dump_table name j.table (env.unset name w) in
      some (record j { table = left }, w', done_ok))

  -- What the command leaves, and the error if there is one.
  abbrev pub Left : Type 0
  Left = Info × env.World × Option ProfileError

  abbrev with_result : Info × env.World × Bool → Left
  with_result (i, w, true) = (i, w, none)
  with_result (i, w, false) = (i, w, some cannot_set)

  unfoldable pub run_profile :
      List (Text × ℕ) → ℕ → Time → Request ⊎ ProfileError → Info → env.World → Option Left
  unfolding turn_on turn_off
  run_profile frames scope clock (inr e) i w = some (i, w, some e)
  run_profile frames scope clock (inl (switch_on commands eval)) i w =
      if i.tracing
      then some (i, w, some already_on)
      else and_then (turn_on commands eval frames scope clock i) (λ j. some (j, w, none))
  run_profile frames scope clock (inl (switch_off name)) i w =
      if i.tracing
      then and_then (turn_off name clock i w) (λ r. some (with_result r))
      else some (i, w, some not_on)

  unfoldable pub profile_cmd :
      List (Text × ℕ) → ℕ → Time → List Text → Info → env.World → Option Left
  unfolding parse_profile run_profile
  profile_cmd frames scope clock args i w =
      run_profile frames scope clock (parse_profile args false false) i w
