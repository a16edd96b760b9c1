-- ===== src/Signals/Kill.antt =====
-- The kill command: the signal and the processes that it is sent to.
use tclx.Base.{
  ℕ, Bool, true, false, Option, none, some, List, [], ◌∷◌, Text, text, text_eq, if◌then◌else◌,
}
use tclx.Base.Int.{ℤ, pos, ◌-ℤ◌}
use tclx.Signals.Names.{SigApi, parse_signal_spec}

pub data KillError : Type 0 where
  wrong_args list_error bad_number kill_refused : KillError
  invalid_signal : Text → KillError

-- The value of SIGTERM, or of SIGINT where that is not defined, Tcl_GetIntFromObj, and TclXOSkill on what it changes; `none` is a refusal.
pub record KillEnv : Type 1 where
  pub World : Type 0
  pub default_kill_signal : ℕ
  pub get_int : Text → Option ℤ
  pub kill : ℤ → ℕ → World → Option World

module _ (api : SigApi) (env : KillEnv) where
  -- The loop over the processes, up to the first error; the earlier ones keep their signal.
  unfoldable pub kill_loop : Bool → ℕ → List Text → env.World → env.World × Option KillError
  kill_loop pgroup n [] w = (w, none)
  kill_loop pgroup n (id ∷ ids) w =
      let rest = kill_loop pgroup n ids in
      elim (env.get_int id) [
        | none ↦ (w, some bad_number)
        | some z ↦ elim (env.kill (if pgroup then pos 0 -ℤ z else z) n w) [
          | none ↦ (w, some kill_refused)
          | some w' ↦ rest w'
        ]
      ]

  unfoldable pub kill_list : Bool → ℕ → Text → env.World → env.World × Option KillError
  unfolding kill_loop
  kill_list pgroup n list w = elim (api.elements list) [
    | none ↦ (w, some list_error)
    | some ids ↦ kill_loop pgroup n ids w
  ]

  unfoldable pub kill_args : Bool → List Text → env.World → env.World × Option KillError
  unfolding kill_list parse_signal_spec
  kill_args pgroup (list ∷ []) w = kill_list pgroup env.default_kill_signal list w
  kill_args pgroup (sig ∷ list ∷ []) w = elim (parse_signal_spec api true sig) [
    | none ↦ (w, some (invalid_signal sig))
    | some n ↦ kill_list pgroup n list w
  ]
  kill_args pgroup args w = (w, some wrong_args)

  -- kill ?-pgroup? ?signal? idlist
  unfoldable pub kill_cmd : List Text → env.World → env.World × Option KillError
  unfolding kill_args
  kill_cmd [] w = (w, some wrong_args)
  kill_cmd (arg ∷ args) w =
      if text_eq arg (text "-pgroup") then kill_args true args w else kill_args false (arg ∷ args) w
