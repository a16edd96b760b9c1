-- ===== src/Interp.antt =====
-- What a command sees of its interpreter: the variables, and a result. A value is a string, or an
-- object where a module says so. Tcl_SetVar2 stores a value or, for a name that cannot be set,
-- leaves an error message; `settable` says which.
use tclx.Base.{Bool, Option, none, some, List, Text, text_eq, if◌then◌else◌}
use tclx.Base.Int.{ℤ}

pub record Interp (V : Type 0) : Type 0 where
  pub vars : Text → Option V
  pub settable : Text → Bool

-- What is left in the result of the interpreter.
pub data Reply (V : Type 0) : Type 0 where
  nothing : Reply V
  value : V → Reply V
  bool : Bool → Reply V
  int : ℤ → Reply V
  elements : List V → Reply V

pub data CmdError : Type 0 where
  wrong_args no_variable cannot_set bad_expr bad_number bad_option bad_list : CmdError
  binary_data unicode_data range_too_long from_too_long bad_class bad_fail_index : CmdError
  key_not_found bad_key out_of_range search_error channel_error list_error : CmdError

-- TCL_OK or TCL_ERROR, each with the interpreter that the command leaves; or a signed overflow.
pub data Outcome (V R : Type 0) : Type 0 where
  ok : R → Interp V → Outcome V R
  error : CmdError → Interp V → Outcome V R
  overflow : Outcome V R

abbrev pub Cmd : Type 0 → Type 0 → Type 0
Cmd V R = Interp V → Outcome V R

module _ {V : Type 0} where
  abbrev pub return : {R : Type 0} → R → Cmd V R
  return r = ok r

  abbrev pub fail : {R : Type 0} → CmdError → Cmd V R
  fail e = error e

  abbrev pub and_then : {R S : Type 0} → Outcome V R → (R → Cmd V S) → Outcome V S
  and_then (ok r s) k = k r s
  and_then (error e s) k = error e s
  and_then overflow k = overflow

  infixl 5 ◌>>=◌ ◌>>◌
  abbrev pub ◌>>=◌ : {R S : Type 0} → Cmd V R → (R → Cmd V S) → Cmd V S
  m >>= k = λ s. and_then (m s) k

  abbrev pub ◌>>◌ : {R S : Type 0} → Cmd V R → Cmd V S → Cmd V S
  m >> k = m >>= λ _. k

  -- A value that a call of the library gave, or the error that it left.
  abbrev pub need : {R : Type 0} → CmdError → Option R → Cmd V R
  need e none = error e
  need e (some r) = ok r

  unfoldable pub get_var : Text → Cmd V V
  get_var name s = need no_variable (s.vars name) s

  unfoldable pub set_var : Text → V → Cmd V (Unit {0})
  set_var name v s =
      if s.settable name
      then ok tt (record s { vars = λ n. if text_eq name n then some v else s.vars n })
      else error cannot_set s
