-- ===== src/Lgets/Command.antt =====
-- generic/tclXlgets.c: the command lgets. A variable holds a list.
use tclx.Base.{
  ℕ, zero, suc, ◌+◌, Bool, true, false, Option, none, some, List, [], ◌∷◌, ◌++◌, Text,
  if◌then◌else◌, take, length,
}
use tclx.Base.Int.{ℤ, pos, negsuc, ◌-ℤ◌}
use tclx.Util.{get_open_channel}
use tclx.Interp.{
  Interp, Reply, value, int, CmdError, wrong_args, channel_error, list_error, Outcome, ok, error,
  overflow, set_var,
}
use tclx.Lgets.{
  Gets, ReadData, ReadStatus, read_ok, read_break, read_error, read_list_init, element, list_end,
  failed, no_fuel, read_list_element,
}

-- The list as far as it was read, whole or up to an error.
pub data ListRead : Type 0 where
  all_read not_read : List Text → ReadData → ListRead
  out_of_fuel : ListRead

module _ (backslash : Text → ℕ × ℕ) (fuel : ℕ) where
  -- The loop over the elements, on `rounds`; `fuel` is for each element.
  unfoldable pub read_elements : ℕ → List Text → ReadData → ListRead
  unfolding read_list_element
  read_elements zero xs d = out_of_fuel
  read_elements (suc rounds) xs d = elim (read_list_element backslash fuel d) [
    | element t d' ↦ read_elements rounds (xs ++ t ∷ []) d'
    | list_end d' ↦ all_read xs d'
    | failed d' ↦ not_read xs d'
    | no_fuel ↦ out_of_fuel
  ]

  unfoldable pub read_initial : ℕ → ReadStatus × ReadData → ListRead
  unfolding read_elements
  read_initial rounds (read_ok, d) = read_elements rounds [] d
  read_initial rounds (read_break, d) = all_read [] d
  read_initial rounds (read_error, d) = not_read [] d

  unfoldable pub read_list : ℕ → List Gets → ListRead
  unfolding read_initial read_list_init
  read_list rounds gs = read_initial rounds (read_list_init gs)

-- Nothing was read before the end of the file.
abbrev at_eof : ReadData → Bool
at_eof d = elim (d.before ++ d.rest) [ [] ↦ true | c ∷ s ↦ false ]

abbrev Lists : Type 0
Lists = Interp (List Text)

abbrev Result : Type 0
Result = Outcome (List Text) (Reply (List Text)) × List Gets

-- errorExit: with a variable, as many bytes from the start of the buffer as are left unread become
-- the last element.
unfoldable pub saved_list : List Text → ReadData → List Text
saved_list xs d = elim d.rest [
  | [] ↦ xs
  | c ∷ s ↦ xs ++ take (length d.rest) (d.before ++ d.rest) ∷ []
]

unfoldable pub error_exit : CmdError → Option Text → List Text → ReadData → Lists → Result
unfolding saved_list set_var
error_exit e none xs d s = (error e s, d.input)
error_exit e (some name) xs d s = elim (set_var name (saved_list xs d) s) [
  | ok r s' ↦ (error e s', d.input)
  | error e' s' ↦ (error e' s', d.input)
  | overflow ↦ (overflow, d.input)
]

unfoldable pub lgets_reply : Option Text → ListRead → Lists → Option Result
unfolding error_exit set_var
lgets_reply var (not_read xs d) s = some (error_exit list_error var xs d s)
lgets_reply var out_of_fuel s = none
lgets_reply none (all_read xs d) s = some (ok (value xs) s, d.input)
lgets_reply (some name) (all_read xs d) s =
    let len : ℤ = if at_eof d then negsuc 0 else pos (length d.before + length d.rest) -ℤ pos 1 in
    elim (set_var name xs s) [
      | ok r s' ↦ some (ok (int len) s', d.input)
      | error e s' ↦ some (error_exit e (some name) xs d s)
      | overflow ↦ some (overflow, d.input)
    ]

-- The channel's mode, `true` for blocking; what the channels give; and the fuel.
module _ (get_channel : Text → Option (ℕ × Bool × Bool)) (blocking : ℕ → Option Bool)
    (backslash : Text → ℕ × ℕ) (rounds fuel : ℕ) where
  unfoldable pub lgets_channel : Text → Option Text → (ℕ → List Gets) → Lists → Option Result
  unfolding lgets_reply read_list
  lgets_channel file var input s = elim (get_open_channel get_channel file true false) [
    | none ↦ some (error channel_error s, [])
    | some chan ↦ elim (blocking chan) [
      | none ↦ some (error channel_error s, input chan)
      | some mode ↦ elim mode [
        | false ↦ some (error channel_error s, input chan)
        | true ↦ lgets_reply var (read_list backslash fuel rounds (input chan)) s
      ]
    ]
  ]

  -- `none` is out of fuel.
  unfoldable pub lgets_cmd : List Text → (ℕ → List Gets) → Lists → Option Result
  unfolding lgets_channel
  lgets_cmd (file ∷ []) input s = lgets_channel file none input s
  lgets_cmd (file ∷ var ∷ []) input s = lgets_channel file (some var) input s
  lgets_cmd args input s = some (error wrong_args s, [])
