-- ===== src/Util.antt =====
-- generic/tclXutil.c: TclX_StrToInt, TclX_StrToUnsigned in base 10, TclX_DownShift, TclX_UpShift and
-- TclX_RelativeExpr.
use tclx.Base.{
  ℕ, suc, ◌+◌, ◌-◌, ◌%◌, ◌^◌, Bool, true, false, not, ◌&&◌, Option, none, some, [], ◌∷◌, ◌++◌, Text,
  ltb, ◌==◌, if◌then◌else◌, drop, leb,
}
use tclx.Base.Int.{ℤ, pos, negsuc, pos_part, neg_part, ◌-ℤ◌}
use tclx.Libc.{skip_space, Strtoul, strtoul, decimal}

-- The tests behind the call of `strtoul`: end, ERANGE, and the white space up to the NUL.
unfoldable pub finish_unsigned : Strtoul → Option ℕ
unfolding skip_space
finish_unsigned r =
    if r.matched
    then if r.erange
      then none
      else elim (skip_space r.end) [ [] ↦ some (r.value % 2 ^ 32) | c ∷ s ↦ none ]
    else none

-- `none` is FALSE; the assignment to `unsigned i` keeps the low 32 bits.
unfoldable pub str_to_unsigned : Text → Option ℕ
unfolding finish_unsigned strtoul
str_to_unsigned s = finish_unsigned (strtoul (skip_space s))

-- A `long` assigned to an `int` keeps the low 32 bits.
unfoldable pub wrap_int : ℤ → ℤ
wrap_int z =
    let u = ((pos_part z % 2 ^ 32) + 2 ^ 32 - neg_part z % 2 ^ 32) % 2 ^ 32 in
    if ltb u (2 ^ 31) then pos u else negsuc (2 ^ 32 - u - 1)

-- TclX_StrToInt in the base of `strtoul_any`; the conversion to `int` keeps the low 32 bits.
unfoldable pub finish_int : Bool → Strtoul → Option ℤ
unfolding skip_space wrap_int
finish_int minus r =
    let i = wrap_int (pos r.value) in
    if r.matched
    then if r.erange then none else elim (skip_space r.end) [
      | [] ↦ some (if minus then wrap_int (pos 0 -ℤ i) else i)
      | c ∷ s ↦ none
    ]
    else none

unfoldable pub int_sign : (Text → Strtoul) → Text → Option ℤ
unfolding finish_int
int_sign strtoul_any [] = finish_int false (strtoul_any [])
int_sign strtoul_any (c ∷ s) =
    if c == b'-'
    then finish_int true (strtoul_any s)
    else if c == b'+'
    then finish_int false (strtoul_any s)
    else finish_int false (strtoul_any (c ∷ s))

unfoldable pub str_to_int : (Text → Strtoul) → Text → Option ℤ
unfolding int_sign
str_to_int strtoul_any s = int_sign strtoul_any (skip_space s)

-- TclX_DownShift and TclX_UpShift, in the C locale.
unfoldable pub down_shift : Text → Text
down_shift [] = []
down_shift (c ∷ s) = (if leb b'A' c && leb c b'Z' then c + 32 else c) ∷ down_shift s

unfoldable pub up_shift : Text → Text
up_shift [] = []
up_shift (c ∷ s) = (if leb b'a' c && leb c b'z' then c - 32 else c) ∷ up_shift s

-- `%d` of an `int`.
unfoldable pub decimal_int : ℤ → Text
decimal_int (pos n) = decimal n
decimal_int (negsuc n) = b'-' ∷ decimal (suc n)

-- An argument whose object has the type "int" already, as what Tcl_GetIntFromObj gives for it, or
-- the string of any other.
pub data Arg : Type 0 where
  int_obj : Option ℤ → Arg
  string_obj : Text → Arg

unfoldable pub starts_with : Text → Text → Bool
starts_with [] s = true
starts_with (c ∷ p) [] = false
starts_with (c ∷ p) (d ∷ s) = c == d && starts_with p s

abbrev pub end_word : Text
end_word = b'e' ∷ b'n' ∷ b'd' ∷ []

abbrev pub len_word : Text
len_word = b'l' ∷ b'e' ∷ b'n' ∷ []

abbrev wrap_some : Option ℤ → Option ℤ
wrap_some none = none
wrap_some (some z) = some (wrap_int z)

-- TclX_RelativeExpr; `expr_long` is Tcl_ExprLong.
unfoldable pub relative_expr : (Text → Option ℤ) → Arg → ℕ → Option ℤ
unfolding starts_with decimal_int wrap_int
relative_expr expr_long (int_obj z) string_len = z
relative_expr expr_long (string_obj s) string_len =
    if starts_with end_word s
    then wrap_some (expr_long (decimal_int (pos string_len -ℤ pos 1) ++ drop 3 s))
    else if starts_with len_word s
    then wrap_some (expr_long (decimal_int (pos string_len) ++ drop 3 s))
    else wrap_some (expr_long s)

-- TclX_GetOpenChannelObj; `get_channel` is Tcl_GetChannel with whether the mode has TCL_READABLE and
-- TCL_WRITABLE.
unfoldable pub get_open_channel : (Text → Option (ℕ × Bool × Bool)) → Text → Bool → Bool → Option ℕ
get_open_channel get_channel handle need_readable need_writable = elim (get_channel handle) [
  | none ↦ none
  | some (chan, readable, writable) ↦
      if need_readable && not readable
      then none
      else if need_writable && not writable
      then none
      else some chan
]
