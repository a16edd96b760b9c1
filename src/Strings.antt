-- ===== src/Strings.antt =====
-- generic/tclXstring.c: the character commands. A string is the list of its characters.
pub mod Range
pub mod Token
pub mod Translit
pub mod Compare
pub mod Ctype
use tclx.Base.{
  ℕ, zero, suc, ◌+◌, ◌-◌, ◌^◌, ◌≡◌, Bool, true, false, not, ◌||◌, ◌&&◌, Option, none, some, List,
  [], ◌∷◌, ◌++◌, Text, text_eq, ltb, leb, ◌==◌, if◌then◌else◌, length, get_elem?, take, drop, has,
}
use tclx.Base.Int.{ℤ, pos, negsuc, ◌+ℤ◌, ◌-ℤ◌, ltb_ℤ, pos_part}
use tclx.Interp.{
  Interp, Reply, nothing, value, bool, int, CmdError, wrong_args, bad_expr, bad_number, bad_option,
  binary_data, Outcome, overflow, Cmd, return, fail, need, ◌>>=◌, ◌>>◌, get_var, set_var,
}
use tclx.Util.{Arg, string_obj, relative_expr}

abbrev pub Str : Type 0
Str = Cmd Text (Reply Text)

-- The values of the Tcl and C library functions that the commands call on a string.
pub record StringApi : Type 0 where
  pub expr_long : Text → Option ℤ
  pub get_long : Text → Option ℤ
  pub strcoll : Text → Text → ℤ

abbrev pub one_char : Option ℕ → Reply Text
one_char none = nothing
one_char (some c) = value (c ∷ [])

-- cindex string indexExpr
unfoldable pub cindex : Text → Option ℤ → Str
cindex str none = fail bad_expr
cindex str (some (negsuc n)) = return nothing
cindex str (some (pos idx)) =
    if leb (length str) idx then return nothing else return (one_char (get_elem? str idx))

unfoldable pub cindex_cmd : StringApi → Text → Arg → Str
unfolding cindex relative_expr
cindex_cmd api str index = cindex str (relative_expr api.expr_long index (length str))

-- The length that crange and csubstr take, from the second expression; `none` is an empty result.
unfoldable pub sub_len : Bool → ℤ → ℕ → Option ℤ
sub_len true last first = if ltb_ℤ last (pos first) then none else some (last -ℤ pos first +ℤ pos 1)
sub_len false len first = some len

abbrev pub int_max : ℕ
int_max = 2 ^ 31 - 1

-- Cut to the end of the string, after a test whose sum is an int; Tcl_UtfAtIndex does not move by a
-- negative number. The sum is past an int also when `last - first + 1` of crange is.
unfoldable pub substring : Text → ℕ → Option ℤ → Str
substring str first none = return nothing
substring str first (some n) =
    if ltb_ℤ (pos int_max) (pos first +ℤ n)
    then (λ s. overflow)
    else if ltb_ℤ (pos (length str)) (pos first +ℤ n)
    then return (value (take (length str - first) (drop first str)))
    else return (value (take (pos_part n) (drop first str)))

unfoldable pub crange_from : StringApi → Bool → Text → Arg → Option ℤ → Str
unfolding relative_expr sub_len substring
crange_from api is_range str second none = fail bad_expr
crange_from api is_range str second (some (negsuc n)) = return nothing
crange_from api is_range str second (some (pos first)) =
    if leb (length str) first then return nothing else (do
      n ← need bad_expr (relative_expr api.expr_long second (length str))
      substring str first (sub_len is_range n first))

-- crange string firstExpr lastExpr, and csubstr string firstExpr lengthExpr.
unfoldable pub crange_cmd : StringApi → Bool → Text → Arg → Arg → Str
unfolding crange_from
crange_cmd api is_range str first second =
    crange_from api is_range str second (relative_expr api.expr_long first (length str))

-- clength string
unfoldable pub clength_cmd : Text → Str
clength_cmd str = return (int (pos (length str)))

-- cconcat ?string? ?string? ?...?, appended to the result in turn.
unfoldable pub cconcat_loop : Text → List Text → Text
cconcat_loop result [] = result
cconcat_loop result (s ∷ ss) = cconcat_loop (result ++ s) ss

unfoldable pub cconcat_cmd : List Text → Str
unfolding cconcat_loop
cconcat_cmd strings = return (value (cconcat_loop [] strings))

-- replicate string countExpr: the loop appends `count` times, and not at all below 1.
unfoldable pub replicate_loop : ℕ → Text → Text → Text
replicate_loop zero str result = result
replicate_loop (suc n) str result = replicate_loop n str (result ++ str)

unfoldable pub replicate_cmd : StringApi → Text → Text → Str
unfolding replicate_loop
replicate_cmd api str count = do
  n ← need bad_number (api.get_long count)
  return (value (replicate_loop (pos_part n) str []))

-- The first bytes are compared beforehand; that of an empty string is the NUL behind it.
abbrev pub first_byte : Text → ℕ
first_byte [] = 0
first_byte (c ∷ s) = c

-- cequal string1 string2; these strings are the bytes.
unfoldable pub cequal_cmd : Text → Text → Str
cequal_cmd s t = return (bool (length s == length t && first_byte s == first_byte t && text_eq s t))

-- What a C string function sees of a string: the characters before the first NUL.
unfoldable pub c_string : Text → Text
c_string [] = []
c_string (c ∷ s) = if c == 0 then [] else c ∷ c_string s

-- `strcmp`, by the first difference.
unfoldable pub strcmp : Text → Text → ℤ
strcmp [] [] = pos 0
strcmp [] (d ∷ t) = negsuc 0
strcmp (c ∷ s) [] = pos 1
strcmp (c ∷ s) (d ∷ t) = if ltb c d then negsuc 0 else if ltb d c then pos 1 else strcmp s t

abbrev pub sign : ℤ → ℤ
sign (pos zero) = pos 0
sign (pos (suc n)) = pos 1
sign (negsuc n) = negsuc 0

unfoldable pub ccollate : StringApi → Bool → Text → Text → Str
unfolding strcmp c_string
ccollate api local s t =
    if has 0 s || has 0 s
    then fail binary_data
    else return (
        int (
          sign (
            if local
            then api.strcoll (c_string s) (c_string t)
            else strcmp (c_string s) (c_string t))))

abbrev pub local_option : Text
local_option = b'-' ∷ b'l' ∷ b'o' ∷ b'c' ∷ b'a' ∷ b'l' ∷ []

-- ccollate ?-local? string1 string2; these strings are the bytes.
unfoldable pub ccollate_cmd : StringApi → List Text → Str
unfolding ccollate
ccollate_cmd api (s ∷ t ∷ []) = ccollate api false s t
ccollate_cmd api (option ∷ s ∷ t ∷ []) =
    if text_eq option local_option then ccollate api true s t else fail bad_option
ccollate_cmd api _ = fail wrong_args

-- Tcl_UtfFindFirst is not NULL: it also finds the NUL that ends the separators.
abbrev pub is_separator : Text → ℕ → Bool
is_separator separators c = has c separators || c == 0

-- The loop that finds the start of the token: past the separators.
unfoldable pub skip_separators : Text → Text → Text
skip_separators separators [] = []
skip_separators separators (c ∷ s) =
    if is_separator separators c then skip_separators separators s else c ∷ s

-- The loop that finds its end: the token and what is left.
unfoldable pub take_token : Text → Text → Text × Text
take_token separators [] = ([], [])
take_token separators (c ∷ s) =
    let (token, rest) = take_token separators s in
    if is_separator separators c then ([], c ∷ s) else (c ∷ token, rest)

-- ctoken strvar separators
unfoldable pub ctoken_cmd : Text → Text → Str
unfolding skip_separators take_token get_var set_var
ctoken_cmd strvar separators = do
  string ← get_var strvar
  let (token, rest) = take_token separators (skip_separators separators string)
  set_var strvar rest
  return (value token)
