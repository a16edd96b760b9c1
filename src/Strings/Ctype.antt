-- ===== src/Strings/Ctype.antt =====
-- generic/tclXstring.c: ctype. A string is the list of its characters.
pub mod Scan
use tclx.Base.{
  ℕ, zero, suc, Bool, true, false, not, ◌&&◌, Option, none, some, List, [], ◌∷◌, Text, text_eq, ltb,
  leb, ◌==◌, if◌then◌else◌, length,
}
use tclx.Base.Int.{ℤ, pos}
use tclx.Libc.{decimal}
use tclx.Interp.{
  Interp, Reply, value, bool, int, wrong_args, bad_number, bad_option, bad_class, bad_fail_index,
  unicode_data, Outcome, Cmd, return, fail, need, ◌>>=◌, ◌>>◌, set_var,
}
use tclx.Strings.{Str, first_byte}

-- The character tests of the Tcl library, those of the C library in the current locale, and two
-- conversions of the Tcl library.
pub record CtypeApi : Type 0 where
  pub uni_is_alnum : ℕ → Bool
  pub uni_is_alpha : ℕ → Bool
  pub uni_is_digit : ℕ → Bool
  pub uni_is_lower : ℕ → Bool
  pub uni_is_space : ℕ → Bool
  pub uni_is_upper : ℕ → Bool
  pub isascii : ℕ → Bool
  pub iscntrl : ℕ → Bool
  pub isgraph : ℕ → Bool
  pub isprint : ℕ → Bool
  pub ispunct : ℕ → Bool
  pub isxdigit : ℕ → Bool
  pub get_int : Text → Option ℤ
  pub uni_char_to_utf : ℤ → Text

-- What the loop of a class does at a character: go on, break, or `none` for "not supported".
unfoldable pub any_char : (ℕ → Bool) → ℕ → Option Bool
any_char test c = some (test c)

unfoldable pub only_8bit : (ℕ → Bool) → ℕ → Option Bool
only_8bit test c = some (leb c 255 && test c)

unfoldable pub needs_8bit : (ℕ → Bool) → ℕ → Option Bool
needs_8bit test c = if leb c 255 then some (test c) else none

unfoldable pub class_test : CtypeApi → Text → Option (ℕ → Option Bool)
unfolding any_char only_8bit needs_8bit
class_test api word =
    if text_eq word (b'a' ∷ b'l' ∷ b'n' ∷ b'u' ∷ b'm' ∷ [])
    then some (any_char api.uni_is_alnum)
    else if text_eq word (b'a' ∷ b'l' ∷ b'p' ∷ b'h' ∷ b'a' ∷ [])
    then some (any_char api.uni_is_alpha)
    else if text_eq word (b'a' ∷ b's' ∷ b'c' ∷ b'i' ∷ b'i' ∷ [])
    then some (only_8bit api.isascii)
    else if text_eq word (b'c' ∷ b'n' ∷ b't' ∷ b'r' ∷ b'l' ∷ [])
    then some (only_8bit api.iscntrl)
    else if text_eq word (b'd' ∷ b'i' ∷ b'g' ∷ b'i' ∷ b't' ∷ [])
    then some (any_char api.uni_is_digit)
    else if text_eq word (b'g' ∷ b'r' ∷ b'a' ∷ b'p' ∷ b'h' ∷ [])
    then some (needs_8bit api.isgraph)
    else if text_eq word (b'l' ∷ b'o' ∷ b'w' ∷ b'e' ∷ b'r' ∷ [])
    then some (any_char api.uni_is_lower)
    else if text_eq word (b'p' ∷ b'r' ∷ b'i' ∷ b'n' ∷ b't' ∷ [])
    then some (needs_8bit api.isprint)
    else if text_eq word (b'p' ∷ b'u' ∷ b'n' ∷ b'c' ∷ b't' ∷ [])
    then some (needs_8bit api.ispunct)
    else if text_eq word (b's' ∷ b'p' ∷ b'a' ∷ b'c' ∷ b'e' ∷ [])
    then some (any_char api.uni_is_space)
    else if text_eq word (b'u' ∷ b'p' ∷ b'p' ∷ b'e' ∷ b'r' ∷ [])
    then some (any_char api.uni_is_upper)
    else if text_eq word (b'x' ∷ b'd' ∷ b'i' ∷ b'g' ∷ b'i' ∷ b't' ∷ [])
    then some (needs_8bit api.isxdigit)
    else none

-- The loop from index `idx` on: the index where it ends.
unfoldable pub class_loop : (ℕ → Option Bool) → ℕ → Text → Option ℕ
class_loop test idx [] = some idx
class_loop test idx (c ∷ str) =
    let rest = class_loop test (suc idx) str in
    elim (test c) [ none ↦ none | some b ↦ if b then rest else some idx ]

unfoldable pub fail_reply : Option Text → ℕ → Str
unfolding set_var
fail_reply none idx = return (bool false)
fail_reply (some fail_var) idx = set_var fail_var (decimal idx) >> return (bool false)

-- False for an empty string.
unfoldable pub class_reply : Option Text → ℕ → ℕ → Str
unfolding fail_reply
class_reply fail_var str_len idx =
    if not (idx == 0) && idx == str_len then return (bool true) else fail_reply fail_var idx

unfoldable pub ctype_test : Option Text → Text → Option (ℕ → Option Bool) → Str
unfolding class_loop class_reply
ctype_test fail_var str none = fail bad_class
ctype_test fail_var str (some test) =
    need unicode_data (class_loop test 0 str) >>= class_reply fail_var (length str)

unfoldable pub ctype_char : CtypeApi → Option Text → Text → Str
ctype_char api (some fail_var) str = fail bad_fail_index
ctype_char api none str = do
  number ← need bad_number (api.get_int str)
  return (value (api.uni_char_to_utf number))

-- The character of an empty string is the NUL behind it.
unfoldable pub ctype_ord : Option Text → Text → Str
ctype_ord (some fail_var) str = fail bad_fail_index
ctype_ord none str = return (int (pos (first_byte str)))

unfoldable pub ctype_class : CtypeApi → Option Text → Text → Text → Str
unfolding ctype_char ctype_ord ctype_test class_test
ctype_class api fail_var word str =
    if text_eq word (b'c' ∷ b'h' ∷ b'a' ∷ b'r' ∷ [])
    then ctype_char api fail_var str
    else if text_eq word (b'o' ∷ b'r' ∷ b'd' ∷ [])
    then ctype_ord fail_var str
    else ctype_test fail_var str (class_test api word)

abbrev pub failindex_option : Text
failindex_option = b'-' ∷ b'f' ∷ b'a' ∷ b'i' ∷ b'l' ∷ b'i' ∷ b'n' ∷ b'd' ∷ b'e' ∷ b'x' ∷ []

unfoldable pub ctype_args : CtypeApi → Bool → Text → Text → List Text → Str
unfolding ctype_class
ctype_args api true option fail_var (word ∷ str ∷ []) = ctype_class api (some fail_var) word str
ctype_args api false word str [] = ctype_class api none word str
ctype_args api _ _ _ _ = fail wrong_args

-- ctype ?-failindex var? class string
unfoldable pub ctype_cmd : CtypeApi → List Text → Str
unfolding ctype_args
ctype_cmd api (opt ∷ arg ∷ args) =
    if not (first_byte opt == b'-')
    then ctype_args api false opt arg args
    else if text_eq opt failindex_option
    then ctype_args api true opt arg args
    else fail bad_option
ctype_cmd api _ = fail wrong_args
