-- ===== src/Examples/Strings.antt =====
-- The theorems on the character commands, at the strings abc and "- ab-c".
use tclx.Base.{
  Option, Bool, ℕ, ◌≡◌, refl, true, false, none, some, [], ◌∷◌, not, ◌&&◌, ◌==◌, Text, text_eq,
  length, leb, if◌then◌else◌,
}
use tclx.Base.Int.{pos}
use tclx.Libc.{decimal}
use tclx.Strings.Ctype.{ctype_test}
use tclx.Strings.Ctype.Scan.{FirstFail, supported, ctype_test-FirstFail}
use tclx.Interp.{Interp, value, bool, ok, error, unicode_data, from_too_long}
use tclx.Util.{Arg, int_obj, relative_expr}
use tclx.Strings.{StringApi, ctoken_cmd}
use tclx.Strings.Token.{Splits, ctoken_cmd-Splits}
use tclx.Strings.Translit.{translit, translit_lem, partners, check_for_unicode}

abbrev abc : Text
abc = b'a' ∷ b'b' ∷ b'c' ∷ []

abbrev abd : Text
abd = b'a' ∷ b'b' ∷ b'd' ∷ []

-- "- ab-c"
abbrev tokens : Text
tokens = b'-' ∷ b' ' ∷ b'a' ∷ b'b' ∷ b'-' ∷ b'c' ∷ []

abbrev separators : Text
separators = b' ' ∷ b'-' ∷ []

abbrev name : Text
name = b'v' ∷ []

abbrev interp : Interp Text
interp = record { vars = λ n. if text_eq name n then some tokens else none; settable = λ n. true }

-- Every expression is 3, and every two strings collate alike.
abbrev constant : StringApi
constant = record {
  expr_long = λ e. some (pos 3);
  get_long = λ s. some (pos 3);
  strcoll = λ s t. pos 0;
}

abbrev at : ℕ → Arg
at i = int_obj (some (pos i))

at-relative : (i : ℕ) (len : ℕ) → relative_expr constant.expr_long (at i) len ≡ some (pos i)
unfolding relative_expr
at-relative i len = refl

ctoken_cmd-Splits_example :
    (token : Text) × (rest : Text) × (s' : Interp Text) × (ctoken_cmd name separators interp
      ≡ ok (value token) s')
    × (s'.vars name ≡ some rest)
    × Splits separators tokens token rest
ctoken_cmd-Splits_example = ctoken_cmd-Splits name separators tokens interp refl refl

translit_lem_example : translit abc abd tokens interp ≡ (
    if leb (length abc) (length abd)
    then if check_for_unicode tokens
      then ok (value (partners abc abd tokens)) interp
      else error unicode_data interp
    else error from_too_long interp)
translit_lem_example = translit_lem abc abd tokens interp

abc-ascii : check_for_unicode abc ≡ true
unfolding check_for_unicode
abc-ascii = refl

-- The class of the letters a and b.
abbrev a_or_b : ℕ → Option Bool
a_or_b c = some (leb c b'b')

ab_supported : supported a_or_b abc ≡ true
unfolding supported
ab_supported = refl

ctype_test-FirstFail_example :
    (i : ℕ) × (s' : Interp Text) × FirstFail a_or_b abc i
    × (ctype_test (some name) abc (some a_or_b) interp
        ≡ ok (bool (not (i == 0) && i == length abc)) s')
    × ((not (i == 0) && i == length abc) ≡ false → s'.vars name ≡ some (decimal i))
ctype_test-FirstFail_example = ctype_test-FirstFail a_or_b name abc interp ab_supported refl
