-- ===== src/Strings/Token.antt =====
-- generic/tclXstring.c: ctoken takes the first token of the string in a variable.
use tclx.Base.{
  ◌≡◌, refl, Bool, true, not, ◌&&◌, some, [], ◌∷◌, ◌++◌, Text, text_eq, text_eq_refl, if◌then◌else◌,
  arith, ap, ◌∙◌, inl, inr, Bool-cases,
}
use tclx.Interp.{Interp, value, ok, get_var, set_var}
use tclx.Strings.{is_separator, skip_separators, take_token, ctoken_cmd}

-- All characters of a text are separators or NUL, or none is.
unfoldable pub all_in : Text → Text → Bool
all_in separators [] = true
all_in separators (c ∷ s) = is_separator separators c && all_in separators s

unfoldable pub none_in : Text → Text → Bool
none_in separators [] = true
none_in separators (c ∷ s) = not (is_separator separators c) && none_in separators s

-- A text that is empty or starts with a separator.
unfoldable pub starts_in : Text → Text → Bool
starts_in separators [] = true
starts_in separators (c ∷ s) = is_separator separators c

unfoldable pub starts_out : Text → Text → Bool
starts_out separators [] = true
starts_out separators (c ∷ s) = not (is_separator separators c)

-- How a string splits: separators, the token, and the rest; the token is as long as can be, and
-- empty only when nothing but separators is there.
pub record Splits (separators string token rest : Text) : Type 0 where
  pub lead : Text
  pub parts : string ≡ lead ++ (token ++ rest)
  pub lead_in : all_in separators lead ≡ true
  pub token_out : none_in separators token ≡ true
  pub rest_in : starts_in separators rest ≡ true
  pub nonempty : token ≡ [] → rest ≡ []

take_token-parts :
    (separators s : Text)
    → (s ≡ (take_token separators s).0 ++ (take_token separators s).1)
      × (none_in separators (take_token separators s).0 ≡ true)
      × (starts_in separators (take_token separators s).1 ≡ true)
unfolding take_token none_in starts_in
take_token-parts separators [] = (refl, refl, refl)
take_token-parts separators (c ∷ s) =
    let (whole, out, at) = take_token-parts separators s in
    elim (Bool-cases (is_separator separators c)) [
      | inl yes' ↦ (rw yes', rw yes', rw yes' yes')
      | inr no' ↦ (rw no' (ap (λ r. c ∷ r) whole), ground arith, ground arith)
    ]

skip_separators-parts :
    (separators s : Text)
    → (lead : Text) × (s ≡ lead ++ skip_separators separators s)
      × (all_in separators lead ≡ true)
      × (starts_out separators (skip_separators separators s) ≡ true)
unfolding skip_separators all_in starts_out
skip_separators-parts separators [] = ([], refl, refl, refl)
skip_separators-parts separators (c ∷ s) =
    let (lead, whole, all, out) = skip_separators-parts separators s in
    elim (Bool-cases (is_separator separators c)) [
      | inl yes' ↦ (c ∷ lead, rw yes' (ap (λ r. c ∷ r) whole), rw yes' all, rw yes' out)
      | inr no' ↦ ([], rw no', refl, rw no' (ground arith))
    ]

take_token-nonempty :
    (separators s : Text)
    → starts_out separators s ≡ true
    → (take_token separators s).0 ≡ []
    → (take_token separators s).1 ≡ []
unfolding take_token starts_out
take_token-nonempty separators [] h e = refl
take_token-nonempty separators (c ∷ s) h e = ground arith

split_lem :
    (separators s : Text)
    → Splits separators s
        (take_token separators (skip_separators separators s)).0
        (take_token separators (skip_separators separators s)).1
split_lem separators s =
    let (lead, whole, all, out) = skip_separators-parts separators s in
    let (parts, token_out, rest_in) = take_token-parts separators (skip_separators separators s) in
    record {
      lead = lead;
      parts = whole ∙ ap (λ r. lead ++ r) parts;
      lead_in = all;
      token_out = token_out;
      rest_in = rest_in;
      nonempty = take_token-nonempty separators (skip_separators separators s) out;
    }

-- On a variable that is set and can be set, ctoken returns the token and stores the rest, where a
-- NUL counts as a separator: the string is separators, the token without separators, and a rest
-- that is empty or starts with one; an empty token leaves an empty rest.
pub ctoken_cmd-Splits :
    (strvar separators string : Text) (s : Interp Text)
    → s.vars strvar ≡ some string
    → s.settable strvar ≡ true
    → (token : Text) × (rest : Text) × (s' : Interp Text) × (ctoken_cmd strvar separators s
        ≡ ok (value token) s')
      × (s'.vars strvar ≡ some rest)
      × Splits separators string token rest
unfolding ctoken_cmd get_var set_var
ctoken_cmd-Splits strvar separators string s set can = (
  (take_token separators (skip_separators separators string)).0,
  (take_token separators (skip_separators separators string)).1,
  record s {
    vars = λ n.
        if text_eq strvar n
        then some (take_token separators (skip_separators separators string)).1
        else s.vars n;
  },
  rw (set, can),
  rw text_eq_refl,
  split_lem separators string,
)
