-- ===== src/Lists/Search.antt =====
-- lempty, lcontain, lmatch, lassign and lvarcat.
pub mod Match
use tclx.Base.{
  ◌⊎◌, inl, inr, ℕ, Bool, true, false, not, ◌&&◌, ◌||◌, ◌==◌, Option, none, some, List, [], ◌∷◌,
  ◌++◌, Text, text, text_eq, if◌then◌else◌,
}
use tclx.Tcl.{ListApi}
use tclx.Interp.{
  Interp, Reply, nothing, value, bool, elements, bad_list, bad_option, binary_data, bad_expr,
  wrong_args, Outcome, Cmd, return, fail, need, ◌>>=◌, ◌>>◌, set_var,
}
use tclx.Strings.{Str}

-- Tcl_StringMatch, Tcl_RegExpMatch (`none` is a bad expression) and Tcl_ConcatObj.
pub record MatchApi : Type 0 where
  pub string_match : Text → Text → Bool
  pub reg_exp_match : Text → Text → Option Bool
  pub concat : List Text → Text

pub data MatchMode : Type 0 where
  exact glob regexp : MatchMode

-- A length that strlen does not find is that of a text with a NUL.
abbrev pub has_nul : Text → Bool
has_nul [] = false
has_nul (c ∷ s) = c == 0 || has_nul s

-- What one element gives: a match or not, binary data, or a bad expression.
pub data Matched : Type 0 where
  matches : Bool → Matched
  binary bad_pattern : Matched

abbrev of_reg_exp : Option Bool → Matched
of_reg_exp none = bad_pattern
of_reg_exp (some b) = matches b

unfoldable pub match_one : MatchApi → MatchMode → Text → Text → Matched
match_one api exact pattern v = matches (text_eq v pattern)
match_one api glob pattern v = if has_nul v then binary else matches (api.string_match v pattern)
match_one api regexp pattern v =
    if has_nul v then binary else of_reg_exp (api.reg_exp_match v pattern)

-- The list of the matches with one more element, or the error.
abbrev pub put : Bool → Text → Matched ⊎ List Text → Matched ⊎ List Text
put b v (inl e) = inl e
put b v (inr vs) = inr (if b then v ∷ vs else vs)

abbrev pub match_next : Text → Matched → Matched ⊎ List Text → Matched ⊎ List Text
match_next v (matches b) rest = put b v rest
match_next v binary rest = inl binary
match_next v bad_pattern rest = inl bad_pattern

-- The loop of lmatch, with the elements that matched or the error.
unfoldable pub match_loop : MatchApi → MatchMode → Text → List Text → Matched ⊎ List Text
unfolding match_one
match_loop api mode pattern [] = inr []
match_loop api mode pattern (v ∷ vs) =
    match_next v (match_one api mode pattern v) (match_loop api mode pattern vs)

unfoldable pub match_mode : Option Text → Option MatchMode
match_mode none = some glob
match_mode (some word) =
    if text_eq word (text "-exact")
    then some exact
    else if text_eq word (text "-glob")
    then some glob
    else if text_eq word (text "-regexp")
    then some regexp
    else none

abbrev is_exact : MatchMode → Bool
is_exact exact = true
is_exact glob = false
is_exact regexp = false

-- The result is left empty if nothing matches.
unfoldable pub match_reply : Matched ⊎ List Text → Str
match_reply (inl (matches b)) = return nothing
match_reply (inl binary) = fail binary_data
match_reply (inl bad_pattern) = fail bad_expr
match_reply (inr []) = return nothing
match_reply (inr (v ∷ vs)) = return (elements (v ∷ vs))

unfoldable pub lcontain_loop : Text → List Text → Bool
lcontain_loop check [] = false
lcontain_loop check (v ∷ vs) =
    let rest = lcontain_loop check vs in if text_eq v check then true else rest

-- The loop of lassign: the names left get the elements left, and then empty strings.
unfoldable pub assign_loop : List Text → List Text → Cmd Text (List Text)
unfolding set_var
assign_loop [] vs = return vs
assign_loop (name ∷ names) [] = set_var name [] >> assign_loop names []
assign_loop (name ∷ names) (v ∷ vs) = set_var name v >> assign_loop names vs

abbrev pub remaining : List Text → Reply Text
remaining [] = nothing
remaining (v ∷ vs) = elements (v ∷ vs)

module _ (L : ListApi) where
  -- A string that is no list is not empty.
  unfoldable pub lempty_cmd : Text → Str
  lempty_cmd list = elim (L.elements list) [
    | none ↦ return (bool false)
    | some vs ↦ elim vs [ [] ↦ return (bool true) | v ∷ vs' ↦ return (bool false) ]
  ]

  unfoldable pub lcontain_cmd : Text → Text → Str
  unfolding lcontain_loop
  lcontain_cmd list element =
      need bad_list (L.elements list) >>= λ vs. return (bool (lcontain_loop element vs))

  -- lmatch ?mode? list pattern
  unfoldable pub lmatch_cmd : MatchApi → Option Text → Text → Text → Str
  unfolding match_mode match_loop match_reply
  lmatch_cmd api word list pattern = do
    mode ← need bad_option (match_mode word)
    vs ← need bad_list (L.elements list)
    if not (is_exact mode) && has_nul pattern
        then fail binary_data
        else match_reply (match_loop api mode pattern vs)

  -- lassign list varname ?varname ...?
  unfoldable pub lassign_cmd : Text → List Text → Str
  unfolding assign_loop
  lassign_cmd list [] = fail wrong_args
  lassign_cmd list (name ∷ names) = do
    vs ← need bad_list (L.elements list)
    rest ← assign_loop (name ∷ names) vs
    return (remaining rest)

abbrev with_variable : Option Text → List Text → List Text
with_variable none words = words
with_variable (some v) words = v ∷ words

-- lvarcat var string ?string ...?
unfoldable pub lvarcat_cmd : MatchApi → Text → List Text → Str
unfolding set_var
lvarcat_cmd api name [] s = fail wrong_args s
lvarcat_cmd api name (w ∷ words) s =
    let joined = api.concat (with_variable (s.vars name) (w ∷ words)) in
    (set_var name joined >> return (value joined)) s
