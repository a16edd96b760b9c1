-- ===== src/Examples/Lists.antt =====
-- The theorems on list variables, at a list of two elements.
use tclx.Base.{
  ◌++◌, drop, length, get_elem?, false, ℕ, ◌≡◌, refl, true, false, Option, none, some, List, [],
  ◌∷◌, Text, text_eq, if◌then◌else◌,
}
use tclx.Base.Int.{pos}
use tclx.Examples.Tables.{lists, format}
use tclx.Interp.{Interp, nothing, value, ok}
use tclx.Util.{Arg, int_obj, relative_expr}
use tclx.Strings.{StringApi}
use tclx.Lists.{lvarpop_cmd, lvarpush_cmd, list_index, push_index}
use tclx.Lists.Search.{MatchApi, lassign_cmd, remaining, lcontain_loop}
use tclx.Lists.Assign.{or_empty, lassign_cmd-assigns}
use tclx.Lists.PushPop.{lvarpop_cmd-lvarpush_cmd}

abbrev name : Text
name = b'v' ∷ []

abbrev pair : List Text
pair = (b'a' ∷ []) ∷ (b'b' ∷ []) ∷ []

abbrev interp : Interp Text
interp = record {
  vars = λ n. if text_eq name n then some (format pair) else none;
  settable = λ n. true;
}

abbrev no_calls : StringApi
no_calls = record { expr_long = λ e. none; get_long = λ s. none; strcoll = λ s t. pos 0 }

abbrev at_1 : Option Arg
at_1 = some (int_obj (some (pos 1)))

index_1 : (len : ℕ) → list_index no_calls at_1 len ≡ some (pos 1)
unfolding list_index relative_expr
index_1 len = refl

pushed_1 : list_index no_calls at_1 3 ≡ some (pos (push_index (pos 1) 2))
unfolding list_index relative_expr push_index
pushed_1 = refl

lvarpop_cmd-lvarpush_cmd_example :
    (s' : Interp Text) × (s'' : Interp Text) × (lvarpush_cmd lists no_calls true name name at_1
        interp
      ≡ ok nothing s')
    × (lvarpop_cmd lists no_calls false name at_1 none s' ≡ ok (value name) s'')
    × (s''.vars name ≡ some (format pair))
lvarpop_cmd-lvarpush_cmd_example =
    lvarpop_cmd-lvarpush_cmd lists no_calls true false name (format pair) name pair at_1 at_1
      (pos 1) interp refl refl refl (index_1 2) pushed_1

abbrev match_api : MatchApi
match_api = record {
  string_match = text_eq;
  reg_exp_match = λ v p. some (text_eq v p);
  concat = λ vs. [];
}

lassign_cmd-assigns_example :
    (s' : Interp Text) × (lassign_cmd lists (format pair) (name ∷ []) interp
      ≡ ok (remaining (drop 1 pair)) s')
    × ((front back : List Text) (n : Text)
        → name ∷ [] ≡ front ++ n ∷ back
        → lcontain_loop n back ≡ false
        → s'.vars n ≡ some (or_empty (get_elem? pair (length front))))
    × ((n : Text) → lcontain_loop n (name ∷ []) ≡ false → s'.vars n ≡ interp.vars n)
lassign_cmd-assigns_example =
    lassign_cmd-assigns lists (format pair) name [] pair interp refl (λ n. refl)
