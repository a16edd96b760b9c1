-- ===== src/Lists.antt =====
-- generic/tclXlist.c: lvarpop and lvarpush. A variable holds the string of a list; `shared` says
-- whether its object is shared, and if not a change is made in place.
pub mod PushPop
pub mod Search
pub mod Assign
use tclx.Base.{
  ℕ, zero, suc, ◌+◌, Bool, true, false, Option, none, some, List, [], ◌∷◌, ◌++◌, Text, text_eq, ltb,
  if◌then◌else◌, length, get_elem?, take, drop,
}
use tclx.Base.Int.{ℤ, pos, negsuc}
use tclx.Tcl.{ListApi}
use tclx.Interp.{
  Interp, Reply, nothing, value, bad_expr, bad_list, Outcome, Cmd, return, need, ◌>>=◌, ◌>>◌,
  get_var, set_var,
}
use tclx.Util.{Arg, relative_expr}
use tclx.Strings.{Str, StringApi}

-- Tcl_ListObjReplace: `count` elements from `first` on are replaced by `new`.
unfoldable pub list_replace {ℓ} : {A : Type ℓ} → ℕ → ℕ → List A → List A → List A
list_replace first count new xs = take first xs ++ (new ++ drop (first + count) xs)

-- Without an index expression the index is 0.
unfoldable pub list_index : StringApi → Option Arg → ℕ → Option ℤ
unfolding relative_expr
list_index api none list_len = some (pos 0)
list_index api (some e) list_len = relative_expr api.expr_long e list_len

-- The variable before it is stored, when its object was changed in place.
unfoldable pub changed : Bool → Text → Text → Interp Text → Interp Text
changed true name v s = s
changed false name v s = record s { vars = λ n. if text_eq name n then some v else s.vars n }

unfoldable pub store_list : Bool → Text → Text → Cmd Text (Unit {0})
unfolding changed set_var
store_list shared name v s = set_var name v (changed shared name v s)

-- What replaces the element that is taken.
abbrev pub replacement : Option Text → List Text
replacement none = []
replacement (some v) = v ∷ []

-- An index out of bounds goes to the start or the end.
unfoldable pub push_index : ℤ → ℕ → ℕ
push_index (negsuc n) list_len = 0
push_index (pos i) list_len = if ltb list_len i then list_len else i

module _ (L : ListApi) (api : StringApi) where
  unfoldable pub pop_found : Bool → Text → Option Text → List Text → ℕ → Option Text → Str
  unfolding store_list list_replace
  pop_found shared name new xs i none = return nothing
  pop_found shared name new xs i (some x) =
      store_list shared name (L.format (list_replace i 1 (replacement new) xs)) >> return (value x)

  unfoldable pub pop_at : Bool → Text → Option Text → List Text → ℤ → Str
  unfolding pop_found
  pop_at shared name new xs (negsuc n) = return nothing
  pop_at shared name new xs (pos i) = pop_found shared name new xs i (get_elem? xs i)

  -- lvarpop var ?indexExpr? ?string?
  unfoldable pub lvarpop_cmd : Bool → Text → Option Arg → Option Text → Str
  unfolding get_var list_index pop_at
  lvarpop_cmd shared name index new = do
    list ← get_var name
    xs ← need bad_list (L.elements list)
    i ← need bad_expr (list_index api index (length xs))
    pop_at shared name new xs i

  unfoldable pub push_on : Bool → Text → Text → Option Arg → Option (List Text) → Str
  unfolding list_index push_index store_list list_replace
  push_on shared name v index elems = do
    xs ← need bad_list elems
    i ← need bad_expr (list_index api index (length xs))
    store_list shared name (L.format (list_replace (push_index i (length xs)) 0 (v ∷ []) xs))
    return nothing

  unfoldable pub push_target : Bool → Option Text → Bool × Option (List Text)
  push_target shared none = (true, some [])
  push_target shared (some list) = (shared, L.elements list)

  -- lvarpush var string ?indexExpr?
  unfoldable pub lvarpush_cmd : Bool → Text → Text → Option Arg → Str
  unfolding push_on push_target
  lvarpush_cmd shared name v index s =
      let (shared', elems) = push_target shared (s.vars name) in
      push_on shared' name v index elems s
