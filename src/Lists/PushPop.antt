-- ===== src/Lists/PushPop.antt =====
-- lvarpop takes back what lvarpush put in.
use tclx.Base.{
  ℕ, zero, suc, ◌+◌, ◌≡◌, ◌≤◌, refl, Bool, true, false, Option, none, some, List, [], ◌∷◌, ◌++◌,
  Text, text_eq, text_eq_refl, if◌then◌else◌, length, get_elem?, take, drop, arith, ap, ◌∙◌,
}
use tclx.Base.Int.{ℤ, pos, negsuc}
use tclx.Tcl.{ListApi}
use tclx.Interp.{Interp, nothing, value, ok, get_var, set_var}
use tclx.Util.{Arg}
use tclx.Strings.{StringApi}
use tclx.Lists.{
  list_replace, list_index, changed, store_list, pop_found, pop_at, lvarpop_cmd, push_index,
  push_on, push_target, lvarpush_cmd,
}

-- A list with `x` put in at `i`.
abbrev insert : ℕ → Text → List Text → List Text
insert i x xs = list_replace i 0 (x ∷ []) xs

insert-suc : (i : ℕ) (x y : Text) (ys : List Text) → insert (suc i) x (y ∷ ys) ≡ y ∷ insert i x ys
unfolding list_replace
insert-suc i x y ys =
    let shift : suc i + 0 ≡ suc (i + 0) = omega arith in
    ap (λ (n : ℕ). y ∷ (take i ys ++ (x ∷ drop n (y ∷ ys)))) shift

insert-zero : (x : Text) (xs : List Text) → insert 0 x xs ≡ x ∷ xs
unfolding list_replace
insert-zero x xs = refl

get_elem?-insert :
    (i : ℕ) (x : Text) (xs : List Text) → i ≤ length xs → get_elem? (insert i x xs) i ≡ some x
get_elem?-insert zero x xs h = ap (λ l. get_elem? l 0) (insert-zero x xs)
get_elem?-insert (suc i) x [] h = absurd (omega arith)
get_elem?-insert (suc i) x (y ∷ ys) h =
    ap (λ l. get_elem? l (suc i)) (insert-suc i x y ys) ∙ get_elem?-insert i x ys (omega arith)

list_replace-suc :
    (i : ℕ) (y : Text) (ys : List Text)
    → list_replace (suc i) 1 [] (y ∷ ys) ≡ y ∷ list_replace i 1 [] ys
unfolding list_replace
list_replace-suc i y ys =
    let shift : suc i + 1 ≡ suc (i + 1) = omega arith in
    ap (λ (n : ℕ). y ∷ (take i ys ++ drop n (y ∷ ys))) shift

list_replace-zero : (y : Text) (ys : List Text) → list_replace 0 1 [] (y ∷ ys) ≡ ys
unfolding list_replace
list_replace-zero y ys = refl

list_replace-insert :
    (i : ℕ) (x : Text) (xs : List Text) → i ≤ length xs → list_replace i 1 [] (insert i x xs) ≡ xs
list_replace-insert zero x xs h =
    ap (list_replace 0 1 []) (insert-zero x xs) ∙ list_replace-zero x xs
list_replace-insert (suc i) x [] h = absurd (omega arith)
list_replace-insert (suc i) x (y ∷ ys) h =
    ap (list_replace (suc i) 1 []) (insert-suc i x y ys)
    ∙ list_replace-suc i y (insert i x ys)
    ∙ ap (λ l. y ∷ l) (list_replace-insert i x ys (omega arith))

length-insert :
    (i : ℕ) (x : Text) (xs : List Text) → i ≤ length xs → length (insert i x xs) ≡ suc (length xs)
length-insert zero x xs h = ap length (insert-zero x xs)
length-insert (suc i) x [] h = absurd (omega arith)
length-insert (suc i) x (y ∷ ys) h =
    ap length (insert-suc i x y ys) ∙ ap suc (length-insert i x ys (omega arith))

push_index-le : (z : ℤ) (n : ℕ) → push_index z n ≤ n
unfolding push_index
push_index-le (negsuc m) n = omega arith
push_index-le (pos i) n = ground arith

module _ (L : ListApi) (api : StringApi) where
  -- A variable that can be set, after a list was stored in it.
  abbrev Stored : Text → Text → Interp Text → Interp Text → Type 0
  Stored name v s s' = (s'.vars name ≡ some v) × (s'.settable name ≡ true)

  store_list-Stored :
      (shared : Bool) (name v : Text) (s : Interp Text)
      → s.settable name ≡ true
      → (s' : Interp Text) × (store_list shared name v s ≡ ok tt s') × Stored name v s s'
  unfolding store_list changed set_var
  store_list-Stored true name v s can = (
    record s { vars = λ n. if text_eq name n then some v else s.vars n },
    rw can,
    (rw text_eq_refl, can),
  )
  store_list-Stored false name v s can = (
    record s {
      vars = λ n. if text_eq name n then some v else if text_eq name n then some v else s.vars n;
    },
    rw can,
    (rw text_eq_refl, can),
  )

  lvarpush_cmd-runs :
      (shared : Bool) (name list v : Text) (xs : List Text) (index : Option Arg) (z : ℤ)
      (s : Interp Text)
      → s.vars name ≡ some list
      → L.elements list ≡ some xs
      → list_index api index (length xs) ≡ some z
      → s.settable name ≡ true
      → (s' : Interp Text) × (lvarpush_cmd L api shared name v index s ≡ ok nothing s')
        × Stored name (L.format (insert (push_index z (length xs)) v xs)) s s'
  unfolding lvarpush_cmd push_on push_target
  lvarpush_cmd-runs shared name list v xs index z s found elems at can =
      let (s', runs, stored) =
        store_list-Stored shared name (L.format (insert (push_index z (length xs)) v xs)) s can in
      (s', rw (found, elems, at, runs), stored)

  lvarpop_cmd-runs :
      (shared : Bool) (name list : Text) (xs : List Text) (index : Option Arg) (i : ℕ) (x : Text)
      (s : Interp Text)
      → s.vars name ≡ some list
      → L.elements list ≡ some xs
      → list_index api index (length xs) ≡ some (pos i)
      → get_elem? xs i ≡ some x
      → s.settable name ≡ true
      → (s' : Interp Text) × (lvarpop_cmd L api shared name index none s ≡ ok (value x) s')
        × Stored name (L.format (list_replace i 1 [] xs)) s s'
  unfolding lvarpop_cmd pop_at pop_found get_var
  lvarpop_cmd-runs shared name list xs index i x s found elems at there can =
      let (s', runs, stored) =
        store_list-Stored shared name (L.format (list_replace i 1 [] xs)) s can in
      (s', rw (found, elems, at, there, runs), stored)

  -- On a variable that can be set and holds a list, lvarpush of an element at an index that
  -- evaluates succeeds, and then lvarpop at the place it went to returns the element and leaves
  -- the list as it was, whether the objects are shared or not.
  pub lvarpop_cmd-lvarpush_cmd :
      (shared shared' : Bool) (name list v : Text) (xs : List Text) (index index' : Option Arg)
      (z : ℤ) (s : Interp Text)
      → s.vars name ≡ some list
      → L.elements list ≡ some xs
      → s.settable name ≡ true
      → list_index api index (length xs) ≡ some z
      → list_index api index' (suc (length xs)) ≡ some (pos (push_index z (length xs)))
      → (s' : Interp Text) × (s'' : Interp Text) × (lvarpush_cmd L api shared name v index s
          ≡ ok nothing s')
        × (lvarpop_cmd L api shared' name index' none s' ≡ ok (value v) s'')
        × (s''.vars name ≡ some (L.format xs))
  lvarpop_cmd-lvarpush_cmd shared shared' name list v xs index index' z s found elems can at at' =
      let i = push_index z (length xs) in
      let inside : i ≤ length xs = push_index-le z (length xs) in
      let (s', pushes, (stored, can')) =
        lvarpush_cmd-runs shared name list v xs index z s found elems at can in
      let size = length-insert i v xs inside in
      let (s'', pops, (stored', can'')) =
        lvarpop_cmd-runs shared' name (L.format (insert i v xs)) (insert i v xs) index' i v s'
          stored (L.elements-format (insert i v xs)) (ap (list_index api index') size ∙ at')
          (get_elem?-insert i v xs inside) can' in
      (
        s',
        s'',
        pushes,
        pops,
        stored' ∙ ap (λ l. some (L.format l)) (list_replace-insert i v xs inside),
      )
