-- ===== src/KeyedList/Total.antt =====
-- TclX_KeyedListSet succeeds wherever TclX_KeyedListGet has no error.
use tclx.Base.{
  ℕ, zero, suc, ◌≡◌, ◌<◌, ◌⊎◌, inl, inr, refl, sym, subst, false, Option, none, some, List, [], ◌∷◌,
  Text, length, arith,
}
use tclx.Tcl.{HashApi, ListApi}
use tclx.KeyedList.{
  Obj, plain, keyl, Entries, nil, append_entry, num_entries, KeylInt, of_int, find_index,
  start_index, linear_find, store_entry, put_value, add_entry, value_at, Status, KeyError, ok,
  break, error, no_fuel, ◌>>=◌, convert, validate_key, parse_entry, set_entries,
  set_keyed_list_from_any, split_key, set_at, set_loop, get_at, get_loop, keyed_list_get,
  keyed_list_set, new_keyed_list, dup_shared_child,
}
use tclx.KeyedList.Index.{find_index-some}
use tclx.KeyedList.Sound.{
  IsSound, RepSound, convert-RepSound, entry_at-IsSound, new_keyed_list-IsSound,
}
use tclx.KeyedList.Lookup.{value_at-entry}
use tclx.KeyedList.Paths.{split_key-length, keyed_list_get-set}

-- TCL_OK or TCL_BREAK.
abbrev pub IsClear {ℓ} : {A : Type ℓ} → Status A → Type 0
IsClear (ok a) = Unit {0}
IsClear break = Unit {0}
IsClear (error what) = ⊥
IsClear no_fuel = ⊥

-- TCL_OK or TCL_ERROR.
abbrev Answers {ℓ} : {A : Type ℓ} → Status A → Type 0
Answers (ok a) = Unit {0}
Answers break = ⊥
Answers (error what) = Unit {0}
Answers no_fuel = ⊥

Answers-cases {ℓ} :
    {A : Type ℓ} (m : Status A)
    → Answers m
    → ((a : A) × (m ≡ ok a)) ⊎ ((what : KeyError) × (m ≡ error what))
Answers-cases (ok a) h = inl (a, refl)
Answers-cases (error what) h = inr (what, refl)
Answers-cases break h = elim h [ ]
Answers-cases no_fuel h = elim h [ ]

>>=-Answers {ℓ κ} :
    {A : Type ℓ} {B : Type κ} (m : Status A) (f : A → Status B)
    → Answers m
    → ((a : A) → Answers (f a))
    → Answers (m >>= f)
>>=-Answers (ok a) f h rest = rest a
>>=-Answers (error what) f h rest = tt
>>=-Answers break f h rest = elim h [ ]
>>=-Answers no_fuel f h rest = elim h [ ]

validate_key-Answers : (k : Text) → Answers (validate_key k)
unfolding validate_key
validate_key-Answers k = ground arith

module _ (H : HashApi) (L : ListApi) where
  parse_entry-Answers : (o : Option (List Text)) → Answers (parse_entry H L o)
  unfolding parse_entry
  parse_entry-Answers none = tt
  parse_entry-Answers (some []) = tt
  parse_entry-Answers (some (k ∷ [])) = tt
  parse_entry-Answers (some (k ∷ v ∷ w ∷ r)) = tt
  parse_entry-Answers (some (k ∷ v ∷ [])) =
      >>=-Answers (validate_key k) _ (validate_key-Answers k) λ u. ground arith

  set_entries-Answers :
      (elems : List Text) (es : Entries H.Table) (t : H.Table)
      → Answers (set_entries H L elems es t)
  unfolding set_entries
  set_entries-Answers [] es t = tt
  set_entries-Answers (e ∷ elems) es t =
      >>=-Answers (parse_entry H L (L.elements e)) _ (parse_entry-Answers (L.elements e)) λ kv.
        set_entries-Answers elems (append_entry es kv.0 (plain kv.1))
          (H.set kv.0 (num_entries es) t)

  from_any-Answers : (o : Option (List Text)) → Answers (set_keyed_list_from_any H L o)
  unfolding set_keyed_list_from_any
  from_any-Answers none = tt
  from_any-Answers (some elems) =
      >>=-Answers (set_entries H L elems nil H.empty) _ (set_entries-Answers elems nil H.empty)
        λ a. tt

  convert-Answers : (obj : Obj H.Table) → Answers (convert H L obj)
  unfolding convert
  convert-Answers (plain s) = from_any-Answers (L.elements s)
  convert-Answers (keyl n t es) = tt

  -- In a new keyed list nothing is found.
  get_loop-new : (f : ℕ) (key : Text) → get_loop H L (suc f) (new_keyed_list H L) key ≡ break
  unfolding get_loop new_keyed_list convert get_at find_index start_index linear_find num_entries
  get_loop-new f key = rw (H.find-empty (split_key key).0)

  module _ (value : Obj H.Table) where
    abbrev Sets : ℕ → Obj H.Table → Text → Type 0
    Sets f obj key = (o' : Obj H.Table) × (set_loop H L f (λ i. false) value obj key ≡ ok o')

    set_at-Sets :
        (f : ℕ) (r : KeylInt H L) (k : Text) (next : Option Text) (found : Option ℕ)
        → RepSound H L r
        → find_index H L r k ≡ found
        → ((sub : Text) → next ≡ some sub → length sub < f)
        → ((sub : Text) (o : Obj H.Table)
            → length sub < f
            → IsSound H L o
            → IsClear (get_loop H L f o sub)
            → Sets f o sub)
        → IsClear (get_at H L (get_loop H L f) r next found)
        → (o' : Obj H.Table) × (set_at H L
              (set_loop H L f (λ i. false) value)
              false
              r
              k
              value
              next
              found
            ≡ ok o')
    unfolding set_at get_at dup_shared_child
    set_at-Sets f r k none found s e short rec clear =
        (of_int H L (store_entry H L r found k value), refl)
    set_at-Sets f r k (some sub) (some i) s e short rec clear =
        let (v, at) = find_index-some H L r k s.0 e in
        let got : value_at H L r i ≡ ok v = value_at-entry H L r i at in
        let (child, sets) =
          rec sub v (short sub refl) (entry_at-IsSound H L r.entries i s.1 at) (rw got at clear) in
        (of_int H L (put_value H L r i child), rw (got, sets))
    set_at-Sets zero r k (some sub) none s e short rec clear =
        absurd (omega (arith, short sub refl))
    set_at-Sets (suc f) r k (some sub) none s e short rec clear =
        let (child, sets) =
          rec sub (new_keyed_list H L) (short sub refl) (new_keyed_list-IsSound H L)
            (subst IsClear (sym (get_loop-new f sub)) tt) in
        (of_int H L (add_entry H L r k child), rw sets)

    set_loop-Sets :
        (f : ℕ) (obj : Obj H.Table) (key : Text)
        → length key < f
        → IsSound H L obj
        → IsClear (get_loop H L f obj key)
        → Sets f obj key
    unfolding set_loop get_loop
    set_loop-Sets zero obj key h s clear = absurd (omega arith)
    set_loop-Sets (suc f) obj key h s clear =
        elim (Answers-cases (convert H L obj) (convert-Answers obj)) [
          | inl (r, conv) ↦
              let (o', sets) =
                set_at-Sets f r (split_key key).0 (split_key key).1
                  (find_index H L r (split_key key).0) (convert-RepSound H L obj s conv) refl
                  (λ sub q. omega (arith, split_key-length key sub q))
                  (λ sub o short sound. set_loop-Sets f o sub short sound) (rw conv at clear) in
              (o', rw conv sets)
          | inr (what, conv) ↦ absurd (rw conv at clear)
        ]

  -- On a sound keyed list in which no child is shared, wherever TclX_KeyedListGet finds the
  -- keypath or breaks without an error, TclX_KeyedListSet succeeds, and the value set is what
  -- TclX_KeyedListGet then gets.
  pub keyed_list_set-IsClear :
      (obj value : Obj H.Table) (key : Text)
      → IsSound H L obj
      → IsClear (keyed_list_get H L obj key)
      → (o' : Obj H.Table) × (keyed_list_set H L (λ i. false) obj key value ≡ ok o')
        × (keyed_list_get H L o' key ≡ ok value)
  unfolding keyed_list_set keyed_list_get
  keyed_list_set-IsClear obj value key s clear =
      let (o', sets) = set_loop-Sets value (suc (length key)) obj key (omega arith) s clear in
      (o', sets, keyed_list_get-set H L (λ i. false) obj value key s sets)
