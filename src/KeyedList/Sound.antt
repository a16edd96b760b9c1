-- ===== src/KeyedList/Sound.antt =====
-- Every keyed list, at every depth, has its hash table in step with its entries.
pub mod Operations
use tclx.Base.{
  ℕ, zero, suc, ◌≡◌, refl, sym, Bool, true, false, Option, none, some, List, [], ◌∷◌, Text, length,
  arith, subst,
}
use tclx.Tcl.{HashApi, ListApi}
use tclx.KeyedList.{
  Obj, plain, keyl, Entries, nil, cons, num_entries, entry_at, put_at, append_entry, remove_at,
  ensure_space, value_of, KeylInt, find_index, hash_set, delete_entry, add_entry, store_entry,
  put_value, split_key, keyed_list_set, keyed_list_delete, value_at, Status, ok, break, error,
  no_fuel, ◌>>=◌, convert, set_keyed_list_from_any, set_entries, parse_entry, set_at, set_loop,
  delete_at, delete_loop, drop_empty, new_keyed_list, duplicate, duplicate_entries,
  dup_shared_child,
}
use tclx.KeyedList.Index.{
  HashOk, add_entry-HashOk, put_at-HashOk, delete_entry-HashOk, find_index-some, delete_entry-some,
  put_value-some, put_value-HashOk,
}

module _ (H : HashApi) (L : ListApi) where
  abbrev mutual
    pub IsSound : Obj H.Table → Type 0
    IsSound (plain s) = Unit {0}
    IsSound (keyl n h es) =
        HashOk H L (record { array_size = n; hash = h; entries = es }) × AllSound es

    pub AllSound : Entries H.Table → Type 0
    AllSound nil = Unit {0}
    AllSound (cons k v es) = IsSound v × AllSound es

  pub entry_at-IsSound :
      (es : Entries H.Table) (i : ℕ) {k : Text} {v : Obj H.Table}
      → AllSound es
      → entry_at es i ≡ some (k, v)
      → IsSound v
  unfolding entry_at
  entry_at-IsSound nil i s h = cc
  entry_at-IsSound (cons k v es) zero s h = subst IsSound (cc) s.0
  entry_at-IsSound (cons k v es) (suc i) s h = entry_at-IsSound es i s.1 h

  append_entry-AllSound :
      (es : Entries H.Table) (k : Text) (v : Obj H.Table)
      → AllSound es
      → IsSound v
      → AllSound (append_entry es k v)
  unfolding append_entry
  append_entry-AllSound nil k v s h = (h, tt)
  append_entry-AllSound (cons l w es) k v s h = (s.0, append_entry-AllSound es k v s.1 h)

  put_at-AllSound :
      (es : Entries H.Table) (i : ℕ) (k : Text) (v : Obj H.Table)
      → AllSound es
      → IsSound v
      → AllSound (put_at es i k v)
  unfolding put_at
  put_at-AllSound nil i k v s h = tt
  put_at-AllSound (cons l w es) zero k v s h = (h, s.1)
  put_at-AllSound (cons l w es) (suc i) k v s h = (s.0, put_at-AllSound es i k v s.1 h)

  remove_at-AllSound : (es : Entries H.Table) (i : ℕ) → AllSound es → AllSound (remove_at es i)
  unfolding remove_at
  remove_at-AllSound nil i s = tt
  remove_at-AllSound (cons l w es) zero s = s.1
  remove_at-AllSound (cons l w es) (suc i) s = (s.0, remove_at-AllSound es i s.1)

  mutual
    unfolding duplicate

    pub duplicate-IsSound_all : (v : Obj H.Table) → IsSound v → IsSound (duplicate v)
    duplicate-IsSound_all (plain s) h = tt
    duplicate-IsSound_all (keyl n t es) h = (λ k i e. cc, duplicate_entries-AllSound es h.1)

    duplicate_entries-AllSound :
        (es : Entries H.Table) → AllSound es → AllSound (duplicate_entries es)
    duplicate_entries-AllSound nil h = tt
    duplicate_entries-AllSound (cons k v es) h =
        (duplicate-IsSound_all v h.0, duplicate_entries-AllSound es h.1)

  pub dup_shared_child-IsSound :
      (b : Bool) (v : Obj H.Table) → IsSound v → IsSound (dup_shared_child b v)
  unfolding dup_shared_child
  dup_shared_child-IsSound true v h = duplicate-IsSound_all v h
  dup_shared_child-IsSound false v h = h

  pub new_keyed_list-IsSound : IsSound (new_keyed_list H L)
  unfolding new_keyed_list
  new_keyed_list-IsSound = (λ k i e. ground (arith, H.find-empty k), tt)

  -- Inversion of a bind that came back with TCL_OK.
  pub >>=-eq-ok {ℓ κ} :
      {A : Type ℓ} {B : Type κ} (status : Status A) (next : A → Status B) {out : B}
      → (status >>= next) ≡ ok out
      → (value : A) × (status ≡ ok value) × (next value ≡ ok out)
  >>=-eq-ok (ok value) next runs = (value, refl, runs)
  >>=-eq-ok break next runs = cc
  >>=-eq-ok (error what) next runs = cc
  >>=-eq-ok no_fuel next runs = cc

  set_entries-IsSound :
      (elems : List Text) (n : ℕ) (es : Entries H.Table) (t : H.Table) {es' : Entries H.Table}
      {t' : H.Table}
      → IsSound (keyl n (some t) es)
      → set_entries H L elems es t ≡ ok (es', t')
      → IsSound (keyl n (some t') es')
  unfolding set_entries
  set_entries-IsSound [] n es t {es'} {t'} s h =
      let e : (es, t) ≡ (es', t') = cc in
      subst (λ (p : Entries H.Table × H.Table). IsSound (keyl n (some p.1) p.0)) e s
  set_entries-IsSound (e ∷ elems) n es t s h =
      let ((k, v), parsed, rest) = >>=-eq-ok (parse_entry H L (L.elements e)) _ h in
      set_entries-IsSound elems n (append_entry es k (plain v)) (H.set k (num_entries es) t)
        (
          unfold add_entry hash_set in
              add_entry-HashOk H L (record { array_size = n; hash = some t; entries = es }) k
                (plain v) s.0,
          append_entry-AllSound es k (plain v) s.1 tt,
        )
        rest

  abbrev pub RepSound : KeylInt H L → Type 0
  RepSound r = HashOk H L r × AllSound r.entries

  set_keyed_list_from_any-RepSound :
      (o : Option (List Text)) {r : KeylInt H L} → set_keyed_list_from_any H L o ≡ ok r → RepSound r
  unfolding set_keyed_list_from_any
  set_keyed_list_from_any-RepSound none h = cc
  set_keyed_list_from_any-RepSound (some elems) {r} h =
      let ((es, t), runs, e) = >>=-eq-ok (set_entries H L elems nil H.empty) _ h in
      let same : record {
        array_size = ensure_space {T = H.Table} 0 nil (length elems);
        hash = some t;
        entries = es;
      }
          ≡ r =
        cc in
      subst RepSound same
        (set_entries-IsSound elems 0 nil H.empty (λ k i f. ground (arith, H.find-empty k), tt) runs)

  -- Converting a sound object to a keyed list gives a representation whose hash table and
  -- children are sound.
  pub convert-RepSound :
      (obj : Obj H.Table) {r : KeylInt H L} → IsSound obj → convert H L obj ≡ ok r → RepSound r
  unfolding convert
  convert-RepSound (plain s) sound h = set_keyed_list_from_any-RepSound (L.elements s) h
  convert-RepSound (keyl n t es) {r} sound h =
      let same : record { array_size = n; hash = t; entries = es } ≡ r = cc in
      subst RepSound same sound

  value_of-eq-ok :
      (o : Option (Text × Obj H.Table)) {v : Obj H.Table}
      → value_of H L o ≡ ok v
      → (k : Text) × (o ≡ some (k, v))
  unfolding value_of
  value_of-eq-ok none h = cc
  value_of-eq-ok (some (k, w)) h = (k, cc)

  pub value_at-eq-ok :
      (r : KeylInt H L) (i : ℕ) {v : Obj H.Table}
      → value_at H L r i ≡ ok v
      → (k : Text) × (entry_at r.entries i ≡ some (k, v))
  unfolding value_at
  value_at-eq-ok r i h = value_of-eq-ok (entry_at r.entries i) h

  pub add_entry-RepSound :
      (r : KeylInt H L) (k : Text) (v : Obj H.Table)
      → RepSound r
      → IsSound v
      → RepSound (add_entry H L r k v)
  unfolding add_entry
  add_entry-RepSound r k v s h =
      (add_entry-HashOk H L r k v s.0, append_entry-AllSound r.entries k v s.1 h)

  pub store_at-RepSound :
      (r : KeylInt H L) (k : Text) (v : Obj H.Table) (found : Option ℕ)
      → RepSound r
      → IsSound v
      → find_index H L r k ≡ found
      → RepSound (store_entry H L r found k v)
  unfolding store_entry
  store_at-RepSound r k v none s h e = add_entry-RepSound r k v s h
  store_at-RepSound r k v (some i) s h e =
      let (w, at) = find_index-some H L r k s.0 e in
      (put_at-HashOk H L r k v i s.0 w at, put_at-AllSound r.entries i k v s.1 h)

  pub put_value-RepSound :
      (r : KeylInt H L) (i : ℕ) (c : Obj H.Table) {k : Text} {v : Obj H.Table}
      → RepSound r
      → IsSound c
      → entry_at r.entries i ≡ some (k, v)
      → RepSound (put_value H L r i c)
  put_value-RepSound r i c {k} s h e = (
    put_value-HashOk H L r i c s.0 e,
    subst (λ (q : KeylInt H L). AllSound q.entries) (sym (put_value-some H L r i c e))
        (put_at-AllSound r.entries i k c s.1 h),
  )

  pub delete_entry-RepSound :
      (r : KeylInt H L) (i : ℕ) {k : Text} {v : Obj H.Table}
      → RepSound r
      → entry_at r.entries i ≡ some (k, v)
      → RepSound (delete_entry H L r i)
  delete_entry-RepSound r i s e = (
    delete_entry-HashOk H L r i s.0 e,
    subst (λ (q : KeylInt H L). AllSound q.entries) (sym (delete_entry-some H L r i e))
        (remove_at-AllSound r.entries i s.1),
  )

  pub drop_empty-RepSound :
      (r : KeylInt H L) (i : ℕ) (c : Obj H.Table) {k : Text} {v : Obj H.Table}
      → RepSound r
      → IsSound c
      → entry_at r.entries i ≡ some (k, v)
      → RepSound (drop_empty H L r i c)
  unfolding drop_empty
  drop_empty-RepSound r i (plain x) s h e = put_value-RepSound r i (plain x) s h e
  drop_empty-RepSound r i (keyl n t nil) s h e = delete_entry-RepSound r i s e
  drop_empty-RepSound r i (keyl n t (cons k v es)) s h e =
      put_value-RepSound r i (keyl n t (cons k v es)) s h e

  pub IsSound-of_ok : {a b : Obj H.Table} → ok a ≡ ok b → IsSound a → IsSound b
  IsSound-of_ok {a} {b} h s = let e : a ≡ b = cc in subst IsSound e s
