-- ===== src/KeyedList/Sound/Operations.antt =====
-- TclX_KeyedListSet and TclX_KeyedListDelete keep a keyed list sound.
use tclx.Base.{ℕ, zero, suc, ◌≡◌, refl, Bool, Option, none, some, Text, length}
use tclx.Tcl.{HashApi, ListApi}
use tclx.KeyedList.{
  Obj, KeylInt, find_index, split_key, keyed_list_set, keyed_list_delete, value_at, Status, ok,
  convert, set_at, set_loop, delete_at, delete_loop, new_keyed_list, dup_shared_child,
}
use tclx.KeyedList.Index.{find_index-some}
use tclx.KeyedList.Sound.{
  IsSound, entry_at-IsSound, dup_shared_child-IsSound, new_keyed_list-IsSound, >>=-eq-ok, RepSound,
  convert-RepSound, value_at-eq-ok, add_entry-RepSound, store_at-RepSound, put_value-RepSound,
  delete_entry-RepSound, drop_empty-RepSound, IsSound-of_ok,
}

module _ (H : HashApi) (L : ListApi) where
  -- What a recursive call of TclX_KeyedListSet or TclX_KeyedListDelete is assumed to do.
  abbrev Keeps : (Obj H.Table → Text → Status (Obj H.Table)) → Type 0
  Keeps rec =
      (o : Obj H.Table) (s : Text) (o' : Obj H.Table)
      → IsSound H L o
      → rec o s ≡ ok o'
      → IsSound H L o'

  set_at-IsSound :
      (rec : Obj H.Table → Text → Status (Obj H.Table)) (shared : Bool) (r : KeylInt H L) (k : Text)
      (value : Obj H.Table) (next : Option Text) (found : Option ℕ) {o' : Obj H.Table}
      → Keeps rec
      → RepSound H L r
      → IsSound H L value
      → find_index H L r k ≡ found
      → set_at H L rec shared r k value next found ≡ ok o'
      → IsSound H L o'
  unfolding set_at
  set_at-IsSound rec shared r k value none found keeps s h e q =
      IsSound-of_ok H L q (store_at-RepSound H L r k value found s h e)
  set_at-IsSound rec shared r k value (some sub) (some i) keeps s h e q =
      let (v, got, q₁) = >>=-eq-ok H L (value_at H L r i) _ q in
      let (k', at) = value_at-eq-ok H L r i got in
      let (c, sets, q₂) = >>=-eq-ok H L (rec (dup_shared_child shared v) sub) _ q₁ in
      let below =
        keeps (dup_shared_child shared v) sub c
          (dup_shared_child-IsSound H L shared v (entry_at-IsSound H L r.entries i s.1 at)) sets in
      IsSound-of_ok H L q₂ (put_value-RepSound H L r i c s below at)
  set_at-IsSound rec shared r k value (some sub) none keeps s h e q =
      let (c, sets, q₂) = >>=-eq-ok H L (rec (new_keyed_list H L) sub) _ q in
      let below = keeps (new_keyed_list H L) sub c (new_keyed_list-IsSound H L) sets in
      IsSound-of_ok H L q₂ (add_entry-RepSound H L r k c s below)

  delete_at-IsSound :
      (rec : Obj H.Table → Text → Status (Obj H.Table)) (shared : Bool) (r : KeylInt H L) (k : Text)
      (next : Option Text) (found : Option ℕ) {o' : Obj H.Table}
      → Keeps rec
      → RepSound H L r
      → find_index H L r k ≡ found
      → delete_at H L rec shared r next found ≡ ok o'
      → IsSound H L o'
  unfolding delete_at
  delete_at-IsSound rec shared r k none none keeps s e q = cc
  delete_at-IsSound rec shared r k (some sub) none keeps s e q = cc
  delete_at-IsSound rec shared r k none (some i) keeps s e q =
      let (v, at) = find_index-some H L r k s.0 e in
      IsSound-of_ok H L q (delete_entry-RepSound H L r i s at)
  delete_at-IsSound rec shared r k (some sub) (some i) keeps s e q =
      let (v, got, q₁) = >>=-eq-ok H L (value_at H L r i) _ q in
      let (k', at) = value_at-eq-ok H L r i got in
      let (c, deletes, q₂) = >>=-eq-ok H L (rec (dup_shared_child shared v) sub) _ q₁ in
      let below =
        keeps (dup_shared_child shared v) sub c
          (dup_shared_child-IsSound H L shared v (entry_at-IsSound H L r.entries i s.1 at))
          deletes in
      IsSound-of_ok H L q₂ (drop_empty-RepSound H L r i c s below at)

  pub set_loop-IsSound :
      (f : ℕ) (shared : ℕ → Bool) (value obj : Obj H.Table) (key : Text) (o' : Obj H.Table)
      → IsSound H L value
      → IsSound H L obj
      → set_loop H L f shared value obj key ≡ ok o'
      → IsSound H L o'
  unfolding set_loop
  set_loop-IsSound zero shared value obj key o' hv s q = cc
  set_loop-IsSound (suc f) shared value obj key o' hv s q =
      let (r, conv, q₁) = >>=-eq-ok H L (convert H L obj) _ q in
      let (k, next) = split_key key in
      set_at-IsSound (set_loop H L f shared value) (shared f) r k value next (find_index H L r k)
        (λ o sub c so e. set_loop-IsSound f shared value o sub c hv so e)
        (convert-RepSound H L obj s conv) hv refl q₁

  pub delete_loop-IsSound :
      (f : ℕ) (shared : ℕ → Bool) (obj : Obj H.Table) (key : Text) (o' : Obj H.Table)
      → IsSound H L obj
      → delete_loop H L f shared obj key ≡ ok o'
      → IsSound H L o'
  unfolding delete_loop
  delete_loop-IsSound zero shared obj key o' s q = cc
  delete_loop-IsSound (suc f) shared obj key o' s q =
      let (r, conv, q₁) = >>=-eq-ok H L (convert H L obj) _ q in
      let (k, next) = split_key key in
      delete_at-IsSound (delete_loop H L f shared) (shared f) r k next (find_index H L r k)
        (λ o sub c so e. delete_loop-IsSound f shared o sub c so e)
        (convert-RepSound H L obj s conv) refl q₁

  -- TclX_KeyedListSet of a sound value keeps a keyed list sound: at every level each index in the
  -- hash table is that of an entry with its key.
  pub keyed_list_set-IsSound :
      (shared : ℕ → Bool) (obj value : Obj H.Table) (key : Text) {o' : Obj H.Table}
      → IsSound H L obj
      → IsSound H L value
      → keyed_list_set H L shared obj key value ≡ ok o'
      → IsSound H L o'
  unfolding keyed_list_set
  keyed_list_set-IsSound shared obj value key {o'} s hv q =
      set_loop-IsSound (suc (length key)) shared value obj key o' hv s q

  -- TclX_KeyedListDelete keeps a keyed list sound: at every level each index in the hash table is
  -- that of an entry with its key.
  pub keyed_list_delete-IsSound :
      (shared : ℕ → Bool) (obj : Obj H.Table) (key : Text) {o' : Obj H.Table}
      → IsSound H L obj
      → keyed_list_delete H L shared obj key ≡ ok o'
      → IsSound H L o'
  unfolding keyed_list_delete
  keyed_list_delete-IsSound shared obj key {o'} s q =
      delete_loop-IsSound (suc (length key)) shared obj key o' s q
