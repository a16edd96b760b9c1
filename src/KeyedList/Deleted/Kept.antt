-- ===== src/KeyedList/Deleted/Kept.antt =====
-- TclX_KeyedListDelete leaves what stands under other keypaths, where no child is shared.
use tclx.Base.{
  ℕ, zero, suc, ◌≡◌, ◌≢◌, refl, sym, false, Option, none, some, Text, length, arith, ap, ◌∙◌,
}
use tclx.Tcl.{HashApi, ListApi}
use tclx.KeyedList.{
  Obj, plain, keyl, nil, cons, num_entries, KeylInt, of_int, find_index, delete_entry, value_at, ok,
  break, convert, split_key, get_at, get_loop, keyed_list_get, keyed_list_delete, delete_at,
  delete_loop, drop_empty, dup_shared_child,
}
use tclx.KeyedList.Index.{HashOk, find_index-some}
use tclx.KeyedList.Sound.{
  IsSound, RepSound, >>=-eq-ok, convert-RepSound, entry_at-IsSound, value_at-eq-ok,
}
use tclx.KeyedList.Paths.{Diverges, here, under}
use tclx.KeyedList.Frame.{Rec, get_at-none}
use tclx.KeyedList.Deleted.{get_at-delete_ne, get_at-drop_ne, put_below}

module _ (H : HashApi) (L : ListApi) where
  deleted_here :
      (delete get : Rec H L) (r : KeylInt H L) (k j : Text) (next nx : Option Text)
      (found : Option ℕ) {o' : Obj H.Table}
      → HashOk H L r
      → find_index H L r k ≡ found
      → k ≢ j
      → delete_at H L delete false r next found ≡ ok o'
      → (r' : KeylInt H L) × (o' ≡ of_int H L r')
        × (get_at H L get r' nx (find_index H L r' j) ≡ get_at H L get r nx (find_index H L r j))
  unfolding delete_at
  deleted_here delete get r k j none nx none hok e ne q = cc
  deleted_here delete get r k j (some sub) nx none hok e ne q = cc
  deleted_here delete get r k j none nx (some i) hok e ne q =
      let (v, at) = find_index-some H L r k hok e in
      (delete_entry H L r i, cc, get_at-delete_ne H L get r i k j nx hok at ne)
  deleted_here delete get r k j (some sub) nx (some i) hok e ne q =
      let (v, got, q₁) = >>=-eq-ok H L (value_at H L r i) _ q in
      let (c, deletes, q₂) = >>=-eq-ok H L (delete (dup_shared_child false v) sub) _ q₁ in
      (drop_empty H L r i c, cc, get_at-drop_ne H L get r i c k j nx hok e ne)

  module _ (get : Rec H L) (t : Text) (value : Obj H.Table) where
    drop_below :
        (r : KeylInt H L) (i : ℕ) (c : Obj H.Table) (k : Text)
        → ((n : ℕ) (h : Option H.Table) → get (keyl n h nil) t ≢ ok value)
        → HashOk H L r
        → find_index H L r k ≡ some i
        → get c t ≡ ok value
        → get_at H L get (drop_empty H L r i c) (some t) (find_index H L (drop_empty H L r i c) k)
          ≡ ok value
    unfolding drop_empty
    drop_below r i (plain s) k nothing hok e gets = put_below H L get t r i (plain s) k hok e gets
    drop_below r i (keyl n h nil) k nothing hok e gets = absurd (nothing n h gets)
    drop_below r i (keyl n h (cons l w es)) k nothing hok e gets =
        put_below H L get t r i (keyl n h (cons l w es)) k hok e gets

    deleted_below :
        (delete : Rec H L) (r : KeylInt H L) (k s : Text) (found : Option ℕ) {o' : Obj H.Table}
        → ((o c : Obj H.Table)
            → IsSound H L o
            → delete o s ≡ ok c
            → get o t ≡ ok value
            → get c t ≡ ok value)
        → ((n : ℕ) (h : Option H.Table) → get (keyl n h nil) t ≢ ok value)
        → RepSound H L r
        → find_index H L r k ≡ found
        → delete_at H L delete false r (some s) found ≡ ok o'
        → get_at H L get r (some t) found ≡ ok value
        → (r' : KeylInt H L) × (o' ≡ of_int H L r')
          × (get_at H L get r' (some t) (find_index H L r' k) ≡ ok value)
    unfolding delete_at get_at dup_shared_child
    deleted_below delete r k s none ih nothing sound e q gets = cc
    deleted_below delete r k s (some i) ih nothing sound e q gets =
        let (v, got, q₁) = >>=-eq-ok H L (value_at H L r i) _ q in
        let (k', at) = value_at-eq-ok H L r i got in
        let (c, deletes, q₂) = >>=-eq-ok H L (delete v s) _ q₁ in
        let (v', got', below) = >>=-eq-ok H L (value_at H L r i) _ gets in
        let same : v' ≡ v = cc in
        let kept =
          ih v c (entry_at-IsSound H L r.entries i sound.1 at) deletes
            (ap (λ o. get o t) (sym same) ∙ below) in
        (drop_empty H L r i c, cc, drop_below r i c k nothing sound.0 e kept)

  find_index-nothing :
      (n : ℕ) (h : Option H.Table) (k : Text)
      → find_index H L (record { array_size = n; hash = h; entries = nil }) k ≡ none
  unfolding find_index num_entries
  find_index-nothing n h k = ground arith

  get_loop-nothing :
      (g : ℕ) (t : Text) (value : Obj H.Table) (n : ℕ) (h : Option H.Table)
      → get_loop H L g (keyl n h nil) t ≢ ok value
  unfolding get_loop convert
  get_loop-nothing zero t value n h e = cc
  get_loop-nothing (suc g) t value n h e =
      let r : KeylInt H L = record { array_size = n; hash = h; entries = nil } in
      let stops : get_loop H L (suc g) (keyl n h nil) t ≡ break =
        ap (get_at H L (get_loop H L g) r (split_key t).1) (find_index-nothing n h (split_key t).0)
        ∙ get_at-none H L (get_loop H L g) r (split_key t).1 in
      let p : break ≡ ok value = sym stops ∙ e in cc

  deleted_level :
      (f g : ℕ) (value o' : Obj H.Table) (r : KeylInt H L) (key other : Text)
      → ((o c : Obj H.Table) (s t : Text)
          → IsSound H L o
          → Diverges s t
          → delete_loop H L f (λ _. false) o s ≡ ok c
          → get_loop H L g o t ≡ ok value
          → get_loop H L g c t ≡ ok value)
      → RepSound H L r
      → Diverges key other
      → delete_at H L
          (delete_loop H L f (λ _. false))
          false
          r
          (split_key key).1
          (find_index H L r (split_key key).0)
        ≡ ok o'
      → get_at H L (get_loop H L g) r (split_key other).1 (find_index H L r (split_key other).0)
        ≡ ok value
      → (r' : KeylInt H L) × (o' ≡ of_int H L r')
        × (get_at H L
              (get_loop H L g)
              r'
              (split_key other).1
              (find_index H L r' (split_key other).0)
            ≡ ok value)
  deleted_level f g value o' r key other ih sound (here ne) q gets =
      let (r', e, kept) =
        deleted_here (delete_loop H L f (λ _. false)) (get_loop H L g) r (split_key key).0
          (split_key other).0 (split_key key).1 (split_key other).1
          (find_index H L r (split_key key).0) sound.0 refl ne q in
      (r', e, kept ∙ gets)
  deleted_level f g value o' r key other ih sound (under {s} {t} same ek eo d) q gets =
      let (r', e, kept) =
        deleted_below (get_loop H L g) t value (delete_loop H L f (λ _. false)) r (split_key key).0
          s (find_index H L r (split_key key).0) (λ o c so deletes. ih o c s t so d deletes)
          (get_loop-nothing g t value) sound refl (rw ek at q) (rw (eo, ← same) at gets) in
      (r', e, rw (eo, ← same) kept)

  get_loop-delete_loop_ne :
      (f g : ℕ) (obj o' value : Obj H.Table) (key other : Text)
      → IsSound H L obj
      → Diverges key other
      → delete_loop H L f (λ _. false) obj key ≡ ok o'
      → get_loop H L g obj other ≡ ok value
      → get_loop H L g o' other ≡ ok value
  unfolding get_loop delete_loop convert
  get_loop-delete_loop_ne zero g obj o' value key other s d q gets = cc
  get_loop-delete_loop_ne (suc f) zero obj o' value key other s d q gets = cc
  get_loop-delete_loop_ne (suc f) (suc g) obj o' value key other s d q gets =
      let (r, conv, q₁) = >>=-eq-ok H L (convert H L obj) _ q in
      let (r', e, kept) =
        deleted_level f g value o' r key other
          (λ o c s t so dv deletes below.
            get_loop-delete_loop_ne f g o c value s t so dv deletes below)
          (convert-RepSound H L obj s conv) d q₁ (rw conv at gets) in
      ap (λ o. get_loop H L (suc g) o other) e ∙ kept

  -- When TclX_KeyedListDelete succeeds on a sound keyed list in which no child is shared, a value
  -- that TclX_KeyedListGet gave under a keypath that differs from the deleted one at some level
  -- is what it then gives, also where sub-lists became empty and were deleted.
  pub keyed_list_get-delete_ne :
      (obj : Obj H.Table) (key other : Text) {o' value : Obj H.Table}
      → IsSound H L obj
      → Diverges key other
      → keyed_list_delete H L (λ _. false) obj key ≡ ok o'
      → keyed_list_get H L obj other ≡ ok value
      → keyed_list_get H L o' other ≡ ok value
  unfolding keyed_list_delete keyed_list_get
  keyed_list_get-delete_ne obj key other {o'} {value} s d q gets =
      get_loop-delete_loop_ne (suc (length key)) (suc (length other)) obj o' value key other s d q
        gets
