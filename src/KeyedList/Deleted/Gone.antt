-- ===== src/KeyedList/Deleted/Gone.antt =====
-- TclX_KeyedListGet after TclX_KeyedListDelete of the same keypath.
use tclx.Base.{
  ℕ, zero, suc, ◌≡◌, ◌≢◌, refl, sym, ap, ◌∙◌, false, Option, none, some, Text, inl, inr, ltb,
  length, arith, Bool-cases, Option-cases,
}
use tclx.Tcl.{HashApi, ListApi}
use tclx.KeyedList.{
  Obj, plain, keyl, Entries, nil, cons, entry_at, remove_at, KeylInt, of_int, find_index,
  delete_entry, value_at, ok, break, convert, split_key, get_at, get_loop, keyed_list_get,
  keyed_list_delete, delete_at, delete_loop, drop_empty, dup_shared_child,
}
use tclx.KeyedList.Index.{
  HashOk, entry_at-remove_at, find_index-some, delete_entry-some, delete_entry-HashOk,
}
use tclx.KeyedList.Sound.{
  IsSound, RepSound, >>=-eq-ok, convert-RepSound, entry_at-IsSound, value_at-eq-ok,
}
use tclx.KeyedList.Deleted.{put_below}
use tclx.KeyedList.Frame.{Rec, get_at-none}

module _ {T : Type 0} where
  -- No key stands twice.
  abbrev pub Distinct : Entries T → Type 0
  Distinct es =
      (i j : ℕ) (k : Text) (v w : Obj T)
      → entry_at es i ≡ some (k, v)
      → entry_at es j ≡ some (k, w)
      → i ≡ j

module _ (H : HashApi) (L : ListApi) where
  -- At each level of the keypath the object converts and no key stands twice.
  pub data DistinctAlong : Obj H.Table → Text → Type 0 where
    level :
        {obj : Obj H.Table} {key : Text} (r : KeylInt H L)
        → convert H L obj ≡ ok r
        → Distinct r.entries
        → ((i : ℕ) (v : Obj H.Table) (sub : Text)
            → (split_key key).1 ≡ some sub
            → find_index H L r (split_key key).0 ≡ some i
            → value_at H L r i ≡ ok v
            → DistinctAlong v sub)
        → DistinctAlong obj key

  removed-gone :
      (es : Entries H.Table) (i m : ℕ) (k : Text) {v w : Obj H.Table}
      → Distinct es
      → entry_at es i ≡ some (k, v)
      → entry_at (remove_at es i) m ≢ some (k, w)
  removed-gone es i m k {v} {w} distinct at e =
      let moved = entry_at-remove_at es i m in
      elim (Bool-cases (ltb m i)) [
        | inl before ↦ let same = distinct i m k v w at (ground (arith, moved, e)) in ground arith
        | inr behind ↦
            let same = distinct i (suc m) k v w at (ground (arith, moved, e)) in ground arith
      ]

  find_index-gone :
      (r : KeylInt H L) (i : ℕ) (k : Text) {v : Obj H.Table}
      → HashOk H L r
      → Distinct r.entries
      → entry_at r.entries i ≡ some (k, v)
      → find_index H L (delete_entry H L r i) k ≡ none
  find_index-gone r i k hok distinct at =
      elim (Option-cases (find_index H L (delete_entry H L r i) k)) [
        | inl miss ↦ miss
        | inr (m, found) ↦
            let (w, there) =
              find_index-some H L (delete_entry H L r i) k (delete_entry-HashOk H L r i hok at)
                found in
            let left =
              ap (λ (p : KeylInt H L). entry_at p.entries m) (delete_entry-some H L r i at) in
            absurd (removed-gone r.entries i m k distinct at (sym left ∙ there))
      ]

  gone_here :
      (get : Rec H L) (r : KeylInt H L) (i : ℕ) (k : Text) (next : Option Text) {v : Obj H.Table}
      → HashOk H L r
      → Distinct r.entries
      → entry_at r.entries i ≡ some (k, v)
      → get_at H L get (delete_entry H L r i) next (find_index H L (delete_entry H L r i) k) ≡ break
  gone_here get r i k next hok distinct at =
      ap (get_at H L get (delete_entry H L r i) next) (find_index-gone r i k hok distinct at)
      ∙ get_at-none H L get (delete_entry H L r i) next

  gone_below :
      (get : Rec H L) (r : KeylInt H L) (i : ℕ) (c : Obj H.Table) (k s : Text)
      → HashOk H L r
      → Distinct r.entries
      → find_index H L r k ≡ some i
      → get c s ≡ break
      → get_at H L get (drop_empty H L r i c) (some s) (find_index H L (drop_empty H L r i c) k)
        ≡ break
  unfolding drop_empty
  gone_below get r i (plain t) k s hok distinct e gets =
      put_below H L get s r i (plain t) k hok e gets
  gone_below get r i (keyl n h nil) k s hok distinct e gets =
      let (v, at) = find_index-some H L r k hok e in gone_here get r i k (some s) hok distinct at
  gone_below get r i (keyl n h (cons l w es)) k s hok distinct e gets =
      put_below H L get s r i (keyl n h (cons l w es)) k hok e gets

  gone_level :
      (delete get : Rec H L) (r : KeylInt H L) (k : Text) (next : Option Text) (found : Option ℕ)
      {o' : Obj H.Table}
      → ((i : ℕ) (v c : Obj H.Table) (s : Text)
          → next ≡ some s
          → found ≡ some i
          → value_at H L r i ≡ ok v
          → IsSound H L v
          → delete v s ≡ ok c
          → get c s ≡ break)
      → RepSound H L r
      → Distinct r.entries
      → find_index H L r k ≡ found
      → delete_at H L delete false r next found ≡ ok o'
      → (r' : KeylInt H L) × (o' ≡ of_int H L r')
        × (get_at H L get r' next (find_index H L r' k) ≡ break)
  unfolding delete_at dup_shared_child
  gone_level delete get r k none none ih sound distinct e q = cc
  gone_level delete get r k (some s) none ih sound distinct e q = cc
  gone_level delete get r k none (some i) ih sound distinct e q =
      let (v, at) = find_index-some H L r k sound.0 e in
      (delete_entry H L r i, cc, gone_here get r i k none sound.0 distinct at)
  gone_level delete get r k (some s) (some i) ih sound distinct e q =
      let (v, got, q₁) = >>=-eq-ok H L (value_at H L r i) _ q in
      let (k', at) = value_at-eq-ok H L r i got in
      let (c, deletes, q₂) = >>=-eq-ok H L (delete v s) _ q₁ in
      let below = ih i v c s refl refl got (entry_at-IsSound H L r.entries i sound.1 at) deletes in
      (drop_empty H L r i c, cc, gone_below get r i c k s sound.0 distinct e below)

  get_loop-delete_loop :
      (f : ℕ) (obj o' : Obj H.Table) (key : Text)
      → IsSound H L obj
      → DistinctAlong obj key
      → delete_loop H L f (λ _. false) obj key ≡ ok o'
      → get_loop H L f o' key ≡ break
  unfolding get_loop delete_loop convert
  get_loop-delete_loop zero obj o' key s d q = cc
  get_loop-delete_loop (suc f) obj o' key s (level r conv distinct along) q =
      let (r', e, gone) =
        gone_level (delete_loop H L f (λ _. false)) (get_loop H L f) r (split_key key).0
          (split_key key).1 (find_index H L r (split_key key).0)
          (λ i v c sub next finds at so deletes.
            get_loop-delete_loop f v c sub so (along i v sub next finds at) deletes)
          (convert-RepSound H L obj s conv) distinct refl (rw conv at q) in
      ap (λ o. get_loop H L (suc f) o key) e ∙ gone

  -- When TclX_KeyedListDelete succeeds on a sound keyed list in which no child is shared and in
  -- which no key stands twice along the keypath, TclX_KeyedListGet then finds nothing under the
  -- keypath.
  pub keyed_list_get-delete :
      (obj : Obj H.Table) (key : Text) {o' : Obj H.Table}
      → IsSound H L obj
      → DistinctAlong obj key
      → keyed_list_delete H L (λ _. false) obj key ≡ ok o'
      → keyed_list_get H L o' key ≡ break
  unfolding keyed_list_delete keyed_list_get
  keyed_list_get-delete obj key {o'} s d q =
      get_loop-delete_loop (suc (length key)) obj o' key s d q
