-- ===== src/KeyedList/Frame.antt =====
-- TclX_KeyedListSet leaves what stands under other keypaths, where no child is shared.
use tclx.Base.{
  ℕ, zero, suc, ◌≡◌, ◌≢◌, ◌<◌, refl, false, Option, none, some, Text, ◌==◌, if◌then◌else◌, length,
  arith, ap, ◌∙◌,
}
use tclx.Tcl.{HashApi, ListApi}
use tclx.KeyedList.{
  Obj, nil, num_entries, entry_at, KeylInt, of_int, find_index, start_index, store_entry, put_value,
  value_at, value_of, Status, ok, break, convert, split_key, set_at, set_loop, get_at, get_loop,
  keyed_list_get, keyed_list_set, dup_shared_child, new_keyed_list, linear_find,
}
use tclx.KeyedList.Index.{HashOk, entry_at-lt, entry_at-put_at, put_value-some, find_index-some}
use tclx.KeyedList.Sound.{
  IsSound, RepSound, >>=-eq-ok, convert-RepSound, entry_at-IsSound, value_at-eq-ok,
  new_keyed_list-IsSound,
}
use tclx.KeyedList.Lookup.{value_at-entry, find_index-store, find_index-put_value}
use tclx.KeyedList.Paths.{Diverges, here, under, get_at-found, get_at-store_ne, split_key-length}

module _ (H : HashApi) (L : ListApi) where
  abbrev pub Rec : Type 0
  Rec = Obj H.Table → Text → Status (Obj H.Table)

  pub put_value-at :
      (r : KeylInt H L) (i : ℕ) (c : Obj H.Table) (m : ℕ) {k : Text} {v : Obj H.Table}
      → entry_at r.entries i ≡ some (k, v)
      → entry_at (put_value H L r i c).entries m
        ≡ (if i == m then some (k, c) else entry_at r.entries m)
  put_value-at r i c m {k} at =
      ap (λ (p : KeylInt H L). entry_at p.entries m) (put_value-some H L r i c at)
      ∙ entry_at-put_at r.entries i m k c (entry_at-lt r.entries i at)

  pub get_at-put_ne :
      (get : Rec) (r : KeylInt H L) (i : ℕ) (c : Obj H.Table) (k j : Text) (next : Option Text)
      → HashOk H L r
      → find_index H L r k ≡ some i
      → k ≢ j
      → get_at H L get (put_value H L r i c) next (find_index H L (put_value H L r i c) j)
        ≡ get_at H L get r next (find_index H L r j)
  unfolding value_at
  get_at-put_ne get r i c k j next hok e ne =
      let (u, at) = find_index-some H L r k hok e in
      ap (get_at H L get (put_value H L r i c) next) (find_index-put_value H L r i c j at)
      ∙ get_at-found H L get r (put_value H L r i c) next (find_index H L r j)
          (λ m f. ap (value_of H L) (kept m u at f))
    where
      kept :
          (m : ℕ) (u : Obj H.Table)
          → entry_at r.entries i ≡ some (k, u)
          → find_index H L r j ≡ some m
          → entry_at (put_value H L r i c).entries m ≡ entry_at r.entries m
      kept m u at f =
          let (w, there) = find_index-some H L r j hok f in
          let apart : i ≢ m = λ same. ne (let p = ap (entry_at r.entries) same in cc) in
          ground (arith, put_value-at r i c m at, apart)

  -- A level that stores under another key.
  frame_here :
      (set get : Rec) (r : KeylInt H L) (k j : Text) (value : Obj H.Table) (next nx : Option Text)
      (found : Option ℕ) {o' : Obj H.Table}
      → HashOk H L r
      → find_index H L r k ≡ found
      → k ≢ j
      → set_at H L set false r k value next found ≡ ok o'
      → (r' : KeylInt H L) × (o' ≡ of_int H L r')
        × (get_at H L get r' nx (find_index H L r' j) ≡ get_at H L get r nx (find_index H L r j))
  unfolding set_at store_entry
  frame_here set get r k j value none nx found hok e ne q =
      (store_entry H L r found k value, cc, get_at-store_ne H L get r k j value found nx hok e ne)
  frame_here set get r k j value (some sub) nx (some i) hok e ne q =
      let (v, got, q₁) = >>=-eq-ok H L (value_at H L r i) _ q in
      let (c, sets, q₂) = >>=-eq-ok H L (set (dup_shared_child false v) sub) _ q₁ in
      (put_value H L r i c, cc, get_at-put_ne get r i c k j nx hok e ne)
  frame_here set get r k j value (some sub) nx none hok e ne q =
      let (c, sets, q₂) = >>=-eq-ok H L (set (new_keyed_list H L) sub) _ q in
      (store_entry H L r none k c, cc, get_at-store_ne H L get r k j c none nx hok e ne)

  -- A level that goes down under the same key.
  frame_below :
      (set get : Rec) (r : KeylInt H L) (k : Text) (value : Obj H.Table) (s t : Text)
      (found : Option ℕ) {o' : Obj H.Table}
      → ((o c : Obj H.Table) → IsSound H L o → set o s ≡ ok c → get c t ≡ get o t)
      → get (new_keyed_list H L) t ≡ break
      → RepSound H L r
      → find_index H L r k ≡ found
      → set_at H L set false r k value (some s) found ≡ ok o'
      → (r' : KeylInt H L) × (o' ≡ of_int H L r')
        × (get_at H L get r' (some t) (find_index H L r' k)
            ≡ get_at H L get r (some t) (find_index H L r k))
  unfolding set_at store_entry get_at dup_shared_child
  frame_below set get r k value s t (some i) ih empty sound e q =
      let (v, got, q₁) = >>=-eq-ok H L (value_at H L r i) _ q in
      let (k', at) = value_at-eq-ok H L r i got in
      let (c, sets, q₂) = >>=-eq-ok H L (set v s) _ q₁ in
      let finds = find_index-put_value H L r i c k at ∙ e in
      let there : entry_at (put_value H L r i c).entries i ≡ some (k', c) =
        ground (arith, put_value-at r i c i at) in
      (
        put_value H L r i c,
        cc,
        rw (finds, e, value_at-entry H L (put_value H L r i c) i there, got)
            (ih v c (entry_at-IsSound H L r.entries i sound.1 at) sets),
      )
  frame_below set get r k value s t none ih empty sound e q =
      let (c, sets, q₂) = >>=-eq-ok H L (set (new_keyed_list H L) s) _ q in
      let (i, finds, at) = find_index-store H L r k c none sound.0 e in
      (
        store_entry H L r none k c,
        cc,
        rw (finds, e, value_at-entry H L (store_entry H L r none k c) i at)
            (ih (new_keyed_list H L) c (new_keyed_list-IsSound H L) sets ∙ empty),
      )

  find_index-new :
      (k : Text)
      → find_index H L (record { array_size = 0; hash = some H.empty; entries = nil }) k ≡ none
  unfolding find_index start_index num_entries
  find_index-new k = rw (H.find-empty k, start_index, linear_find)

  pub get_at-none :
      (get : Rec) (r : KeylInt H L) (next : Option Text) → get_at H L get r next none ≡ break
  unfolding get_at
  get_at-none get r none = refl
  get_at-none get r (some s) = refl

  get_loop-new : (f : ℕ) (t : Text) → 0 < f → get_loop H L f (new_keyed_list H L) t ≡ break
  unfolding get_loop new_keyed_list convert
  get_loop-new zero t h = absurd (omega arith)
  get_loop-new (suc f) t h = rw (find_index-new (split_key t).0) (
      get_at-none (get_loop H L f) (record { array_size = 0; hash = some H.empty; entries = nil })
        (split_key t).1)

  frame_level :
      (f g : ℕ) (obj value o' : Obj H.Table) (r : KeylInt H L) (key other : Text)
      → ((o c : Obj H.Table) (s t : Text)
          → IsSound H L o
          → Diverges s t
          → length t < g
          → set_loop H L f (λ _. false) value o s ≡ ok c
          → get_loop H L g c t ≡ get_loop H L g o t)
      → RepSound H L r
      → length other < suc g
      → Diverges key other
      → set_at H L
          (set_loop H L f (λ _. false) value)
          false
          r
          (split_key key).0
          value
          (split_key key).1
          (find_index H L r (split_key key).0)
        ≡ ok o'
      → (r' : KeylInt H L) × (o' ≡ of_int H L r')
        × (get_at H L
              (get_loop H L g)
              r'
              (split_key other).1
              (find_index H L r' (split_key other).0)
            ≡ get_at H L
                (get_loop H L g)
                r
                (split_key other).1
                (find_index H L r (split_key other).0))
  frame_level f g obj value o' r key other ih sound room (here ne) q =
      frame_here (set_loop H L f (λ _. false) value) (get_loop H L g) r (split_key key).0
        (split_key other).0 value (split_key key).1 (split_key other).1
        (find_index H L r (split_key key).0) sound.0 refl ne q
  frame_level f g obj value o' r key other ih sound room (under {s} {t} same ek eo d) q =
      let shorter = split_key-length other t eo in
      let (r', e, kept) =
        frame_below (set_loop H L f (λ _. false) value) (get_loop H L g) r (split_key key).0 value s
          t (find_index H L r (split_key key).0) (λ o c so sets. ih o c s t so d (omega arith) sets)
          (get_loop-new g t (omega arith)) sound refl (rw ek at q) in
      (r', e, rw (eo, ← same) kept)

  get_loop-set_loop_ne :
      (f g : ℕ) (value obj o' : Obj H.Table) (key other : Text)
      → IsSound H L obj
      → Diverges key other
      → length other < g
      → set_loop H L f (λ _. false) value obj key ≡ ok o'
      → get_loop H L g o' other ≡ get_loop H L g obj other
  unfolding get_loop set_loop convert
  get_loop-set_loop_ne zero g value obj o' key other s d room q = cc
  get_loop-set_loop_ne (suc f) zero value obj o' key other s d room q = absurd (omega arith)
  get_loop-set_loop_ne (suc f) (suc g) value obj o' key other s d room q =
      let (r, conv, q₁) = >>=-eq-ok H L (convert H L obj) _ q in
      let (r', e, kept) =
        frame_level f g obj value o' r key other
          (λ o c s t so dv short sets. get_loop-set_loop_ne f g value o c s t so dv short sets)
          (convert-RepSound H L obj s conv) room d q₁ in
      ap (λ o. get_loop H L (suc g) o other) e ∙ kept ∙ rw conv

  -- When TclX_KeyedListSet succeeds on a sound keyed list in which no child is shared,
  -- TclX_KeyedListGet gives under a keypath that differs from it at some level what it gave
  -- before.
  pub keyed_list_get-set_ne :
      (obj value : Obj H.Table) (key other : Text) {o' : Obj H.Table}
      → IsSound H L obj
      → Diverges key other
      → keyed_list_set H L (λ _. false) obj key value ≡ ok o'
      → keyed_list_get H L o' other ≡ keyed_list_get H L obj other
  unfolding keyed_list_set keyed_list_get
  keyed_list_get-set_ne obj value key other {o'} s d q =
      get_loop-set_loop_ne (suc (length key)) (suc (length other)) value obj o' key other s d
        (omega arith) q
