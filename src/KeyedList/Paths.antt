-- ===== src/KeyedList/Paths.antt =====
-- TclX_KeyedListGet after TclX_KeyedListSet, on keypaths.
use tclx.Base.{
  ℕ, zero, suc, ◌≡◌, ◌≢◌, ◌<◌, refl, Bool, Option, none, some, [], ◌∷◌, Text, length, arith, ap,
  ◌∙◌,
}
use tclx.Tcl.{HashApi, ListApi}
use tclx.KeyedList.{
  Obj, entry_at, KeylInt, of_int, find_index, store_entry, put_value, value_at, value_of, Status,
  ok, ◌>>=◌, convert, split_key, set_at, set_loop, get_at, get_loop, keyed_list_get, keyed_list_set,
  dup_shared_child, new_keyed_list,
}
use tclx.KeyedList.Index.{HashOk, entry_at-lt, entry_at-put_at, put_value-some}
use tclx.KeyedList.Sound.{
  IsSound, RepSound, >>=-eq-ok, convert-RepSound, entry_at-IsSound, value_at-eq-ok,
  dup_shared_child-IsSound, new_keyed_list-IsSound,
}
use tclx.KeyedList.Lookup.{
  value_at-entry, find_index-store, find_index-put_value, find_index-store_ne, entry_at-store_ne,
}

-- What follows a separator is shorter than the keypath.
pub split_key-length : (s sub : Text) → (split_key s).1 ≡ some sub → length sub < length s
unfolding split_key
split_key-length [] sub h = cc
split_key-length (c ∷ s) sub h = ground (arith, split_key-length s sub)

-- Two keypaths that lead to different entries: their keys differ at some level.
pub data Diverges : Text → Text → Type 0 where
  here : {a b : Text} → (split_key a).0 ≢ (split_key b).0 → Diverges a b
  under :
      {a b s t : Text}
      → (split_key a).0 ≡ (split_key b).0
      → (split_key a).1 ≡ some s
      → (split_key b).1 ≡ some t
      → Diverges s t
      → Diverges a b

module _ (H : HashApi) (L : ListApi) where
  module _ (value : Obj H.Table) where
    -- the value set below is the value got below
    abbrev GetsBelow :
        (Obj H.Table → Text → Status (Obj H.Table))
        → (Obj H.Table → Text → Status (Obj H.Table))
        → Type 0
    GetsBelow set get =
        (o : Obj H.Table) (s : Text) (c : Obj H.Table)
        → IsSound H L o
        → set o s ≡ ok c
        → get c s ≡ ok value

    get_at-set_at :
        (set get : Obj H.Table → Text → Status (Obj H.Table)) (shared : Bool) (r : KeylInt H L)
        (k : Text) (next : Option Text) (found : Option ℕ) {o' : Obj H.Table}
        → GetsBelow set get
        → RepSound H L r
        → find_index H L r k ≡ found
        → set_at H L set shared r k value next found ≡ ok o'
        → (r' : KeylInt H L) × (o' ≡ of_int H L r')
          × (get_at H L get r' next (find_index H L r' k) ≡ ok value)
    unfolding set_at get_at store_entry
    get_at-set_at set get shared r k none found below s e q =
        let (i, finds, at) = find_index-store H L r k value found s.0 e in
        (
          store_entry H L r found k value,
          cc,
          rw finds (value_at-entry H L (store_entry H L r found k value) i at),
        )
    get_at-set_at set get shared r k (some sub) (some i) below s e q =
        let (v, got, q₁) = >>=-eq-ok H L (value_at H L r i) _ q in
        let (k', at) = value_at-eq-ok H L r i got in
        let (c, sets, q₂) = >>=-eq-ok H L (set (dup_shared_child shared v) sub) _ q₁ in
        let gets =
          below (dup_shared_child shared v) sub c
            (dup_shared_child-IsSound H L shared v (entry_at-IsSound H L r.entries i s.1 at))
            sets in
        let finds = find_index-put_value H L r i c k at ∙ e in
        let there : entry_at (put_value H L r i c).entries i ≡ some (k', c) =
          ap (λ (p : KeylInt H L). entry_at p.entries i) (put_value-some H L r i c at)
          ∙ ground (arith, entry_at-put_at r.entries i i k' c (entry_at-lt r.entries i at)) in
        (put_value H L r i c, cc, rw (finds, value_at-entry H L (put_value H L r i c) i there) gets)
    get_at-set_at set get shared r k (some sub) none below s e q =
        let (c, sets, q₂) = >>=-eq-ok H L (set (new_keyed_list H L) sub) _ q in
        let gets = below (new_keyed_list H L) sub c (new_keyed_list-IsSound H L) sets in
        let (i, finds, at) = find_index-store H L r k c none s.0 e in
        (
          store_entry H L r none k c,
          cc,
          rw (finds, value_at-entry H L (store_entry H L r none k c) i at) gets,
        )

    get_loop-set_loop :
        (f : ℕ) (shared : ℕ → Bool) (obj : Obj H.Table) (key : Text) (o' : Obj H.Table)
        → IsSound H L obj
        → set_loop H L f shared value obj key ≡ ok o'
        → get_loop H L f o' key ≡ ok value
    unfolding set_loop get_loop convert
    get_loop-set_loop zero shared obj key o' s q = cc
    get_loop-set_loop (suc f) shared obj key o' s q =
        let (r, conv, q₁) = >>=-eq-ok H L (convert H L obj) _ q in
        let (k, next) = split_key key in
        let (r', e, gets) =
          get_at-set_at (set_loop H L f shared value) (get_loop H L f) (shared f) r k next
            (find_index H L r k) (λ o sub c so below. get_loop-set_loop f shared o sub c so below)
            (convert-RepSound H L obj s conv) refl q₁ in
        ap (λ o. get_loop H L (suc f) o key) e ∙ gets

  -- When TclX_KeyedListSet succeeds on a sound keyed list, with any sharing, the value set under
  -- a keypath is what TclX_KeyedListGet then gets under it.
  pub keyed_list_get-set :
      (shared : ℕ → Bool) (obj value : Obj H.Table) (key : Text) {o' : Obj H.Table}
      → IsSound H L obj
      → keyed_list_set H L shared obj key value ≡ ok o'
      → keyed_list_get H L o' key ≡ ok value
  unfolding keyed_list_set keyed_list_get
  keyed_list_get-set shared obj value key {o'} s q =
      get_loop-set_loop value (suc (length key)) shared obj key o' s q

  pub get_at-found :
      (get : Obj H.Table → Text → Status (Obj H.Table)) (r r' : KeylInt H L) (next : Option Text)
      (found : Option ℕ)
      → ((i : ℕ) → found ≡ some i → value_at H L r' i ≡ value_at H L r i)
      → get_at H L get r' next found ≡ get_at H L get r next found
  unfolding get_at
  get_at-found get r r' none none same = refl
  get_at-found get r r' (some s) none same = refl
  get_at-found get r r' none (some i) same = same i refl
  get_at-found get r r' (some s) (some i) same = ap (λ m. m >>= λ v. get v s) (same i refl)

  -- A level that stores under another key is got as before.
  pub get_at-store_ne :
      (get : Obj H.Table → Text → Status (Obj H.Table)) (r : KeylInt H L) (k j : Text)
      (v : Obj H.Table) (found : Option ℕ) (next : Option Text)
      → HashOk H L r
      → find_index H L r k ≡ found
      → k ≢ j
      → get_at H L get
          (store_entry H L r found k v)
          next
          (find_index H L (store_entry H L r found k v) j)
        ≡ get_at H L get r next (find_index H L r j)
  unfolding value_at
  get_at-store_ne get r k j v found next hok e ne =
      ap (get_at H L get (store_entry H L r found k v) next)
        (find_index-store_ne H L r k j v found hok e ne)
      ∙ get_at-found get r (store_entry H L r found k v) next (find_index H L r j)
          (λ i f. ap (value_of H L) (entry_at-store_ne H L r k j v found i hok e ne f))
