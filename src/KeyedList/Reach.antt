-- ===== src/KeyedList/Reach.antt =====
-- The keyed lists that come from strings and new lists by the operations.
use tclx.Base.{ℕ, zero, suc, ◌≡◌, Bool, Option, none, some, Text, length}
use tclx.Tcl.{HashApi, ListApi}
use tclx.KeyedList.{
  Obj, plain, KeylInt, find_index, value_at, Status, ok, convert, split_key, get_at, get_loop,
  keyed_list_get, keyed_list_set, keyed_list_delete, new_keyed_list, duplicate,
}
use tclx.KeyedList.Sound.{
  IsSound, RepSound, >>=-eq-ok, convert-RepSound, entry_at-IsSound, value_at-eq-ok,
  new_keyed_list-IsSound, duplicate-IsSound_all,
}
use tclx.KeyedList.Sound.Operations.{keyed_list_set-IsSound, keyed_list_delete-IsSound}

module _ (H : HashApi) (L : ListApi) where
  -- Strings, new keyed lists, duplicates, and what TclX_KeyedListSet, with a value that came about
  -- in the same way, TclX_KeyedListDelete and TclX_KeyedListGet give when they succeed.
  pub data Reach : Obj H.Table → Type 0 where
    string : (s : Text) → Reach (plain s)
    start : Reach (new_keyed_list H L)
    copy : {o : Obj H.Table} → Reach o → Reach (duplicate o)
    set :
        {o v o' : Obj H.Table} (shared : ℕ → Bool) (key : Text)
        → Reach o
        → Reach v
        → keyed_list_set H L shared o key v ≡ ok o'
        → Reach o'
    delete :
        {o o' : Obj H.Table} (shared : ℕ → Bool) (key : Text)
        → Reach o
        → keyed_list_delete H L shared o key ≡ ok o'
        → Reach o'
    taken : {o v : Obj H.Table} (key : Text) → Reach o → keyed_list_get H L o key ≡ ok v → Reach v

  value_at-IsSound :
      (r : KeylInt H L) (i : ℕ) {v : Obj H.Table}
      → RepSound H L r
      → value_at H L r i ≡ ok v
      → IsSound H L v
  value_at-IsSound r i s q =
      let (k, at) = value_at-eq-ok H L r i q in entry_at-IsSound H L r.entries i s.1 at

  get_at-IsSound :
      (get : Obj H.Table → Text → Status (Obj H.Table)) (r : KeylInt H L) (next : Option Text)
      (found : Option ℕ) {v : Obj H.Table}
      → ((o : Obj H.Table) (s : Text) (c : Obj H.Table)
          → IsSound H L o
          → get o s ≡ ok c
          → IsSound H L c)
      → RepSound H L r
      → get_at H L get r next found ≡ ok v
      → IsSound H L v
  unfolding get_at
  get_at-IsSound get r none none ih s q = cc
  get_at-IsSound get r (some sub) none ih s q = cc
  get_at-IsSound get r none (some i) ih s q = value_at-IsSound r i s q
  get_at-IsSound get r (some sub) (some i) {v} ih s q =
      let (c, got_c, below) = >>=-eq-ok H L (value_at H L r i) _ q in
      ih c sub v (value_at-IsSound r i s got_c) below

  get_loop-IsSound :
      (f : ℕ) (obj : Obj H.Table) (key : Text) (v : Obj H.Table)
      → IsSound H L obj
      → get_loop H L f obj key ≡ ok v
      → IsSound H L v
  unfolding get_loop
  get_loop-IsSound zero obj key v s q = cc
  get_loop-IsSound (suc f) obj key v s q =
      let (r, conv, q₁) = >>=-eq-ok H L (convert H L obj) _ q in
      let (k, next) = split_key key in
      get_at-IsSound (get_loop H L f) r next (find_index H L r k)
        (λ o sub c so below. get_loop-IsSound f o sub c so below) (convert-RepSound H L obj s conv)
        q₁

  -- A keyed list that comes from strings and new lists by successful calls of TclX_KeyedListSet,
  -- TclX_KeyedListDelete and TclX_KeyedListGet, with any sharing, and by duplications is sound:
  -- at every level each index in the hash table is that of an entry with its key.
  pub Reach-IsSound : {o : Obj H.Table} → Reach o → IsSound H L o
  unfolding keyed_list_get
  Reach-IsSound (string s) = tt
  Reach-IsSound start = new_keyed_list-IsSound H L
  Reach-IsSound (copy {o} h) = duplicate-IsSound_all H L o (Reach-IsSound h)
  Reach-IsSound (set {o} {v} shared key h hv q) =
      keyed_list_set-IsSound H L shared o v key (Reach-IsSound h) (Reach-IsSound hv) q
  Reach-IsSound (delete {o} shared key h q) =
      keyed_list_delete-IsSound H L shared o key (Reach-IsSound h) q
  Reach-IsSound (taken {o} {v} key h q) =
      get_loop-IsSound (suc (length key)) o key v (Reach-IsSound h) q
