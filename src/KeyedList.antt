-- ===== src/KeyedList.antt =====
-- generic/tclXkeylist.c: keyed lists, an array of entries with a hash table of their indices.
-- An object is a string that is not converted yet, or a keyed list: `arraySize`, the hash table if
-- there is one, and the entries in use (`numEntries` is their number). A keypath is the bytes of a
-- C string. Loops and recursions over a keypath run on fuel, one more than its length.
pub mod Index
pub mod Sound
pub mod Lookup
pub mod Paths
pub mod Frame
pub mod Deleted
pub mod Reach
pub mod Fuel
pub mod Total
pub mod Duplicate
pub mod Commands
use tclx.Base.{
  ℕ, zero, suc, ◌+◌, ◌-◌, ◌≡◌, Bool, true, false, ◌||◌, ◌&&◌, Option, none, some, List, [], ◌∷◌,
  Text, text_eq, ltb, leb, ◌==◌, if◌then◌else◌, length, has,
}
use tclx.Tcl.{HashApi, ListApi}

mutual
  pub data Obj (T : Type 0) : Type 0 where
    plain : Text → Obj T
    keyl : ℕ → Option T → Entries T → Obj T

  pub data Entries (T : Type 0) : Type 0 where
    nil : Entries T
    cons : Text → Obj T → Entries T → Entries T

pub data KeyError : Type 0 where
  bad_list bad_entry binary_key empty_key dotted_key : KeyError

-- TCL_OK with a value, TCL_BREAK, TCL_ERROR with a message, and no fuel left.
pub data Status {ℓ} (A : Type ℓ) : Type ℓ where
  ok : A → Status A
  break : Status A
  error : KeyError → Status A
  no_fuel : Status A

infixl 5 ◌>>=◌ ◌>>◌
abbrev pub ◌>>=◌ {ℓ κ} : {A : Type ℓ} {B : Type κ} → Status A → (A → Status B) → Status B
ok value >>= next = next value
break >>= next = break
error what >>= next = error what
no_fuel >>= next = no_fuel

abbrev pub ◌>>◌ {ℓ κ} : {A : Type ℓ} {B : Type κ} → Status A → Status B → Status B
status >> next = status >>= λ done. next

abbrev pub array_incr_size : ℕ
array_incr_size = 16

abbrev pub dot : ℕ
dot = b'.'

-- `strlen (key) != keyLen` says that a byte of the key is NUL.
unfoldable pub validate_key : Text → Status (Unit {0})
validate_key key =
    if has 0 key then error binary_key else if length key == 0 then error empty_key else ok tt

-- `strchr (key, '.')`: the key of this level, and what follows the separator.
unfoldable pub split_key : Text → Text × Option Text
split_key [] = ([], none)
split_key (c ∷ s) = let (k, r) = split_key s in if c == dot then ([], some s) else (c ∷ k, r)

module _ {T : Type 0} where
  unfoldable pub num_entries : Entries T → ℕ
  num_entries nil = 0
  num_entries (cons k v es) = suc (num_entries es)

  unfoldable pub entry_at : Entries T → ℕ → Option (Text × Obj T)
  entry_at nil i = none
  entry_at (cons k v es) zero = some (k, v)
  entry_at (cons k v es) (suc i) = entry_at es i

  -- `entries [idx]` with its key and value replaced.
  unfoldable pub put_at : Entries T → ℕ → Text → Obj T → Entries T
  put_at nil i key value = nil
  put_at (cons k v es) zero key value = cons key value es
  put_at (cons k v es) (suc i) key value = cons k v (put_at es i key value)

  -- `entries [numEntries++]`.
  unfoldable pub append_entry : Entries T → Text → Obj T → Entries T
  append_entry nil key value = cons key value nil
  append_entry (cons k v es) key value = cons k v (append_entry es key value)

  -- The entries behind `idx` move down by one.
  unfoldable pub remove_at : Entries T → ℕ → Entries T
  remove_at nil i = nil
  remove_at (cons k v es) zero = es
  remove_at (cons k v es) (suc i) = cons k v (remove_at es i)

  -- The linear search; `numEntries` if there is none.
  unfoldable pub linear_find : Entries T → Text → ℕ
  linear_find nil key = 0
  linear_find (cons k v es) key =
      let rest = linear_find es key in
      if length k == length key && text_eq k key then 0 else suc rest

  unfoldable pub ensure_space : ℕ → Entries T → ℕ → ℕ
  unfolding num_entries
  ensure_space array_size es new_num_entries =
      if ltb (array_size - num_entries es) new_num_entries
      then array_size + new_num_entries + array_incr_size
      else array_size

  unfoldable pub key_list : Entries T → List Text
  key_list nil = []
  key_list (cons k v es) = k ∷ key_list es

  unfoldable mutual
    -- Tcl_DuplicateObj, whose `dupIntRepProc` leaves out the hash table.
    pub duplicate : Obj T → Obj T
    duplicate (plain s) = plain s
    duplicate (keyl n h es) = keyl n none (duplicate_entries es)

    pub duplicate_entries : Entries T → Entries T
    duplicate_entries nil = nil
    duplicate_entries (cons k v es) = cons k (duplicate v) (duplicate_entries es)

  unfoldable pub dup_shared_child : Bool → Obj T → Obj T
  unfolding duplicate
  dup_shared_child true v = duplicate v
  dup_shared_child false v = v

module _ (H : HashApi) (L : ListApi) where
  abbrev pub KeylObj : Type 0
  KeylObj = Obj H.Table

  -- The internal representation of an object of the type.
  pub record KeylInt : Type 0 where
    pub array_size : ℕ
    pub hash : Option H.Table
    pub entries : Entries H.Table

  abbrev pub of_int : KeylInt → KeylObj
  of_int r = keyl r.array_size r.hash r.entries

  unfoldable pub new_keyed_list : KeylObj
  new_keyed_list = keyl 0 (some H.empty) nil

  -- One element of the list: a list of a key and a value.
  unfoldable pub parse_entry : Option (List Text) → Status (Text × Text)
  unfolding validate_key
  parse_entry (some (k ∷ v ∷ [])) = do
    validate_key k
    if has dot k then error dotted_key else ok (k, v)
  parse_entry _ = error bad_entry

  -- The loop over the elements, from the entries and the hash table of those before.
  unfoldable pub set_entries :
      List Text → Entries H.Table → H.Table → Status (Entries H.Table × H.Table)
  unfolding parse_entry append_entry num_entries
  set_entries [] es t = ok (es, t)
  set_entries (elem ∷ elems) es t = do
    (k, v) ← parse_entry (L.elements elem)
    set_entries elems (append_entry es k (plain v)) (H.set k (num_entries es) t)

  unfoldable pub set_keyed_list_from_any : Option (List Text) → Status KeylInt
  unfolding set_entries ensure_space
  set_keyed_list_from_any none = error bad_list
  set_keyed_list_from_any (some elems) = do
    (es, t) ← set_entries elems nil H.empty
    ok (record {
      array_size = ensure_space {T = H.Table} 0 nil (length elems);
      hash = some t;
      entries = es;
    })

  -- Tcl_ConvertToType.
  unfoldable pub convert : KeylObj → Status KeylInt
  unfolding set_keyed_list_from_any
  convert (plain s) = set_keyed_list_from_any (L.elements s)
  convert (keyl n h es) = ok (record { array_size = n; hash = h; entries = es })

  abbrev pub hash_find : Text → Option H.Table → Option ℕ
  hash_find k none = none
  hash_find k (some t) = H.find k t

  -- The index of the entry for the key of this level, by the hash table or else by the search.
  unfoldable pub start_index : Option ℕ → Entries H.Table → Text → ℕ
  unfolding linear_find
  start_index (some i) es k = i
  start_index none es k = linear_find es k

  unfoldable pub find_index : KeylInt → Text → Option ℕ
  unfolding start_index num_entries
  find_index r k =
      let i = start_index (hash_find k r.hash) r.entries k in
      if leb (num_entries r.entries) i then none else some i

  unfoldable pub hash_set : Option H.Table → Text → ℕ → H.Table
  hash_set none k i = H.set k i H.empty
  hash_set (some t) k i = H.set k i t

  unfoldable pub hash_delete : Option H.Table → Text → ℕ → Option H.Table
  hash_delete none k i = none
  hash_delete (some t) k i = some (H.update_all (λ n. if ltb i n then n - 1 else n) (H.delete k t))

  -- The key of the deleted entry is read from the array.
  unfoldable pub delete_entry : KeylInt → ℕ → KeylInt
  unfolding hash_delete entry_at remove_at
  delete_entry r i = elim (entry_at r.entries i) [
    | none ↦ r
    | some (k, v) ↦ record r { hash = hash_delete r.hash k i; entries = remove_at r.entries i }
  ]

  -- A new entry at the end.
  unfoldable pub add_entry : KeylInt → Text → KeylObj → KeylInt
  unfolding hash_set ensure_space append_entry num_entries
  add_entry r k value = record {
    array_size = ensure_space r.array_size r.entries 1;
    hash = some (hash_set r.hash k (num_entries r.entries));
    entries = append_entry r.entries k value;
  }

  -- The entry `i` replaced, or a new one.
  unfoldable pub store_entry : KeylInt → Option ℕ → Text → KeylObj → KeylInt
  unfolding add_entry put_at
  store_entry r none k value = add_entry r k value
  store_entry r (some i) k value = record r {
    hash = some (hash_set r.hash k i);
    entries = put_at r.entries i k value;
  }

  -- `entries [i].valuePtr`; an index that was found is within the array.
  unfoldable pub value_of : Option (Text × KeylObj) → Status KeylObj
  value_of none = break
  value_of (some e) = ok e.1

  unfoldable pub value_at : KeylInt → ℕ → Status KeylObj
  unfolding entry_at value_of
  value_at r i = value_of (entry_at r.entries i)

  unfoldable pub put_value : KeylInt → ℕ → KeylObj → KeylInt
  unfolding put_at entry_at
  put_value r i v = elim (entry_at r.entries i) [
    | none ↦ r
    | some (k, w) ↦ record r { entries = put_at r.entries i k v }
  ]

  -- One level of TclX_KeyedListGet, from the sub-keypath and the index found; `rec` goes on below.
  unfoldable pub get_at :
      (KeylObj → Text → Status KeylObj) → KeylInt → Option Text → Option ℕ → Status KeylObj
  get_at rec r next none = break
  get_at rec r none (some i) = value_at r i
  get_at rec r (some sub) (some i) = value_at r i >>= λ v. rec v sub

  unfoldable pub get_loop : ℕ → KeylObj → Text → Status KeylObj
  unfolding convert find_index value_at get_at
  get_loop zero obj key = no_fuel
  get_loop (suc f) obj key = do
    r ← convert obj
    let (k, next) = split_key key
    get_at (get_loop f) r next (find_index r k)

  unfoldable pub keyed_list_get : KeylObj → Text → Status KeylObj
  unfolding get_loop
  keyed_list_get obj key = get_loop (suc (length key)) obj key

  -- One level of TclX_KeyedListSet. A new sub-list is added only when its set came back without
  -- error; `shared` says whether the child found is shared.
  unfoldable pub set_at :
      (KeylObj → Text → Status KeylObj)
      → Bool
      → KeylInt
      → Text
      → KeylObj
      → Option Text
      → Option ℕ
      → Status KeylObj
  set_at rec shared r k value none found = ok (of_int (store_entry r found k value))
  set_at rec shared r k value (some sub) (some i) = value_at r i >>= λ v.
      rec (dup_shared_child shared v) sub >>= λ child. ok (of_int (put_value r i child))
  set_at rec shared r k value (some sub) none =
      rec new_keyed_list sub >>= λ child. ok (of_int (add_entry r k child))

  -- TclX_KeyedListSet; `shared` is asked at each level, by the fuel left.
  unfoldable pub set_loop : ℕ → (ℕ → Bool) → KeylObj → KeylObj → Text → Status KeylObj
  unfolding convert find_index value_at put_value store_entry add_entry dup_shared_child
      new_keyed_list set_at
  set_loop zero shared value obj key = no_fuel
  set_loop (suc f) shared value obj key = do
    r ← convert obj
    let (k, next) = split_key key
    set_at (set_loop f shared value) (shared f) r k value next (find_index r k)

  unfoldable pub keyed_list_set : (ℕ → Bool) → KeylObj → Text → KeylObj → Status KeylObj
  unfolding set_loop
  keyed_list_set shared obj key value = set_loop (suc (length key)) shared value obj key

  -- A sub-list that became empty is deleted with its entry.
  unfoldable pub drop_empty : KeylInt → ℕ → KeylObj → KeylInt
  unfolding put_value delete_entry
  drop_empty r i (plain s) = put_value r i (plain s)
  drop_empty r i (keyl n h nil) = delete_entry r i
  drop_empty r i (keyl n h (cons k v es)) = put_value r i (keyl n h (cons k v es))

  unfoldable pub delete_at :
      (KeylObj → Text → Status KeylObj) → Bool → KeylInt → Option Text → Option ℕ → Status KeylObj
  delete_at rec shared r next none = break
  delete_at rec shared r none (some i) = ok (of_int (delete_entry r i))
  delete_at rec shared r (some sub) (some i) = value_at r i >>= λ v.
      rec (dup_shared_child shared v) sub >>= λ child. ok (of_int (drop_empty r i child))

  -- TclX_KeyedListDelete.
  unfoldable pub delete_loop : ℕ → (ℕ → Bool) → KeylObj → Text → Status KeylObj
  unfolding convert find_index value_at drop_empty delete_entry dup_shared_child delete_at
  delete_loop zero shared obj key = no_fuel
  delete_loop (suc f) shared obj key = do
    r ← convert obj
    let (k, next) = split_key key
    delete_at (delete_loop f shared) (shared f) r next (find_index r k)

  unfoldable pub keyed_list_delete : (ℕ → Bool) → KeylObj → Text → Status KeylObj
  unfolding delete_loop
  keyed_list_delete shared obj key = delete_loop (suc (length key)) shared obj key

  unfoldable pub keys_at :
      (KeylObj → Option Text → Status (List Text))
      → KeylInt
      → Option Text
      → Option ℕ
      → Status (List Text)
  keys_at rec r next none = break
  keys_at rec r next (some i) = value_at r i >>= λ v. rec v next

  -- TclX_KeyedListGetKeys; a key that is NULL or empty asks for the keys of this level.
  unfoldable pub keys_loop : ℕ → KeylObj → Option Text → Status (List Text)
  unfolding convert find_index value_at key_list keys_at
  keys_loop zero obj key = no_fuel
  keys_loop (suc f) obj none = do r ← convert obj; ok (key_list r.entries)
  keys_loop (suc f) obj (some []) = do r ← convert obj; ok (key_list r.entries)
  keys_loop (suc f) obj (some (c ∷ s)) = do
    r ← convert obj
    let (k, next) = split_key (c ∷ s)
    keys_at (keys_loop f) r next (find_index r k)

  unfoldable pub keyed_list_get_keys : KeylObj → Option Text → Status (List Text)
  unfolding keys_loop
  keyed_list_get_keys obj none = keys_loop 1 obj none
  keyed_list_get_keys obj (some key) = keys_loop (suc (length key)) obj (some key)

  -- UpdateStringOfKeyedList: the string of a list of two-element lists.
  unfoldable mutual
    pub string_of : KeylObj → Text
    string_of (plain s) = s
    string_of (keyl n h es) = L.format (entry_strings es)

    pub entry_strings : Entries H.Table → List Text
    entry_strings nil = []
    entry_strings (cons k v es) = L.format (k ∷ string_of v ∷ []) ∷ entry_strings es
