-- ===== src/KeyedList/Fuel.antt =====
-- The fuel that the keypath operations are given is enough.
use tclx.Base.{
  ℕ, zero, suc, ◌≡◌, ◌<◌, refl, Bool, true, false, Option, none, some, List, [], ◌∷◌, Text, ◌==◌,
  if◌then◌else◌, length, has, arith,
}
use tclx.Tcl.{HashApi, ListApi}
use tclx.KeyedList.{
  Obj, plain, keyl, Entries, nil, num_entries, entry_at, append_entry, KeylInt, find_index,
  value_at, value_of, Status, ok, break, error, no_fuel, ◌>>=◌, convert, validate_key, parse_entry,
  set_entries, set_keyed_list_from_any, split_key, dot, set_at, set_loop, get_at, get_loop,
  delete_at, delete_loop, keys_at, keys_loop, keyed_list_get, keyed_list_set, keyed_list_delete,
  keyed_list_get_keys, dup_shared_child, new_keyed_list, binary_key, empty_key, dotted_key,
}
use tclx.KeyedList.Paths.{split_key-length}

-- A result that does not stem from fuel that ran out.
abbrev pub Ends {ℓ} : {A : Type ℓ} → Status A → Type 0
Ends (ok a) = Unit {0}
Ends break = Unit {0}
Ends (error e) = Unit {0}
Ends no_fuel = ⊥

abbrev key_length : Option Text → ℕ
key_length none = 0
key_length (some s) = length s

>>=-Ends {ℓ κ} :
    {A : Type ℓ} {B : Type κ} (m : Status A) (f : A → Status B)
    → Ends m
    → ((a : A) → m ≡ ok a → Ends (f a))
    → Ends (m >>= f)
>>=-Ends (ok a) f h k = k a refl
>>=-Ends break f h k = tt
>>=-Ends (error e) f h k = tt
>>=-Ends no_fuel f h k = h

module _ (H : HashApi) (L : ListApi) where
  validate_key-Ends : (k : Text) → Ends (validate_key k)
  unfolding validate_key
  validate_key-Ends k = go (has 0 k) (length k == 0)
    where
      go :
          (a b : Bool)
          → Ends {A = Unit {0}}
              (if a then error binary_key else if b then error empty_key else ok tt)
      go true b = tt
      go false true = tt
      go false false = tt

  parse_entry-Ends : (o : Option (List Text)) → Ends (parse_entry H L o)
  unfolding parse_entry
  parse_entry-Ends none = tt
  parse_entry-Ends (some []) = tt
  parse_entry-Ends (some (k ∷ [])) = tt
  parse_entry-Ends (some (k ∷ v ∷ [])) =
      >>=-Ends (validate_key k) _ (validate_key-Ends k) λ a e. go (has dot k)
    where
      go : (a : Bool) → Ends {A = Text × Text} (if a then error dotted_key else ok (k, v))
      go true = tt
      go false = tt
  parse_entry-Ends (some (k ∷ v ∷ w ∷ r)) = tt

  set_entries-Ends :
      (elems : List Text) (es : Entries H.Table) (t : H.Table) → Ends (set_entries H L elems es t)
  unfolding set_entries
  set_entries-Ends [] es t = tt
  set_entries-Ends (e ∷ elems) es t =
      >>=-Ends (parse_entry H L (L.elements e)) _ (parse_entry-Ends (L.elements e)) λ kv p.
        set_entries-Ends elems (append_entry es kv.0 (plain kv.1)) (H.set kv.0 (num_entries es) t)

  convert-Ends : (obj : Obj H.Table) → Ends (convert H L obj)
  unfolding convert
  convert-Ends (plain s) = go (L.elements s)
    where
      go : (o : Option (List Text)) → Ends (set_keyed_list_from_any H L o)
      go none = tt
      go (some elems) =
          >>=-Ends (set_entries H L elems nil H.empty) _ (set_entries-Ends elems nil H.empty)
            λ a e. tt
  convert-Ends (keyl n h es) = tt

  value_at-Ends : (r : KeylInt H L) (i : ℕ) → Ends (value_at H L r i)
  unfolding value_at
  value_at-Ends r i = go (entry_at r.entries i)
    where
      go : (o : Option (Text × Obj H.Table)) → Ends (value_of H L o)
      go none = tt
      go (some e) = tt

  get_loop-Ends :
      (f : ℕ) (obj : Obj H.Table) (key : Text) → length key < f → Ends (get_loop H L f obj key)
  unfolding get_loop
  get_loop-Ends zero obj key h = absurd (omega arith)
  get_loop-Ends (suc f) obj key h = >>=-Ends (convert H L obj) _ (convert-Ends obj) λ r e.
      go r (split_key key).1 (find_index H L r (split_key key).0) (λ s q. split_key-length key s q)
        (λ o s l. get_loop-Ends f o s (omega arith))
    where
      go :
          (r : KeylInt H L) (next : Option Text) (found : Option ℕ)
          → ((s : Text) → next ≡ some s → length s < length key)
          → ((o : Obj H.Table) (s : Text) → length s < length key → Ends (get_loop H L f o s))
          → Ends (get_at H L (get_loop H L f) r next found)
      go r none none short rec = tt
      go r (some s) none short rec = tt
      go r none (some i) short rec = value_at-Ends r i
      go r (some s) (some i) short rec =
          >>=-Ends (value_at H L r i) _ (value_at-Ends r i) λ v e. rec v s (short s refl)

  set_loop-Ends :
      (f : ℕ) (shared : ℕ → Bool) (value obj : Obj H.Table) (key : Text)
      → length key < f
      → Ends (set_loop H L f shared value obj key)
  unfolding set_loop
  set_loop-Ends zero shared value obj key h = absurd (omega arith)
  set_loop-Ends (suc f) shared value obj key h =
      >>=-Ends (convert H L obj) _ (convert-Ends obj) λ r e.
        go r (split_key key).1 (find_index H L r (split_key key).0)
          (λ s q. split_key-length key s q)
          (λ o s l. set_loop-Ends f shared value o s (omega arith))
    where
      go :
          (r : KeylInt H L) (next : Option Text) (found : Option ℕ)
          → ((s : Text) → next ≡ some s → length s < length key)
          → ((o : Obj H.Table) (s : Text)
              → length s < length key
              → Ends (set_loop H L f shared value o s))
          → Ends (
              set_at H L
                (set_loop H L f shared value)
                (shared f)
                r
                (split_key key).0
                value
                next
                found)
      go r none found short rec = tt
      go r (some s) none short rec =
          >>=-Ends (set_loop H L f shared value (new_keyed_list H L) s) _
            (rec (new_keyed_list H L) s (short s refl)) λ c e. tt
      go r (some s) (some i) short rec = >>=-Ends (value_at H L r i) _ (value_at-Ends r i) λ v e.
          >>=-Ends (set_loop H L f shared value (dup_shared_child (shared f) v) s) _
            (rec (dup_shared_child (shared f) v) s (short s refl)) λ c e'. tt

  delete_loop-Ends :
      (f : ℕ) (shared : ℕ → Bool) (obj : Obj H.Table) (key : Text)
      → length key < f
      → Ends (delete_loop H L f shared obj key)
  unfolding delete_loop
  delete_loop-Ends zero shared obj key h = absurd (omega arith)
  delete_loop-Ends (suc f) shared obj key h = >>=-Ends (convert H L obj) _ (convert-Ends obj) λ r e.
      go r (split_key key).1 (find_index H L r (split_key key).0) (λ s q. split_key-length key s q)
        (λ o s l. delete_loop-Ends f shared o s (omega arith))
    where
      go :
          (r : KeylInt H L) (next : Option Text) (found : Option ℕ)
          → ((s : Text) → next ≡ some s → length s < length key)
          → ((o : Obj H.Table) (s : Text)
              → length s < length key
              → Ends (delete_loop H L f shared o s))
          → Ends (delete_at H L (delete_loop H L f shared) (shared f) r next found)
      go r none none short rec = tt
      go r (some s) none short rec = tt
      go r none (some i) short rec = tt
      go r (some s) (some i) short rec = >>=-Ends (value_at H L r i) _ (value_at-Ends r i) λ v e.
          >>=-Ends (delete_loop H L f shared (dup_shared_child (shared f) v) s) _
            (rec (dup_shared_child (shared f) v) s (short s refl)) λ c e'. tt

  keys_loop-Ends :
      (f : ℕ) (obj : Obj H.Table) (key : Option Text)
      → key_length key < f
      → Ends (keys_loop H L f obj key)
  unfolding keys_loop
  keys_loop-Ends zero obj key h = absurd (omega arith)
  keys_loop-Ends (suc f) obj none h = >>=-Ends (convert H L obj) _ (convert-Ends obj) λ r e. tt
  keys_loop-Ends (suc f) obj (some []) h = >>=-Ends (convert H L obj) _ (convert-Ends obj) λ r e. tt
  keys_loop-Ends (suc f) obj (some (c ∷ s)) h =
      >>=-Ends (convert H L obj) _ (convert-Ends obj) λ r e.
        go r (split_key (c ∷ s)).1 (find_index H L r (split_key (c ∷ s)).0)
          (λ t q. split_key-length (c ∷ s) t q) (λ o t l. keys_loop-Ends f o t (omega arith))
    where
      go :
          (r : KeylInt H L) (next : Option Text) (found : Option ℕ)
          → ((t : Text) → next ≡ some t → length t < length (c ∷ s))
          → ((o : Obj H.Table) (t : Option Text)
              → key_length t < length (c ∷ s)
              → Ends (keys_loop H L f o t))
          → Ends (keys_at H L (keys_loop H L f) r next found)
      go r next none short rec = tt
      go r none (some i) short rec =
          >>=-Ends (value_at H L r i) _ (value_at-Ends r i) λ v e. rec v none (omega arith)
      go r (some t) (some i) short rec =
          >>=-Ends (value_at H L r i) _ (value_at-Ends r i) λ v e. rec v (some t) (short t refl)

  -- Get, set, delete and keys on a keypath, on fuel one above its length, each end with a value,
  -- a break or an error on every object.
  pub keyed_list-Ends :
      (shared : ℕ → Bool) (obj value : Obj H.Table) (key : Text)
      → Ends (keyed_list_get H L obj key)
        × Ends (keyed_list_set H L shared obj key value)
        × Ends (keyed_list_delete H L shared obj key)
        × Ends (keyed_list_get_keys H L obj (some key))
  unfolding keyed_list_get keyed_list_set keyed_list_delete keyed_list_get_keys
  keyed_list-Ends shared obj value key = (
    get_loop-Ends (suc (length key)) obj key (omega arith),
    set_loop-Ends (suc (length key)) shared value obj key (omega arith),
    delete_loop-Ends (suc (length key)) shared obj key (omega arith),
    keys_loop-Ends (suc (length key)) obj (some key) (omega arith),
  )
