-- ===== src/KeyedList/Duplicate.antt =====
-- DupKeyedListInternalRep, which drops the hash table, against FindKeyedListEntry.
use tclx.Base.{
  ℕ, suc, ◌≡◌, ◌<◌, inl, inr, refl, sym, false, Option, none, some, [], ◌∷◌, Text, text_eq_refl,
  ltb, leb, if◌then◌else◌, length, has, arith, ap, ◌∙◌, Bool-cases, Option-cases,
}
use tclx.Tcl.{HashApi, ListApi}
use tclx.KeyedList.{
  Obj, plain, Entries, nil, cons, num_entries, entry_at, append_entry, linear_find, KeylInt, of_int,
  hash_find, find_index, start_index, duplicate, duplicate_entries, ok, ◌>>=◌, convert,
  validate_key, parse_entry, set_entries, set_keyed_list_from_any, split_key, dot, get_at, get_loop,
  keyed_list_get, ensure_space,
}
use tclx.KeyedList.Index.{HashOk, entry_at-lt, linear_find-hit, linear_find-miss, found_below}
use tclx.KeyedList.Lookup.{value_at-entry}

module _ {T : Type 0} where
  num_entries-duplicate : (es : Entries T) → num_entries (duplicate_entries es) ≡ num_entries es
  unfolding duplicate num_entries
  num_entries-duplicate nil = refl
  num_entries-duplicate (cons k v es) = ap suc (num_entries-duplicate es)

  linear_find-duplicate :
      (es : Entries T) (k : Text) → linear_find (duplicate_entries es) k ≡ linear_find es k
  unfolding duplicate linear_find
  linear_find-duplicate nil k = refl
  linear_find-duplicate (cons l v es) k = rw (linear_find-duplicate es k)

  -- No key stands twice at this level.
  abbrev IsUnique : Entries T → Type 0
  IsUnique es =
      (i j : ℕ) (k : Text) (v w : Obj T)
      → entry_at es i ≡ some (k, v)
      → entry_at es j ≡ some (k, w)
      → i ≡ j

module _ (H : HashApi) (L : ListApi) where
  abbrev pub duplicate_int : KeylInt H L → KeylInt H L
  duplicate_int r = record r { hash = none; entries = duplicate_entries r.entries }

  find_index-duplicate_int :
      (r : KeylInt H L) (k : Text)
      → find_index H L (duplicate_int r) k ≡ (
          if leb (num_entries r.entries) (linear_find r.entries k)
          then none
          else some (linear_find r.entries k))
  unfolding find_index start_index
  find_index-duplicate_int r k =
      rw (num_entries-duplicate r.entries, linear_find-duplicate r.entries k)

  -- Where the hash table is sound and no key stands twice, a duplicate without its hash table
  -- finds each key at the same index as the original.
  find_index-duplicate :
      (r : KeylInt H L) (k : Text)
      → HashOk H L r
      → IsUnique r.entries
      → find_index H L (duplicate_int r) k ≡ find_index H L r k
  unfolding start_index
  find_index-duplicate r k hok unique = elim (Option-cases (hash_find H L k r.hash)) [
    | inl miss ↦
        let found = found_below H L r k (ap (λ o. start_index H L o r.entries k) miss) in
        find_index-duplicate_int r k ∙ sym found
    | inr (i, hit) ↦
        let found = found_below H L r k (ap (λ o. start_index H L o r.entries k) hit) in
        let (v, at) = hok k i hit in
        let below = entry_at-lt r.entries i at in
        let inside : linear_find r.entries k < num_entries r.entries = search i v at in
        let (w, first) = linear_find-hit r.entries k inside in
        let same : linear_find r.entries k ≡ i = unique _ i k w v first at in
        ground (arith, find_index-duplicate_int r k, found, same)
  ]
    where
      search :
          (i : ℕ) (v : Obj H.Table)
          → entry_at r.entries i ≡ some (k, v)
          → linear_find r.entries k < num_entries r.entries
      search i v at = elim (Bool-cases (ltb (linear_find r.entries k) (num_entries r.entries))) [
        | inl lt ↦ ground arith
        | inr ge ↦ absurd (linear_find-miss r.entries k (ground arith) i v at)
      ]

  split_key-plain : (k : Text) → has dot k ≡ false → split_key k ≡ (k, none)
  unfolding split_key
  split_key-plain [] h = refl
  split_key-plain (c ∷ k) h = ground (arith, split_key-plain k)

  parse_entry-pair :
      (e k v : Text)
      → L.elements e ≡ some (k ∷ v ∷ [])
      → validate_key k ≡ ok tt
      → has dot k ≡ false
      → parse_entry H L (L.elements e) ≡ ok (k, v)
  unfolding parse_entry
  parse_entry-pair e k v pair valid plain_key = rw (pair, parse_entry, valid, plain_key)

  -- The representation that a string with the key `k` twice is converted to.
  twice : Text → Text → Text → KeylInt H L
  twice k a b = record {
    array_size = ensure_space {T = H.Table} 0 nil 2;
    hash = some (H.set k 1 (H.set k 0 H.empty));
    entries = cons k (plain a) (cons k (plain b) nil);
  }

  convert-twice :
      (s e₁ e₂ k a b : Text)
      → L.elements s ≡ some (e₁ ∷ e₂ ∷ [])
      → L.elements e₁ ≡ some (k ∷ a ∷ [])
      → L.elements e₂ ≡ some (k ∷ b ∷ [])
      → validate_key k ≡ ok tt
      → has dot k ≡ false
      → convert H L (plain s) ≡ ok (twice k a b)
  unfolding convert twice set_entries append_entry num_entries
  convert-twice s e₁ e₂ k a b whole first second valid plain_key =
      ap (set_keyed_list_from_any H L) whole
      ∙ rw (
        parse_entry-pair e₁ k a first valid plain_key,
        parse_entry-pair e₂ k b second valid plain_key,
      )

  get_loop-plain_key :
      (obj : Obj H.Table) (r : KeylInt H L) (k : Text) (i : ℕ) (v : Obj H.Table)
      → has dot k ≡ false
      → convert H L obj ≡ ok r
      → find_index H L r k ≡ some i
      → entry_at r.entries i ≡ some (k, v)
      → keyed_list_get H L obj k ≡ ok v
  unfolding keyed_list_get get_loop get_at
  get_loop-plain_key obj r k i v plain_key conv finds at =
      let get = get_loop H L (length k) in
      ap (λ m. m >>= λ q. get_at H L get q (split_key k).1 (find_index H L q (split_key k).0)) conv
      ∙ ap (λ (p : Text × Option Text). get_at H L get r p.1 (find_index H L r p.0))
          (split_key-plain k plain_key)
      ∙ ap (get_at H L get r none) finds
      ∙ value_at-entry H L r i at

  -- A string of two entries with one valid key converts to a keyed list; before and after
  -- conversion the key gives the last value, and on a duplicate of the converted list it gives
  -- the first.
  duplicate_changes_get :
      (s e₁ e₂ k a b : Text)
      → L.elements s ≡ some (e₁ ∷ e₂ ∷ [])
      → L.elements e₁ ≡ some (k ∷ a ∷ [])
      → L.elements e₂ ≡ some (k ∷ b ∷ [])
      → validate_key k ≡ ok tt
      → has dot k ≡ false
      → (r : KeylInt H L) × (convert H L (plain s) ≡ ok r)
        × (keyed_list_get H L (plain s) k ≡ ok (plain b))
        × (keyed_list_get H L (of_int H L r) k ≡ ok (plain b))
        × (keyed_list_get H L (duplicate (of_int H L r)) k ≡ ok (plain a))
  unfolding find_index start_index linear_find num_entries entry_at convert duplicate twice
  duplicate_changes_get s e₁ e₂ k a b whole first second valid plain_key =
      let conv = convert-twice s e₁ e₂ k a b whole first second valid plain_key in
      let r = twice k a b in
      let last : H.find k (H.set k 1 (H.set k 0 H.empty)) ≡ some 1 =
        ground (arith, H.find-set k k 1 (H.set k 0 H.empty), text_eq_refl k) in
      let finds : find_index H L r k ≡ some 1 = rw (last, start_index) in
      let finds_dup : find_index H L (duplicate_int r) k ≡ some 0 =
        ground (arith, text_eq_refl k) in
      (
        r,
        conv,
        get_loop-plain_key (plain s) r k 1 (plain b) plain_key conv finds refl,
        get_loop-plain_key (of_int H L r) r k 1 (plain b) plain_key refl finds refl,
        get_loop-plain_key (duplicate (of_int H L r)) (duplicate_int r) k 0 (plain a) plain_key refl
            finds_dup refl,
      )
