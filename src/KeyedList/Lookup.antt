-- ===== src/KeyedList/Lookup.antt =====
-- FindKeyedListEntry after an entry was added, replaced or given another value.
use tclx.Base.{
  ℕ, zero, suc, ◌≡◌, ◌≢◌, inl, inr, refl, sym, false, Option, none, some, Text, text_eq,
  text_eq_refl, text_eq→eq, ltb, leb, if◌then◌else◌, arith, ap, ◌∙◌, Bool-cases, Option-cases,
}
use tclx.Tcl.{HashApi, ListApi}
use tclx.KeyedList.{
  Obj, Entries, nil, cons, num_entries, entry_at, put_at, append_entry, linear_find, KeylInt,
  hash_find, find_index, start_index, store_entry, put_value, value_at, value_of, ok,
}
use tclx.KeyedList.Index.{
  HashOk, entry_at-lt, entry_at-put_at, num_entries-put_at, entry_at-append_entry,
  num_entries-append_entry, found_below, find_index-some, hash_find-hash_set, put_value-some,
}

pub text_ne : (k j : Text) → k ≢ j → text_eq k j ≡ false
text_ne k j ne = elim (Bool-cases (text_eq k j)) [
  | inl same ↦ absurd (ne (text_eq→eq k j same))
  | inr other ↦ other
]

module _ {T : Type 0} where
  -- Replacing the value of an entry leaves the search as it is.
  linear_find-put_at :
      (es : Entries T) (i : ℕ) (k j : Text) (c v : Obj T)
      → entry_at es i ≡ some (k, v)
      → linear_find (put_at es i k c) j ≡ linear_find es j
  unfolding linear_find put_at entry_at
  linear_find-put_at nil i k j c v h = refl
  linear_find-put_at (cons l w es) zero k j c v h = let e : l ≡ k = cc in rw e
  linear_find-put_at (cons l w es) (suc i) k j c v h = rw (linear_find-put_at es i k j c v h)

  -- An entry with another key at the end is not found, and moves the end.
  linear_find-append_entry :
      (es : Entries T) (k j : Text) (v : Obj T)
      → text_eq k j ≡ false
      → linear_find (append_entry es k v) j ≡ (
          if ltb (linear_find es j) (num_entries es)
          then linear_find es j
          else suc (num_entries es))
  unfolding linear_find append_entry num_entries
  linear_find-append_entry nil k j v h = ground arith
  linear_find-append_entry (cons l w es) k j v h =
      ground (arith, linear_find-append_entry es k j v h)

module _ (H : HashApi) (L : ListApi) where
  pub value_at-entry :
      (r : KeylInt H L) (i : ℕ) {k : Text} {v : Obj H.Table}
      → entry_at r.entries i ≡ some (k, v)
      → value_at H L r i ≡ ok v
  unfolding value_at value_of
  value_at-entry r i e = rw e

  -- The key just stored is found, with its value.
  pub find_index-store :
      (r : KeylInt H L) (k : Text) (v : Obj H.Table) (found : Option ℕ)
      → HashOk H L r
      → find_index H L r k ≡ found
      → (i : ℕ) × (find_index H L (store_entry H L r found k v) k ≡ some i)
        × (entry_at (store_entry H L r found k v).entries i ≡ some (k, v))
  unfolding store_entry start_index
  find_index-store r k v none hok e =
      let n = num_entries r.entries in
      let r' : KeylInt H L = store_entry H L r none k v in
      let hit : hash_find H L k r'.hash ≡ some n =
        ground (arith, hash_find-hash_set H L r.hash k k n, text_eq_refl k) in
      let found = found_below H L r' k {n = n} (ap (λ o. start_index H L o r'.entries k) hit) in
      (
        n,
        ground (arith, found, num_entries-append_entry r.entries k v),
        ground (arith, entry_at-append_entry r.entries n k v),
      )
  find_index-store r k v (some i) hok e =
      let (w, at) = find_index-some H L r k hok e in
      let lt = entry_at-lt r.entries i at in
      let r' : KeylInt H L = store_entry H L r (some i) k v in
      let hit : hash_find H L k r'.hash ≡ some i =
        ground (arith, hash_find-hash_set H L r.hash k k i, text_eq_refl k) in
      let found = found_below H L r' k {n = i} (ap (λ o. start_index H L o r'.entries k) hit) in
      (
        i,
        ground (arith, found, num_entries-put_at r.entries i k v, lt),
        ground (arith, entry_at-put_at r.entries i i k v lt),
      )

  -- Giving an entry another value leaves every search as it is.
  pub find_index-put_value :
      (r : KeylInt H L) (i : ℕ) (c : Obj H.Table) (j : Text) {k : Text} {v : Obj H.Table}
      → entry_at r.entries i ≡ some (k, v)
      → find_index H L (put_value H L r i c) j ≡ find_index H L r j
  unfolding find_index
  find_index-put_value r i c j {k} {v} at =
      ap (λ (q : KeylInt H L). find_index H L q j) (put_value-some H L r i c at)
      ∙ same (hash_find H L j r.hash)
    where
      same :
          (o : Option ℕ)
          → (if leb
                (num_entries (put_at r.entries i k c))
                (start_index H L o (put_at r.entries i k c) j)
              then none
              else some (start_index H L o (put_at r.entries i k c) j))
            ≡ (if leb (num_entries r.entries) (start_index H L o r.entries j)
                then none
                else some (start_index H L o r.entries j))
      same none = rw (num_entries-put_at, linear_find-put_at r.entries i k j c v at)
      same (some m) = rw num_entries-put_at

  -- Storing one key leaves the search for another, and the value there, as they are.
  pub find_index-store_ne :
      (r : KeylInt H L) (k j : Text) (v : Obj H.Table) (found : Option ℕ)
      → HashOk H L r
      → find_index H L r k ≡ found
      → k ≢ j
      → find_index H L (store_entry H L r found k v) j ≡ find_index H L r j
  unfolding store_entry start_index
  find_index-store_ne r k j v none hok e ne =
      let r' : KeylInt H L = store_entry H L r none k v in
      let other = text_ne k j ne in
      let table : hash_find H L j r'.hash ≡ hash_find H L j r.hash =
        ground (arith, hash_find-hash_set H L r.hash k j (num_entries r.entries), other) in
      elim (Option-cases (hash_find H L j r.hash)) [
        | inl miss ↦
            let before = found_below H L r j (ap (λ o. start_index H L o r.entries j) miss) in
            let after =
              found_below H L r' j (ap (λ o. start_index H L o r'.entries j) (table ∙ miss)) in
            ground (
              arith,
              before,
              after,
              num_entries-append_entry r.entries k v,
              linear_find-append_entry r.entries k j v other,
            )
        | inr (m, hit) ↦
            let before = found_below H L r j (ap (λ o. start_index H L o r.entries j) hit) in
            let after =
              found_below H L r' j (ap (λ o. start_index H L o r'.entries j) (table ∙ hit)) in
            let (w, at) = hok j m hit in
            ground (
              arith,
              before,
              after,
              num_entries-append_entry r.entries k v,
              entry_at-lt r.entries m at,
            )
      ]
  find_index-store_ne r k j v (some i) hok e ne =
      let r' : KeylInt H L = store_entry H L r (some i) k v in
      let (w, at) = find_index-some H L r k hok e in
      let table : hash_find H L j r'.hash ≡ hash_find H L j r.hash =
        ground (arith, hash_find-hash_set H L r.hash k j i, text_ne k j ne) in
      let start : start_index H L (hash_find H L j r.hash) r'.entries j
          ≡ start_index H L (hash_find H L j r.hash) r.entries j =
        same_start (hash_find H L j r.hash) w at in
      found_below H L r' j (ap (λ o. start_index H L o r'.entries j) table ∙ start)
      ∙ rw (num_entries-put_at r.entries i k v) (sym (found_below H L r j refl))
    where
      same_start :
          (o : Option ℕ) (w : Obj H.Table)
          → entry_at r.entries i ≡ some (k, w)
          → start_index H L o (put_at r.entries i k v) j ≡ start_index H L o r.entries j
      same_start none w at = linear_find-put_at r.entries i k j v w at
      same_start (some m) w at = refl

  pub entry_at-store_ne :
      (r : KeylInt H L) (k j : Text) (v : Obj H.Table) (found : Option ℕ) (m : ℕ)
      → HashOk H L r
      → find_index H L r k ≡ found
      → k ≢ j
      → find_index H L r j ≡ some m
      → entry_at (store_entry H L r found k v).entries m ≡ entry_at r.entries m
  unfolding store_entry
  entry_at-store_ne r k j v none m hok e ne f =
      let (w, at) = find_index-some H L r j hok f in
      ground (arith, entry_at-append_entry r.entries m k v, entry_at-lt r.entries m at)
  entry_at-store_ne r k j v (some i) m hok e ne f =
      let (w, at) = find_index-some H L r j hok f in
      let (u, here) = find_index-some H L r k hok e in
      let apart : i ≢ m = λ same. ne (keys same u w here at) in
      ground (arith, entry_at-put_at r.entries i m k v (entry_at-lt r.entries i here), apart)
    where
      keys :
          i ≡ m
          → (u w : Obj H.Table) → entry_at r.entries i ≡ some (k, u)
          → entry_at r.entries m ≡ some (j, w)
          → k ≡ j
      keys same u w a b = let c = ap (entry_at r.entries) same in cc
