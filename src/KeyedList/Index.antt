-- ===== src/KeyedList/Index.antt =====
-- The entry array and the hash table over it: what FindKeyedListEntry returns.
use tclx.Base.{
  ℕ, zero, suc, ◌-◌, ◌≡◌, ◌≢◌, ◌≤◌, ◌<◌, ◌⊎◌, inl, inr, refl, sym, ◌&&◌, Option, none, some, Text,
  text_eq, text_eq_refl, text_eq→eq, ltb, leb, ◌==◌, if◌then◌else◌, length, arith, ap, ◌∙◌,
  Bool-cases, Option-cases, ==→eq, subst,
}
use tclx.Tcl.{HashApi, ListApi, map_value}
use tclx.KeyedList.{
  Obj, Entries, nil, cons, num_entries, entry_at, put_at, append_entry, remove_at, linear_find,
  KeylInt, hash_find, find_index, start_index, hash_set, hash_delete, delete_entry, add_entry,
  store_entry, put_value,
}

module _ {T : Type 0} where
  pub entry_at-lt :
      (es : Entries T) (i : ℕ) {e : Text × Obj T} → entry_at es i ≡ some e → i < num_entries es
  unfolding entry_at num_entries
  entry_at-lt nil i h = cc
  entry_at-lt (cons k v es) zero h = omega arith
  entry_at-lt (cons k v es) (suc i) h = omega (arith, entry_at-lt es i h)

  entry_at-some :
      (es : Entries T) (i : ℕ) → i < num_entries es → (e : Text × Obj T) × (entry_at es i ≡ some e)
  unfolding entry_at num_entries
  entry_at-some nil i h = absurd (omega arith)
  entry_at-some (cons k v es) zero h = ((k, v), refl)
  entry_at-some (cons k v es) (suc i) h = entry_at-some es i (omega arith)

  pub entry_at-put_at :
      (es : Entries T) (i j : ℕ) (k : Text) (v : Obj T)
      → i < num_entries es
      → entry_at (put_at es i k v) j ≡ (if i == j then some (k, v) else entry_at es j)
  unfolding entry_at num_entries put_at
  entry_at-put_at nil i j k v h = absurd (omega arith)
  entry_at-put_at (cons l w es) zero zero k v h = refl
  entry_at-put_at (cons l w es) zero (suc j) k v h = ground arith
  entry_at-put_at (cons l w es) (suc i) zero k v h = ground arith
  entry_at-put_at (cons l w es) (suc i) (suc j) k v h = ground (arith, entry_at-put_at es i j k v)

  pub num_entries-put_at :
      (es : Entries T) (i : ℕ) (k : Text) (v : Obj T)
      → num_entries (put_at es i k v) ≡ num_entries es
  unfolding num_entries put_at
  num_entries-put_at nil i k v = refl
  num_entries-put_at (cons l w es) zero k v = refl
  num_entries-put_at (cons l w es) (suc i) k v = ap suc (num_entries-put_at es i k v)

  pub entry_at-append_entry :
      (es : Entries T) (j : ℕ) (k : Text) (v : Obj T)
      → entry_at (append_entry es k v) j
        ≡ (if num_entries es == j then some (k, v) else entry_at es j)
  unfolding entry_at num_entries append_entry
  entry_at-append_entry nil zero k v = refl
  entry_at-append_entry nil (suc j) k v = ground arith
  entry_at-append_entry (cons l w es) zero k v = ground arith
  entry_at-append_entry (cons l w es) (suc j) k v = ground (arith, entry_at-append_entry es j k v)

  pub num_entries-append_entry :
      (es : Entries T) (k : Text) (v : Obj T)
      → num_entries (append_entry es k v) ≡ suc (num_entries es)
  unfolding num_entries append_entry
  num_entries-append_entry nil k v = refl
  num_entries-append_entry (cons l w es) k v = ap suc (num_entries-append_entry es k v)

  pub entry_at-remove_at :
      (es : Entries T) (i j : ℕ)
      → entry_at (remove_at es i) j ≡ (if ltb j i then entry_at es j else entry_at es (suc j))
  unfolding entry_at remove_at
  entry_at-remove_at nil i j = ground arith
  entry_at-remove_at (cons k v es) zero j = ground arith
  entry_at-remove_at (cons k v es) (suc i) zero = ground arith
  entry_at-remove_at (cons k v es) (suc i) (suc j) = ground (arith, entry_at-remove_at es i j)

  -- The linear search stops at the first entry with the key, or at the end.
  pub linear_find-hit :
      (es : Entries T) (k : Text)
      → linear_find es k < num_entries es
      → (v : Obj T) × (entry_at es (linear_find es k) ≡ some (k, v))
  unfolding entry_at num_entries linear_find
  linear_find-hit nil k h = absurd (omega arith)
  linear_find-hit (cons l v es) k h = elim (Bool-cases (length l == length k && text_eq l k)) [
    | inl same ↦ (v, rw same (ap (λ key. some (key, v)) (text_eq→eq l k (ground arith))))
    | inr other ↦ let (w, e) = linear_find-hit es k (ground arith) in (w, rw other e)
  ]

  pub linear_find-miss :
      (es : Entries T) (k : Text)
      → num_entries es ≤ linear_find es k
      → (j : ℕ) (v : Obj T) → entry_at es j ≢ some (k, v)
  unfolding entry_at num_entries linear_find
  linear_find-miss nil k h j v e = cc
  linear_find-miss (cons l w es) k h zero v e =
      let same : l ≡ k = cc in ground (arith, ap length same, text_eq_refl k)
  linear_find-miss (cons l w es) k h (suc j) v e = linear_find-miss es k (ground arith) j v e

module _ (H : HashApi) (L : ListApi) where
  -- Every index in the hash table is that of an entry with the key. Keys may be missing.
  abbrev pub HashOk : KeylInt H L → Type 0
  HashOk r =
      (k : Text) (i : ℕ)
      → hash_find H L k r.hash ≡ some i
      → (v : Obj H.Table) × (entry_at r.entries i ≡ some (k, v))

  start_index-cases :
      (r : KeylInt H L) (k : Text)
      → HashOk r
      → ((v : Obj H.Table) × (i : ℕ) × (hash_find H L k r.hash ≡ some i)
          × (entry_at r.entries i ≡ some (k, v)))
        ⊎ (hash_find H L k r.hash ≡ none)
  start_index-cases r k ok = elim (Option-cases (hash_find H L k r.hash)) [
    | inl miss ↦ inr miss
    | inr (i, hit) ↦ let (v, e) = ok k i hit in inl (v, i, hit, e)
  ]

  pub found_below :
      (r : KeylInt H L) (k : Text) {n : ℕ}
      → start_index H L (hash_find H L k r.hash) r.entries k ≡ n
      → find_index H L r k ≡ (if leb (num_entries r.entries) n then none else some n)
  unfolding find_index
  found_below r k e = rw e

  -- The index that FindKeyedListEntry returns, by the hash table or the search, is that of an
  -- entry with the key, when the hash table is sound.
  pub find_index-some :
      (r : KeylInt H L) (k : Text) {i : ℕ}
      → HashOk r
      → find_index H L r k ≡ some i
      → (v : Obj H.Table) × (entry_at r.entries i ≡ some (k, v))
  unfolding start_index
  find_index-some r k {i} ok h = elim (start_index-cases r k ok) [
    | inl (v, j, hit, e) ↦
        let found = found_below r k (ap (λ o. start_index H L o r.entries k) hit) in
        let same : j ≡ i = ground arith in (v, ap (entry_at r.entries) (sym same) ∙ e)
    | inr miss ↦
        let found = found_below r k (ap (λ o. start_index H L o r.entries k) miss) in
        let same : linear_find r.entries k ≡ i = ground arith in
        let (v, e) = linear_find-hit r.entries k (ground arith) in
        (v, ap (entry_at r.entries) (sym same) ∙ e)
  ]

  -- When FindKeyedListEntry returns -1 and the hash table is sound, no entry has the key.
  find_index-none :
      (r : KeylInt H L) (k : Text)
      → HashOk r
      → find_index H L r k ≡ none
      → (j : ℕ) (v : Obj H.Table) → entry_at r.entries j ≢ some (k, v)
  unfolding start_index
  find_index-none r k ok h j v at = elim (start_index-cases r k ok) [
    | inl (w, i, hit, e) ↦
        let found = found_below r k (ap (λ o. start_index H L o r.entries k) hit) in
        let lt = entry_at-lt r.entries i e in ground arith
    | inr miss ↦
        let found = found_below r k (ap (λ o. start_index H L o r.entries k) miss) in
        linear_find-miss r.entries k (ground arith) j v at
  ]

  pub hash_find-hash_set :
      (o : Option H.Table) (k j : Text) (i : ℕ)
      → H.find j (hash_set H L o k i) ≡ (if text_eq k j then some i else hash_find H L j o)
  unfolding hash_set
  hash_find-hash_set none k j i =
      H.find-set k j i H.empty ∙ ap (λ o. if text_eq k j then some i else o) (H.find-empty j)
  hash_find-hash_set (some t) k j i = H.find-set k j i t

  pub hash_find-hash_delete :
      (o : Option H.Table) (k j : Text) (i : ℕ)
      → hash_find H L j (hash_delete H L o k i) ≡ (
          if text_eq k j
          then none
          else map_value (λ n. if ltb i n then n - 1 else n) (hash_find H L j o))
  unfolding hash_delete
  hash_find-hash_delete none k j i = ground arith
  hash_find-hash_delete (some t) k j i =
      H.find-update_all _ j (H.delete k t) ∙ ap (map_value _) (H.find-delete k j t) ∙ ground arith

  -- Adding, replacing and deleting an entry keep the table in step with the array.
  pub add_entry-HashOk :
      (r : KeylInt H L) (k : Text) (v : Obj H.Table) → HashOk r → HashOk (add_entry H L r k v)
  unfolding add_entry
  add_entry-HashOk r k v ok j i h =
      let table = hash_find-hash_set r.hash k j (num_entries r.entries) in
      let at = entry_at-append_entry r.entries i k v in
      elim (Bool-cases (text_eq k j)) [
        | inl same ↦ (v, ground (arith, table, at, text_eq→eq k j same))
        | inr other ↦
            let old : hash_find H L j r.hash ≡ some i = ground (arith, table) in
            let (w, e) = ok j i old in (w, ground (arith, at, e, entry_at-lt r.entries i e))
      ]

  pub put_at-HashOk :
      (r : KeylInt H L) (k : Text) (v : Obj H.Table) (i : ℕ)
      → HashOk r
      → (w : Obj H.Table) → entry_at r.entries i ≡ some (k, w)
      → HashOk (store_entry H L r (some i) k v)
  unfolding store_entry
  put_at-HashOk r k v i ok w at_i j m h =
      let table = hash_find-hash_set r.hash k j i in
      let at = entry_at-put_at r.entries i m k v (entry_at-lt r.entries i at_i) in
      elim (Bool-cases (text_eq k j)) [
        | inl same ↦ (v, ground (arith, table, at, text_eq→eq k j same))
        | inr other ↦
            let old : hash_find H L j r.hash ≡ some m = ground (arith, table) in
            let (u, e) = ok j m old in
            elim (Bool-cases (i == m)) [
              | inl here ↦ (
                v,
                ground
                    (arith, at, e, at_i, ap (entry_at r.entries) (==→eq i m here), text_eq_refl j),
              )
              | inr there ↦ (u, ground (arith, at, e))
            ]
      ]

  pub delete_entry-some :
      (r : KeylInt H L) (i : ℕ) {k : Text} {v : Obj H.Table}
      → entry_at r.entries i ≡ some (k, v)
      → delete_entry H L r i
        ≡ record r { hash = hash_delete H L r.hash k i; entries = remove_at r.entries i }
  unfolding delete_entry
  delete_entry-some r i e = rw (e, delete_entry)

  removed-HashOk :
      (r : KeylInt H L) (i : ℕ) {k : Text} {v : Obj H.Table}
      → HashOk r
      → entry_at r.entries i ≡ some (k, v)
      → HashOk (record r { hash = hash_delete H L r.hash k i; entries = remove_at r.entries i })
  removed-HashOk r i {k} {v} ok here j m h =
      let table = hash_find-hash_delete r.hash k j i in
      elim (Bool-cases (text_eq k j)) [
        | inl same ↦ absurd (ground (arith, table))
        | inr other ↦ elim (Option-cases (hash_find H L j r.hash)) [
          | inl miss ↦ absurd (ground (arith, table, miss))
          | inr (n, hit) ↦
              let (w, e) = ok j n hit in
              let apart : i ≢ n =
                λ same. ground (arith, ap (entry_at r.entries) same, text_eq_refl j) in
              (w, ground (arith, table, hit, e, apart, entry_at-remove_at r.entries i m))
        ]
      ]

  pub delete_entry-HashOk :
      (r : KeylInt H L) (i : ℕ) {k : Text} {v : Obj H.Table}
      → HashOk r
      → entry_at r.entries i ≡ some (k, v)
      → HashOk (delete_entry H L r i)
  delete_entry-HashOk r i ok here =
      subst HashOk (sym (delete_entry-some r i here)) (removed-HashOk r i ok here)

  pub put_value-some :
      (r : KeylInt H L) (i : ℕ) (c : Obj H.Table) {k : Text} {v : Obj H.Table}
      → entry_at r.entries i ≡ some (k, v)
      → put_value H L r i c ≡ record r { entries = put_at r.entries i k c }
  unfolding put_value
  put_value-some r i c e = rw (e, put_value)

  pub put_value-HashOk :
      (r : KeylInt H L) (i : ℕ) (c : Obj H.Table) {k : Text} {v : Obj H.Table}
      → HashOk r
      → entry_at r.entries i ≡ some (k, v)
      → HashOk (put_value H L r i c)
  put_value-HashOk r i c {k} ok here = subst HashOk (sym (put_value-some r i c here)) λ j m h.
      let (w, e) = ok j m h in
      let at = entry_at-put_at r.entries i m k c (entry_at-lt r.entries i here) in
      elim (Bool-cases (i == m)) [
        | inl same ↦ (c, ground (arith, at, e, here, ap (entry_at r.entries) (==→eq i m same)))
        | inr other ↦ (w, ground (arith, at, e))
      ]
