-- ===== src/KeyedList/Deleted.antt =====
-- FindKeyedListEntry and a level of TclX_KeyedListGet after an entry was deleted.
pub mod Kept
pub mod Gone
use tclx.Base.{
  ℕ, zero, suc, ◌-◌, ◌≡◌, ◌≢◌, ◌<◌, refl, sym, inl, inr, false, Option, none, some, Text, text_eq,
  ltb, if◌then◌else◌, length, arith, ap, ◌∙◌, Option-cases,
}
use tclx.Tcl.{HashApi, ListApi, map_value}
use tclx.KeyedList.{
  Obj, plain, keyl, Entries, nil, cons, num_entries, entry_at, remove_at, linear_find, KeylInt,
  of_int, hash_find, find_index, start_index, hash_delete, delete_entry, put_value, value_at,
  value_of, Status, ok, break, ◌>>=◌, convert, split_key, get_at, get_loop, keyed_list_get,
  keyed_list_delete, delete_at, delete_loop, drop_empty, dup_shared_child,
}
use tclx.KeyedList.Index.{
  HashOk, entry_at-lt, entry_at-remove_at, linear_find-hit, found_below, find_index-some,
  hash_find-hash_delete, delete_entry-some,
}
use tclx.KeyedList.Sound.{
  IsSound, RepSound, >>=-eq-ok, convert-RepSound, entry_at-IsSound, value_at-eq-ok,
}
use tclx.KeyedList.Lookup.{text_ne, value_at-entry, find_index-put_value}
use tclx.KeyedList.Paths.{Diverges, here, under}
use tclx.KeyedList.Frame.{Rec, put_value-at, get_at-put_ne, get_at-none}

-- Where an index goes when the entry `i` is removed.
abbrev shift : ℕ → ℕ → ℕ
shift i n = if ltb i n then n - 1 else n

module _ {T : Type 0} where
  num_entries-remove_at :
      (es : Entries T) (i : ℕ)
      → i < num_entries es
      → num_entries (remove_at es i) ≡ num_entries es - 1
  unfolding num_entries remove_at
  num_entries-remove_at nil i h = absurd (omega arith)
  num_entries-remove_at (cons k v es) zero h = omega arith
  num_entries-remove_at (cons k v es) (suc i) h =
      omega (arith, num_entries-remove_at es i (omega arith))

  linear_find-remove_at :
      (es : Entries T) (i : ℕ) (k j : Text) {v : Obj T}
      → entry_at es i ≡ some (k, v)
      → text_eq k j ≡ false
      → linear_find (remove_at es i) j ≡ shift i (linear_find es j)
  unfolding linear_find remove_at entry_at
  linear_find-remove_at nil i k j at ne = cc
  linear_find-remove_at (cons l w es) zero k j at ne =
      let e : l ≡ k = cc in
      let other : text_eq l j ≡ false = ap (λ x. text_eq x j) e ∙ ne in ground (arith, other)
  linear_find-remove_at (cons l w es) (suc i) k j at ne =
      ground (arith, linear_find-remove_at es i k j at ne)

  -- Two entries with different keys are at different places.
  apart_at :
      (es : Entries T) (m i : ℕ) (k j : Text) {v w : Obj T}
      → entry_at es i ≡ some (k, v)
      → entry_at es m ≡ some (j, w)
      → k ≢ j
      → m ≢ i
  apart_at es m i k j at_i at_m ne same = ne (let p = ap (entry_at es) same in cc)

module _ (H : HashApi) (L : ListApi) where
  find_index-removed :
      (r r' : KeylInt H L) (i : ℕ) (k j : Text) {v : Obj H.Table}
      → r' ≡ record r { hash = hash_delete H L r.hash k i; entries = remove_at r.entries i }
      → HashOk H L r
      → entry_at r.entries i ≡ some (k, v)
      → k ≢ j
      → find_index H L r' j ≡ map_value (shift i) (find_index H L r j)
  unfolding start_index
  find_index-removed r r' i k j is hok at ne =
      let entries : r'.entries ≡ remove_at r.entries i = ap (λ (p : KeylInt H L). p.entries) is in
      let other = text_ne k j ne in
      let table : hash_find H L j r'.hash ≡ map_value (shift i) (hash_find H L j r.hash) =
        ap (λ (p : KeylInt H L). hash_find H L j p.hash) is
        ∙ ground (arith, hash_find-hash_delete H L r.hash k j i, other) in
      let size : num_entries r'.entries ≡ num_entries r.entries - 1 =
        ap num_entries entries ∙ num_entries-remove_at r.entries i (entry_at-lt r.entries i at) in
      let line : linear_find r'.entries j ≡ shift i (linear_find r.entries j) =
        ap (λ es. linear_find es j) entries ∙ linear_find-remove_at r.entries i k j at other in
      elim (Option-cases (hash_find H L j r.hash)) [
        | inl miss ↦
            let before = found_below H L r j (ap (λ o. start_index H L o r.entries j) miss) in
            let after =
              found_below H L r' j (
                ap (λ o. start_index H L o r'.entries j) (table ∙ ap (map_value (shift i)) miss)) in
            let apart : linear_find r.entries j ≢ i = λ same.
              let (w, there) =
                linear_find-hit r.entries j (omega (arith, same, entry_at-lt r.entries i at)) in
              apart_at r.entries (linear_find r.entries j) i k j at there ne same in
            ground (arith, before, after, size, line, apart, entry_at-lt r.entries i at)
        | inr (m, hit) ↦
            let before = found_below H L r j (ap (λ o. start_index H L o r.entries j) hit) in
            let after =
              found_below H L r' j
                (ap (λ o. start_index H L o r'.entries j) (table ∙ ap (map_value (shift i)) hit)) in
            let (w, there) = hok j m hit in
            let apart = apart_at r.entries m i k j at there ne in
            ground (
              arith,
              before,
              after,
              size,
              apart,
              entry_at-lt r.entries i at,
              entry_at-lt r.entries m there,
            )
      ]

  find_index-delete_entry :
      (r : KeylInt H L) (i : ℕ) (k j : Text) {v : Obj H.Table}
      → HashOk H L r
      → entry_at r.entries i ≡ some (k, v)
      → k ≢ j
      → find_index H L (delete_entry H L r i) j ≡ map_value (shift i) (find_index H L r j)
  find_index-delete_entry r i k j hok at ne =
      find_index-removed r (delete_entry H L r i) i k j (delete_entry-some H L r i at) hok at ne

  value_at-delete_entry :
      (r : KeylInt H L) (i m : ℕ) (k j : Text) {v w : Obj H.Table}
      → entry_at r.entries i ≡ some (k, v)
      → entry_at r.entries m ≡ some (j, w)
      → k ≢ j
      → value_at H L (delete_entry H L r i) (shift i m) ≡ ok w
  value_at-delete_entry r i m k j {v} {w} at there ne =
      let apart = apart_at r.entries m i k j at there ne in
      let kept : entry_at (delete_entry H L r i).entries (shift i m) ≡ some (j, w) =
        ap (λ (p : KeylInt H L). entry_at p.entries (shift i m)) (delete_entry-some H L r i at)
        ∙ ground (arith, entry_at-remove_at r.entries i (shift i m), apart, there) in
      value_at-entry H L (delete_entry H L r i) (shift i m) kept

  get_at-value :
      (get : Rec H L) (r r' : KeylInt H L) (next : Option Text) (m m' : ℕ)
      → value_at H L r' m' ≡ value_at H L r m
      → get_at H L get r' next (some m') ≡ get_at H L get r next (some m)
  unfolding get_at
  get_at-value get r r' none m m' same = same
  get_at-value get r r' (some s) m m' same = ap (λ a. a >>= λ v. get v s) same

  -- A level that deletes an entry with another key.
  pub get_at-delete_ne :
      (get : Rec H L) (r : KeylInt H L) (i : ℕ) (k j : Text) (next : Option Text) {v : Obj H.Table}
      → HashOk H L r
      → entry_at r.entries i ≡ some (k, v)
      → k ≢ j
      → get_at H L get (delete_entry H L r i) next (find_index H L (delete_entry H L r i) j)
        ≡ get_at H L get r next (find_index H L r j)
  get_at-delete_ne get r i k j next hok at ne =
      ap (get_at H L get (delete_entry H L r i) next) (find_index-delete_entry r i k j hok at ne)
      ∙ elim (Option-cases (find_index H L r j)) [
        | inl miss ↦
            ap (λ f. get_at H L get (delete_entry H L r i) next (map_value (shift i) f)) miss
            ∙ get_at-none H L get (delete_entry H L r i) next
            ∙ sym (ap (get_at H L get r next) miss ∙ get_at-none H L get r next)
        | inr (m, found) ↦
            let (w, there) = find_index-some H L r j hok found in
            ap (λ f. get_at H L get (delete_entry H L r i) next (map_value (shift i) f)) found
            ∙ get_at-value get r (delete_entry H L r i) next m (shift i m)
                (value_at-delete_entry r i m k j at there ne ∙ sym (value_at-entry H L r m there))
            ∙ sym (ap (get_at H L get r next) found)
      ]

  pub get_at-drop_ne :
      (get : Rec H L) (r : KeylInt H L) (i : ℕ) (c : Obj H.Table) (k j : Text) (next : Option Text)
      → HashOk H L r
      → find_index H L r k ≡ some i
      → k ≢ j
      → get_at H L get (drop_empty H L r i c) next (find_index H L (drop_empty H L r i c) j)
        ≡ get_at H L get r next (find_index H L r j)
  unfolding drop_empty
  get_at-drop_ne get r i (plain s) k j next hok e ne =
      get_at-put_ne H L get r i (plain s) k j next hok e ne
  get_at-drop_ne get r i (keyl n t nil) k j next hok e ne =
      let (v, at) = find_index-some H L r k hok e in get_at-delete_ne get r i k j next hok at ne
  get_at-drop_ne get r i (keyl n t (cons l w es)) k j next hok e ne =
      get_at-put_ne H L get r i (keyl n t (cons l w es)) k j next hok e ne

  -- A level whose sub-list is replaced.
  pub put_below :
      (get : Rec H L) (t : Text) {out : Status (Obj H.Table)} (r : KeylInt H L) (i : ℕ)
      (c : Obj H.Table) (k : Text)
      → HashOk H L r
      → find_index H L r k ≡ some i
      → get c t ≡ out
      → get_at H L get (put_value H L r i c) (some t) (find_index H L (put_value H L r i c) k) ≡ out
  unfolding get_at
  put_below get t r i c k hok e gets =
      let (v, at) = find_index-some H L r k hok e in
      let finds = find_index-put_value H L r i c k at ∙ e in
      let there : entry_at (put_value H L r i c).entries i ≡ some (k, c) =
        ground (arith, put_value-at H L r i c i at) in
      rw (finds, value_at-entry H L (put_value H L r i c) i there) gets
