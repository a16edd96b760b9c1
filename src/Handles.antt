-- ===== src/Handles.antt =====
-- generic/tclXhandles.c: expandable tables that are addressed by textual handles.
-- `int` links are a data type: NULL_IDX, ALLOCATED_IDX or an index. An entry pointer is its byte
-- offset from bodyPtr; what ckalloc leaves in new entries is the parameter `junk`. `none` is an
-- access outside the body, a call of Tcl_Panic, or a size of the body that overflows an `int`. The
-- offset of an entry is then an `int` as well, since it is less than the size of the body.
pub mod FreeList
pub mod Valid
pub mod Alloc
pub mod Xlate
pub mod Walk
pub mod Lifecycle
use tclx.Base.{
  ℕ, zero, suc, ◌+◌, ◌-◌, ◌*◌, ◌/◌, ◌%◌, ◌^◌, Bool, true, false, ◌&&◌, Option, none, some, List, [],
  ◌∷◌, ◌++◌, Text, ltb, leb, ◌==◌, if◌then◌else◌, length, get_elem?, set, take, drop, replicate,
  text_eq,
}
use tclx.Base.Int.{ℤ, pos, negsuc, pos_part, ◌+ℤ◌}
use tclx.Libc.{decimal}
use tclx.Util.{str_to_unsigned}

pub data Link : Type 0 where
  null_idx : Link
  allocated_idx : Link
  index : ℕ → Link

-- The header and the user area of an entry.
pub record Entry (A : Type 0) : Type 0 where
  pub free_link : Link
  pub user : A

pub record Table (A : Type 0) : Type 0 where
  pub use_count : ℤ
  pub entry_size : ℕ
  pub table_size : ℕ
  pub free_head_idx : Link
  pub body : List (Entry A)
  pub handle_base : Text

-- Entry alignment of the machine; the header is an `int`, rounded up.
abbrev pub entry_alignment : ℕ
entry_alignment = 8

unfoldable pub round_entry_size : ℕ → ℕ
round_entry_size size = (size + entry_alignment - 1) / entry_alignment * entry_alignment

abbrev pub entry_header_size : ℕ
entry_header_size = 8

-- A size does not overflow an `int`.
abbrev pub fits_int : ℕ → Bool
fits_int n = ltb n (2 ^ 31)

infixl 5 ◌>>=◌
abbrev pub ◌>>=◌ {ℓ κ} : {A : Type ℓ} {B : Type κ} → Option A → (A → Option B) → Option B
none >>= f = none
some a >>= f = f a

abbrev pub not_positive : ℤ → Bool
not_positive (pos n) = n == 0
not_positive (negsuc n) = true

-- `strncmp (base, s, strlen (base)) == 0`, with the text behind the base.
unfoldable pub strip_base : Text → Text → Option Text
strip_base [] s = some s
strip_base (c ∷ b) [] = none
strip_base (c ∷ b) (d ∷ s) = if c == d then strip_base b s else none

-- An `unsigned` assigned to an `int`.
unfoldable pub to_int : ℕ → ℤ
to_int u = if ltb u (2 ^ 31) then pos u else negsuc (2 ^ 32 - u - 1)

-- NULL with the message "invalid BASE handle", with "BASE is not open", or with no message.
pub data Xlated : Type 0 where
  entry_ptr : ℕ → Xlated
  invalid_handle : Xlated
  not_open : Xlated
  null_silent : Xlated

module _ {A : Type 0} where
  unfoldable pub set_link : List (Entry A) → ℕ → Link → Option (List (Entry A))
  set_link b i l = elim (get_elem? b i) [
    | none ↦ none
    | some e ↦ some (set b i (record e { free_link = l }))
  ]

  -- `for (entIdx = newIdx; entIdx < lastIdx; entIdx++)`, by the rounds left.
  unfoldable pub link_loop : ℕ → ℕ → List (Entry A) → Option (List (Entry A))
  unfolding set_link
  link_loop zero ent_idx b = some b
  link_loop (suc n) ent_idx b =
      set_link b ent_idx (index (suc ent_idx)) >>= link_loop n (suc ent_idx)

  -- With `new_idx + num_entries = 0` the last index is -1.
  unfoldable pub link_in_new_entries : Table A → ℕ → ℕ → Option (Table A)
  unfolding link_loop
  link_in_new_entries t new_idx num_entries = if new_idx + num_entries == 0 then none else (do
    let last_idx = new_idx + num_entries - 1
    b ← link_loop (last_idx - new_idx) new_idx t.body
    b' ← set_link b last_idx t.free_head_idx
    some (record t { body = b'; free_head_idx = index new_idx }))

  -- `needed_idx` is `none` where the code passes -1.
  unfoldable pub num_new_entries : Table A → Option ℕ → ℕ
  num_new_entries t none = t.table_size
  num_new_entries t (some k) = k - t.table_size + 1

  unfoldable pub expand_table : A → Table A → Option ℕ → Option (Table A)
  unfolding link_in_new_entries num_new_entries
  expand_table junk t needed_idx =
      let num = num_new_entries t needed_idx in
      let fresh : Entry A = record { free_link = null_idx; user = junk } in
      let moved = record t { body = take t.table_size t.body ++ replicate num fresh } in
      if fits_int (t.table_size + num) && fits_int ((t.table_size + num) * t.entry_size)
      then (link_in_new_entries moved t.table_size num >>= λ t'.
          some (record t' { table_size = t'.table_size + num }))
      else none

  -- The unlinking of the head of the free list.
  unfoldable pub take_head : Table A → Link → Option (Table A × ℕ)
  take_head t null_idx = none
  take_head t allocated_idx = none
  take_head t (index i) = elim (get_elem? t.body i) [
    | none ↦ none
    | some e ↦ some (
      record t {
        free_head_idx = e.free_link;
        body = set t.body i (record e { free_link = allocated_idx });
      },
      i,
    )
  ]

  unfoldable pub grow_if_full : A → Table A → Link → Option (Table A)
  unfolding expand_table
  grow_if_full junk t null_idx = expand_table junk t none
  grow_if_full junk t allocated_idx = some t
  grow_if_full junk t (index i) = some t

  unfoldable pub alloc_entry : A → Table A → Option (Table A × ℕ)
  unfolding grow_if_full take_head
  alloc_entry junk t = do t' ← grow_if_full junk t t.free_head_idx; take_head t' t'.free_head_idx

  unfoldable pub handle_tbl_init : A → Text → ℕ → ℕ → Option (Table A)
  unfolding round_entry_size link_in_new_entries
  handle_tbl_init junk handle_base entry_size init_entries =
      let fresh : Entry A = record { free_link = null_idx; user = junk } in
      let t : Table A = record {
        use_count = pos 1;
        entry_size = entry_header_size + round_entry_size entry_size;
        table_size = init_entries;
        free_head_idx = null_idx;
        body = replicate init_entries fresh;
        handle_base = handle_base;
      } in
      if fits_int t.entry_size && fits_int (init_entries * t.entry_size)
      then link_in_new_entries t 0 init_entries
      else none

  unfoldable pub handle_tbl_use_count : Table A → ℤ → Table A × ℤ
  handle_tbl_use_count t amount =
      (record t { use_count = t.use_count +ℤ amount }, t.use_count +ℤ amount)

  -- `none` is the table released.
  unfoldable pub handle_tbl_release : Table A → Option (Table A)
  handle_tbl_release t =
      let n = t.use_count +ℤ negsuc 0 in
      if not_positive n then none else some (record t { use_count = n })

  -- TBL_INDEX and USER_AREA, for an entry of the body.
  unfoldable pub user_area : Table A → ℕ → ℕ
  user_area t i = t.entry_size * i + entry_header_size

  unfoldable pub handle_of : Table A → ℕ → Text
  handle_of t i = t.handle_base ++ decimal i

  -- The new table, the handle and the pointer to the user area.
  unfoldable pub handle_alloc : A → Table A → Option (Table A × Text × ℕ)
  unfolding alloc_entry handle_of user_area
  handle_alloc junk t = do (t', i) ← alloc_entry junk t; some (t', handle_of t' i, user_area t' i)

  -- `none` is the message "invalid BASE handle" and the result -1.
  unfoldable pub handle_decode : Table A → Text → Option ℤ
  unfolding strip_base to_int
  handle_decode t handle = do
    digits ← strip_base t.handle_base handle
    entry_idx ← str_to_unsigned digits
    some (to_int entry_idx)

  unfoldable pub handle_decode_obj : Table A → Text → Option ℤ
  unfolding strip_base to_int
  handle_decode_obj t handle = do
    digits ← strip_base t.handle_base handle
    entry_idx ← str_to_unsigned digits
    some (to_int entry_idx)

  abbrev pub is_allocated : Option (Entry A) → Bool
  is_allocated none = false
  is_allocated (some e) = elim e.free_link [ allocated_idx ↦ true | _ ↦ false ]

  -- `||` reads the link only of an index below the table size; the entry pointer that is computed
  -- before for an index past the table, even with an overflow, is not used.
  unfoldable pub xlate_idx : Table A → Option ℤ → Xlated
  unfolding user_area
  xlate_idx t none = invalid_handle
  xlate_idx t (some (negsuc n)) = null_silent
  xlate_idx t (some (pos i)) =
      if leb t.table_size i
      then not_open
      else if is_allocated (get_elem? t.body i)
      then entry_ptr (user_area t i)
      else not_open

  unfoldable pub handle_xlate : Table A → Text → Xlated
  unfolding handle_decode xlate_idx
  handle_xlate t handle = xlate_idx t (handle_decode t handle)

  unfoldable pub handle_xlate_obj : Table A → Text → Xlated
  unfolding handle_decode_obj xlate_idx
  handle_xlate_obj t handle = xlate_idx t (handle_decode_obj t handle)

  -- `while (entryIdx < tableSize)`, by the rounds left.
  unfoldable pub walk_loop : List (Entry A) → ℕ → ℕ → Option ℕ
  walk_loop b zero entry_idx = none
  walk_loop b (suc n) entry_idx =
      let rest = walk_loop b n (suc entry_idx) in
      if is_allocated (get_elem? b entry_idx) then some entry_idx else rest

  -- The walk key is -1 before the first call; the result is the new key and the entry's pointer.
  unfoldable pub handle_walk : Table A → ℤ → Option (ℕ × ℕ)
  unfolding walk_loop user_area
  handle_walk t walk_key =
      let start = pos_part (walk_key +ℤ pos 1) in
      walk_loop t.body (t.table_size - start) start >>= λ i. some (i, user_area t i)

  unfoldable pub walk_key_to_handle : Table A → ℕ → Text
  walk_key_to_handle t walk_key = t.handle_base ++ decimal walk_key

  unfoldable pub free_entry : Table A → ℕ → Option (Entry A) → Option (Table A)
  free_entry t i none = none
  free_entry t i (some e) =
      if is_allocated (some e)
      then some (record t {
        body = set t.body i (record e { free_link = t.free_head_idx });
        free_head_idx = index i;
      })
      else none

  -- The header of the entry at `ptr`; its index is a quotient of byte offsets.
  unfoldable pub handle_free : Table A → ℕ → Option (Table A)
  unfolding free_entry
  handle_free t ptr =
      let off = ptr - entry_header_size in
      if leb entry_header_size ptr && off % t.entry_size == 0
      then free_entry t (off / t.entry_size) (get_elem? t.body (off / t.entry_size))
      else none
