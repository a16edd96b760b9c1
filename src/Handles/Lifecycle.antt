-- ===== src/Handles/Lifecycle.antt =====
-- The life of a handle: TclX_HandleAlloc, TclX_HandleXlate and TclX_HandleFree together.
use tclx.Base.{
  ℕ, ◌+◌, ◌*◌, ◌^◌, ◌≤◌, ◌<◌, ◌≡◌, ◌≢◌, sym, true, false, Option, none, some, List, [], ◌∷◌, Text,
  if◌then◌else◌, get_elem?, has, arith, ap, ◌∙◌, subst,
}
use tclx.Handles.{
  Table, ◌>>=◌, user_area, handle_free, free_entry, handle_of, handle_xlate, handle_alloc,
  entry_ptr, not_open,
}
use tclx.Handles.FreeList.{user_at}
use tclx.Handles.Valid.{IsValid, SameData, Room, available, grown_size}
use tclx.Handles.Alloc.{
  allocated_at, allocated_at-free, Allocates, alloc_entry-Allocates, Allocates-allocated_at,
}
use tclx.Handles.Xlate.{handle_xlate-handle_of, handle_free-Frees, handle_free-user_area}

size_lt : (n e : ℕ) → 0 < e → n * e < 2 ^ 31 → n < 2 ^ 31
size_lt n e h fits = let le : n * 1 ≤ n * e = grind arith in omega (arith, le)

offset_lt : (i n e : ℕ) → i < n → n * e < 2 ^ 31 → e * i < 2 ^ 31
offset_lt i n e h fits = let le : e * i ≤ n * e = grind arith in omega (arith, le)

cons_parts : (i j : ℕ) (xs ys : List ℕ) → i ∷ xs ≡ j ∷ ys → (j ≡ i) × (ys ≡ xs)
cons_parts i j xs ys e = (cc, cc)

module _ {A : Type 0} where
  pub handle_of-same :
      (t t' : Table A) (i : ℕ) → t'.handle_base ≡ t.handle_base → handle_of t' i ≡ handle_of t i
  unfolding handle_of
  handle_of-same t t' i e = rw e

  pub user_area-same :
      (t t' : Table A) (i : ℕ) → t'.entry_size ≡ t.entry_size → user_area t' i ≡ user_area t i
  unfolding user_area
  user_area-same t t' i e = rw e

  -- What allocating a handle does to a table: the new handle `h` translates to the new entry's
  -- pointer `p`, it was not open before, every other handle translates as before, and the user
  -- areas are kept.
  pub record Opens (t t' : Table A) (i : ℕ) : Type 0 where
    pub opened : handle_xlate t' (handle_of t i) ≡ entry_ptr (user_area t i)
    pub closed_before : handle_xlate t (handle_of t i) ≡ not_open
    pub others :
        (j : ℕ)
        → j < 2 ^ 31
        → j ≢ i
        → handle_xlate t' (handle_of t j) ≡ handle_xlate t (handle_of t j)
    pub users : (j : ℕ) → j < t.table_size → user_at t'.body j ≡ user_at t.body j

  pub next_bound :
      {t : Table A} {fs : List ℕ} {t' : Table A} {i : ℕ} {fs' : List ℕ}
      → IsValid t fs
      → Allocates t fs t' i fs'
      → i < grown_size t fs
  next_bound {t} {fs} {t'} {i} v a =
      let (closed, open_now) = Allocates-allocated_at v a i in
      ground (arith, open_now, allocated_at-free {t = t'} i a.valid, a.size)

  module _ {t t' : Table A} {fs fs' : List ℕ} (v : IsValid t fs) (v' : IsValid t' fs')
      (same : SameData t t') where
    xlate_old :
        (j : ℕ)
        → j < 2 ^ 31
        → handle_xlate t (handle_of t j)
          ≡ (if allocated_at t j then entry_ptr (user_area t j) else not_open)
    xlate_old j h = handle_xlate-handle_of j v h

    xlate_new :
        (j : ℕ)
        → j < 2 ^ 31
        → handle_xlate t' (handle_of t j)
          ≡ (if allocated_at t' j then entry_ptr (user_area t j) else not_open)
    xlate_new j h =
        ap (handle_xlate t') (sym (handle_of-same t t' j same.handle_base))
        ∙ handle_xlate-handle_of j v' h
        ∙ ap (λ p. if allocated_at t' j then entry_ptr p else not_open)
            (user_area-same t t' j same.entry_size)

  pub grown_fits :
      (t : Table A) (fs : List ℕ)
      → 0 < t.entry_size
      → grown_size t fs * t.entry_size < 2 ^ 31
      → Room t fs
  grown_fits t [] sized fits = (size_lt (t.table_size + t.table_size) t.entry_size sized fits, fits)
  grown_fits t (i ∷ fs) sized fits = tt

  -- On a valid, nonempty table whose size in bytes, after any expansion, is below 2 ^ 31,
  -- TclX_HandleAlloc returns a handle that was not open and now translates to the pointer
  -- returned, at an offset below 2 ^ 31; the table stays valid with a size below 2 ^ 31, every
  -- other handle translates as before and the user areas are kept.
  pub handle_alloc-Opens :
      (junk : A) (t : Table A) (fs : List ℕ)
      → IsValid t fs
      → 0 < t.table_size
      → 0 < t.entry_size
      → grown_size t fs * t.entry_size < 2 ^ 31
      → (t' : Table A) × (i : ℕ) × (fs' : List ℕ) × (handle_alloc junk t
          ≡ some (t', handle_of t i, user_area t i))
        × IsValid t' fs'
        × (t.entry_size * i < 2 ^ 31)
        × (t'.table_size * t'.entry_size < 2 ^ 31)
        × Opens t t' i
  unfolding handle_alloc
  handle_alloc-Opens junk t fs v pos sized small =
      let room = grown_fits t fs sized small in
      let (t', i, fs', runs, a) = alloc_entry-Allocates junk t fs pos room v in
      let below = next_bound v a in
      let bound : i < 2 ^ 31 =
        omega (arith, below, size_lt (grown_size t fs) t.entry_size sized small) in
      let state = Allocates-allocated_at v a in
      let before = xlate_old v a.valid a.same in
      let after = xlate_new v a.valid a.same in
      (
        t',
        i,
        fs',
        rw (runs, ◌>>=◌)
            (λ k. some (
              t',
              handle_of-same t t' i a.same.handle_base k,
              user_area-same t t' i a.same.entry_size k,
            )),
        a.valid,
        offset_lt i (grown_size t fs) t.entry_size below small,
        rw (a.size, a.same.entry_size) small,
        record {
          opened = ground (arith, after i bound, state i);
          closed_before = ground (arith, before i bound, state i);
          others = λ j h ne. ground (arith, after j h, before j h, state j);
          users = a.same.users;
        },
      )

  free_entry-closed :
      (t : Table A) (i : ℕ) → allocated_at t i ≡ false → free_entry t i (get_elem? t.body i) ≡ none
  unfolding free_entry
  free_entry-closed t i h = ground arith

  -- What freeing the entry of handle `i` does: the handle is not open afterwards, every other
  -- handle translates as before, freeing the same pointer again panics, and the user areas are kept.
  pub record Closes (t t' : Table A) (i : ℕ) : Type 0 where
    pub closed : handle_xlate t' (handle_of t i) ≡ not_open
    pub others :
        (j : ℕ)
        → j < 2 ^ 31
        → j ≢ i
        → handle_xlate t' (handle_of t j) ≡ handle_xlate t (handle_of t j)
    pub panics : handle_free t' (user_area t i) ≡ none
    pub users : (j : ℕ) → j < t.table_size → user_at t'.body j ≡ user_at t.body j

  xlate-allocated :
      {t : Table A} {fs : List ℕ} (i : ℕ) {p : ℕ}
      → IsValid t fs
      → i < 2 ^ 31
      → handle_xlate t (handle_of t i) ≡ entry_ptr p
      → (allocated_at t i ≡ true) × (p ≡ user_area t i)
  xlate-allocated {t} i v h open_now = let e = handle_xlate-handle_of i v h in ground arith

  -- In a valid table the pointer of an open handle below 2 ^ 31 can be freed by TclX_HandleFree;
  -- the table stays valid, the handle is then not open, every other handle translates as before,
  -- a second free panics and the user areas are kept.
  pub handle_free-Closes :
      (t : Table A) (fs : List ℕ) (i p : ℕ)
      → IsValid t fs
      → 0 < t.entry_size
      → i < 2 ^ 31
      → handle_xlate t (handle_of t i) ≡ entry_ptr p
      → (t' : Table A) × (handle_free t p ≡ some t') × IsValid t' (i ∷ fs) × Closes t t' i
  handle_free-Closes t fs i p v pos bound open_now =
      let (allocated, at) = xlate-allocated i v bound open_now in
      let (t', f) = handle_free-Frees i v pos allocated in
      let before = xlate_old v f.valid f.same in
      let after = xlate_new v f.valid f.same in
      let gone : allocated_at t' i ≡ false = ground (arith, f.allocated i) in
      (
        t',
        ap (handle_free t) at ∙ f.runs,
        f.valid,
        record {
          closed = ground (arith, after i bound);
          others = λ j h ne. ground (arith, after j h, before j h, f.allocated j);
          panics =
              ap (handle_free t') (sym (user_area-same t t' i f.same.entry_size))
              ∙ handle_free-user_area t' i (rw f.same.entry_size pos)
              ∙ free_entry-closed t' i gone;
          users = f.same.users;
        },
      )

  alloc_head :
      (junk : A) (t : Table A) (i : ℕ) (fs : List ℕ)
      → IsValid t (i ∷ fs)
      → 0 < t.table_size
      → (t' : Table A) × (handle_alloc junk t ≡ some (t', handle_of t i, user_area t i))
        × IsValid t' fs
  unfolding handle_alloc available
  alloc_head junk t i fs v pos =
      let (t', j, fs', runs, a) = alloc_entry-Allocates junk t (i ∷ fs) pos tt v in
      let (same_i, same_fs) = cons_parts i j fs fs' a.next in
      (
        t',
        rw (runs, ◌>>=◌)
            (λ k. some (
              t',
              handle_of-same t t' (same_i k) a.same.handle_base k,
              user_area-same t t' (same_i k) a.same.entry_size k,
            )),
        subst (IsValid t') same_fs a.valid,
      )

  -- A free followed by an allocation: the handle and the pointer that come back.
  abbrev pub free_alloc : A → Table A → ℕ → Option (Text × ℕ)
  free_alloc junk t p = do
    t' ← handle_free t p
    (t'', handle, q) ← handle_alloc junk t'
    some (handle, q)

  -- In a valid table the entry of an open handle below 2 ^ 31 that was freed is the one that the
  -- next allocation hands out, under the same handle and pointer.
  pub handle_alloc-free :
      (junk : A) (t : Table A) (fs : List ℕ) (i p : ℕ)
      → IsValid t fs
      → 0 < t.entry_size
      → i < 2 ^ 31
      → handle_xlate t (handle_of t i) ≡ entry_ptr p
      → free_alloc junk t p ≡ some (handle_of t i, p)
  handle_alloc-free junk t fs i p v pos bound open_now =
      let (allocated, at) = xlate-allocated i v bound open_now in
      let (t₁, f) = handle_free-Frees i v pos allocated in
      let room : 0 < t₁.table_size = omega (arith, f.valid.bounded i (in_head i fs)) in
      let (t₂, runs, w) = alloc_head junk t₁ i fs f.valid room in
      ap (free_alloc junk t) at
      ∙ rw (f.runs, runs)
          (λ k. some (
            handle_of-same t t₁ i f.same.handle_base k,
            (user_area-same t t₁ i f.same.entry_size ∙ sym at) k,
          ))
    where
      in_head : (j : ℕ) (xs : List ℕ) → has j (j ∷ xs) ≡ true
      in_head j xs = ground arith
