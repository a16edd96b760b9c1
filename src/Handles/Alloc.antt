-- ===== src/Handles/Alloc.antt =====
-- AllocEntry and TclX_HandleFree against the set of allocated entries.
use tclx.Base.{
  ℕ, zero, suc, ◌<◌, ◌≡◌, refl, sym, Bool, true, false, not, ◌||◌, ◌&&◌, Option, none, some, List,
  [], ◌∷◌, ltb, ◌==◌, get_elem?, has, arith, ◌≢◌, get_elem?-none, ap, ◌∙◌, inl, inr, Bool-cases,
}
use tclx.Handles.{Link, allocated_idx, Entry, Table, ◌>>=◌, is_allocated, alloc_entry}
use tclx.Handles.FreeList.{range_from, link_of, link_at, Chain, nil, cons}
use tclx.Handles.Valid.{
  IsValid, SameData, Room, available, grown_size, grow_if_full-IsValid, take_head-IsValid,
  has-range_from, Chain-uncons,
}

pred_of : (n : ℕ) → 0 < n → (m : ℕ) × (n ≡ suc m)
pred_of zero h = absurd (omega arith)
pred_of (suc n) h = (n, refl)

module _ {A : Type 0} where
  abbrev pub allocated_at : Table A → ℕ → Bool
  allocated_at t i = is_allocated (get_elem? t.body i)

  is_allocated-link_of :
      (o : Option (Entry A)) → link_of o ≡ some allocated_idx → is_allocated o ≡ true
  is_allocated-link_of none h = cc
  is_allocated-link_of (some e) h = ground arith

  not_allocated-link_of :
      (o : Option (Entry A)) {l : Link}
      → link_of o ≡ some l
      → l ≢ allocated_idx
      → is_allocated o ≡ false
  not_allocated-link_of none h ne = refl
  not_allocated-link_of (some e) h ne = ground arith

  Chain-ne-allocated :
      {b : List (Entry A)} {l : Link} {fs : List ℕ} → Chain b l fs → l ≢ allocated_idx
  Chain-ne-allocated nil = λ e. cc
  Chain-ne-allocated (cons e out c) = λ e. cc

  Chain-not_allocated :
      {b : List (Entry A)} {l : Link} {fs : List ℕ}
      → Chain b l fs
      → (j : ℕ) → has j fs ≡ true
      → is_allocated (get_elem? b j) ≡ false
  Chain-not_allocated nil j h = cc
  Chain-not_allocated {b} (cons {i} {fs} e out c) j h = elim (Bool-cases (j == i)) [
    | inl same ↦
        let eq : i ≡ j = ground arith in
        not_allocated-link_of (get_elem? b j) (ap (link_at b) (sym eq) ∙ e) (Chain-ne-allocated c)
    | inr other ↦ Chain-not_allocated c j (rw other at h)
  ]

  -- In a valid table an entry is allocated exactly when it is not on the free list.
  pub allocated_at-free :
      {t : Table A} {fs : List ℕ} (j : ℕ)
      → IsValid t fs
      → allocated_at t j ≡ (ltb j t.table_size && not (has j fs))
  allocated_at-free {t} {fs} j v = elim (Bool-cases (has j fs)) [
    | inl free ↦ ground (arith, Chain-not_allocated v.chain j free)
    | inr out ↦ elim (Bool-cases (ltb j t.table_size)) [
      | inl lt ↦ ground (arith, is_allocated-link_of (get_elem? t.body j), v.rest j)
      | inr ge ↦ ground (arith, get_elem?-none t.body j, v.sized)
    ]
  ]

  -- What AllocEntry does, `i` being the index that it stores through `entryIdxPtr`.
  pub record Allocates (t : Table A) (fs : List ℕ) (t' : Table A) (i : ℕ) (fs' : List ℕ)
      : Type 0 where
    pub next : available t fs ≡ i ∷ fs'
    pub valid : IsValid t' fs'
    pub same : SameData t t'
    pub size : t'.table_size ≡ grown_size t fs
    pub fresh : has i fs' ≡ false

  available_cons :
      (t : Table A) (fs : List ℕ)
      → 0 < t.table_size
      → (i : ℕ) × (fs' : List ℕ) × (available t fs ≡ i ∷ fs')
  unfolding available
  available_cons t [] h =
      let (n, e) = pred_of t.table_size h in
      (t.table_size, range_from (suc t.table_size) n, ap (range_from t.table_size) e)
  available_cons t (i ∷ fs) h = (i, fs, refl)

  le_grown :
      (t : Table A) (fs : List ℕ) (j size : ℕ)
      → size ≡ grown_size t fs
      → j < t.table_size
      → j < size
  le_grown t [] j size e lt = omega arith
  le_grown t (i ∷ fs) j size e lt = omega arith

  -- AllocEntry succeeds on a nonempty valid table whose sizes fit, hands out the first free entry or the first
  -- new one of an expansion, and leaves a valid table.
  pub alloc_entry-Allocates :
      (junk : A) (t : Table A) (fs : List ℕ)
      → 0 < t.table_size
      → Room t fs
      → IsValid t fs
      → (t' : Table A) × (i : ℕ) × (fs' : List ℕ) × (alloc_entry junk t ≡ some (t', i))
        × Allocates t fs t' i fs'
  unfolding alloc_entry
  alloc_entry-Allocates junk t fs h room v =
      let (t₁, grows, v₁, same₁, size₁) = grow_if_full-IsValid junk t fs h room v in
      let (i, fs', e) = available_cons t fs h in
      let w : IsValid t₁ (i ∷ fs') = rw e at v₁ in
      let (t₂, takes, v₂, same₂, size₂) = take_head-IsValid w in
      (
        t₂,
        i,
        fs',
        rw (grows, ◌>>=◌) takes,
        record {
          next = e;
          valid = v₂;
          same = record {
            entry_size = same₂.entry_size ∙ same₁.entry_size;
            handle_base = same₂.handle_base ∙ same₁.handle_base;
            users =
                λ j lt. same₂.users j (le_grown t fs j t₁.table_size size₁ lt) ∙ same₁.users j lt;
          };
          size = size₂ ∙ size₁;
          fresh = (Chain-uncons w.chain).3;
        },
      )

  -- membership in the available entries, by the fields of the table alone
  has-available :
      (t : Table A) (fs : List ℕ) (j : ℕ)
      → IsValid t fs
      → has j (available t fs)
        ≡ (ltb j (grown_size t fs) && not (ltb j t.table_size && not (has j fs)))
  unfolding available
  has-available t [] j v = ground (arith, has-range_from j t.table_size t.table_size)
  has-available t (i ∷ fs) j v = ground (arith, v.bounded j)

  module _ {t : Table A} {fs : List ℕ} {t' : Table A} {i : ℕ} {fs' : List ℕ} (v : IsValid t fs)
      (a : Allocates t fs t' i fs') where
    has-next : (j : ℕ) → has j (available t fs) ≡ (j == i || has j fs')
    has-next j = ap (has j) a.next

    -- The entry was free or is new; of the others none changes its state.
    pub Allocates-allocated_at :
        (j : ℕ) → (allocated_at t i ≡ false) × (allocated_at t' j ≡ (j == i || allocated_at t j))
    Allocates-allocated_at j =
        let at = allocated_at-free {t = t} {fs = fs} in
        let facts : (i < grown_size t fs) × (allocated_at t i ≡ false) =
          ground (arith, has-next i, has-available t fs i v, at i v) in
        (
          facts.1,
          ground (
            arith,
            facts.0,
            facts.1,
            has-next j,
            has-available t fs j v,
            at j v,
            allocated_at-free {t = t'} {fs = fs'} j a.valid,
            a.fresh,
            a.size,
            le_grown t fs j t'.table_size a.size,
          ),
        )
