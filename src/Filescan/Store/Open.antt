-- ===== src/Filescan/Store/Open.antt =====
-- scancontext create: a handle that stood for nothing now stands for an empty context.
use tclx.Base.{
  ℕ, suc, ◌^◌, ◌≤◌, ◌<◌, ◌≡◌, refl, sym, ap, ◌∙◌, true, false, none, some, List, [], Text, ◌==◌,
  ltb, leb, length, length-append, ◌*◌, if◌then◌else◌, get_elem?-none, ==_refl, arith, Option-cases,
  Bool-cases, inl, inr,
}
use tclx.Handles.{Table, handle_of, user_area, handle_alloc}
use tclx.Handles.Valid.{IsValid, grown_size}
use tclx.Handles.Alloc.{allocated_at, Allocates, Allocates-allocated_at}
use tclx.Handles.Xlate.{handle_xlate-handle_of}
use tclx.Handles.Lifecycle.{handle_of-same, next_bound, grown_fits}
use tclx.Libc.{decimal}
use tclx.Libc.Decimal.{decimal-length}
use tclx.Filescan.{Context, World}
use tclx.Filescan.Contexts.{tcl_ok, context_create}
use tclx.Filescan.Store.{deref, context_of, stored, IsStored}
use tclx.Filescan.Store.Entries.{
  read_entry-user_area, Writes, write_entry-Writes, handle_alloc-Allocates,
}

pub allocated_lt :
    (t : Table ℕ) (fs : List ℕ) (j : ℕ) → IsValid t fs → allocated_at t j ≡ true → j < t.table_size
allocated_lt t fs j v h = elim (Bool-cases (ltb j t.table_size)) [
  | inl lt ↦ ground arith
  | inr ge ↦ ground (arith, get_elem?-none t.body j, v.sized)
]

abbrev pub empty_context : Text → Context
empty_context handle = record {
  matches = [];
  default_action = none;
  handle = handle;
  copy_file = none;
  file_open = false;
}

handle_of-short :
    (t : Table ℕ) (i n : ℕ)
    → i < n
    → length t.handle_base ≤ 7
    → n ≤ 10 ^ 8
    → length (handle_of t i) < 16
unfolding handle_of
handle_of-short t i n lt base few =
    omega (arith, length-append t.handle_base (decimal i), decimal-length i 7 (omega arith))

module _ {I : Type 0} where
  pub context_of-stored :
      {w : World I} {fs : List ℕ} (j : ℕ)
      → IsStored w fs
      → j < 2 ^ 31
      → context_of w j ≡ deref (stored w j) w
  unfolding context_of
  context_of-stored {w} {fs} j v h = elim (Bool-cases (allocated_at w.table j)) [
    | inl e ↦ rw (handle_xlate-handle_of j v.valid h, e, read_entry-user_area w.table j v.sized)
    | inr e ↦ rw (handle_xlate-handle_of j v.valid h, e)
  ]

  abbrev pub created : Table ℕ → Text → World I → World I
  created t handle w = record w {
    table = t;
    heap = λ a. if a == w.next_address then some (empty_context handle) else w.heap a;
    next_address = suc w.next_address;
  }

  -- The addresses behind the handles once the table has a new entry.
  module _ {w : World I} {fs fs' : List ℕ} {i : ℕ} {t' t'' : Table ℕ} (handle : Text)
      (v : IsStored w fs) (a : Allocates w.table fs t' i fs')
      (x : Writes t' fs' i w.next_address t'') where
    created-stored :
        (j : ℕ)
        → stored (created t'' handle w) j ≡ (if j == i then some w.next_address else stored w j)
    created-stored j = ground (
      arith,
      x.allocated j,
      x.users j,
      Allocates-allocated_at v.valid a j,
      a.same.users j,
      allocated_lt w.table fs j v.valid,
    )

    new_lt : i < t''.table_size
    new_lt =
        let open_now : allocated_at t'' i ≡ true =
          ground (arith, x.allocated i, Allocates-allocated_at v.valid a i) in
        allocated_lt t'' fs' i x.valid open_now

    created_live :
        (j b : ℕ)
        → stored (created t'' handle w) j ≡ some b
        → (b < suc w.next_address) × ((ctx : Context) × ((created t'' handle w).heap b ≡ some ctx))
    created_live j b h =
        let h' : (if j == i then some w.next_address else stored w j) ≡ some b =
          sym (created-stored j) ∙ h in
        elim (Bool-cases (j == i)) [
          | inl e ↦
              let new : w.next_address ≡ b = let k = rw e at h' in cc in
              (omega arith, (empty_context handle, ground arith))
          | inr e ↦
              let (lt, (ctx, at)) = v.live j b (rw e at h') in (omega arith, (ctx, ground arith))
        ]

    created_distinct :
        (j k b : ℕ)
        → stored (created t'' handle w) j ≡ some b
        → stored (created t'' handle w) k ≡ some b
        → j ≡ k
    created_distinct j k b h h' =
        let at : (if j == i then some w.next_address else stored w j) ≡ some b =
          sym (created-stored j) ∙ h in
        let at' : (if k == i then some w.next_address else stored w k) ≡ some b =
          sym (created-stored k) ∙ h' in
        elim (Bool-cases (j == i)) [
          | inl e ↦ elim (Bool-cases (k == i)) [
            | inl e' ↦ ground arith
            | inr e' ↦
                let new : w.next_address ≡ b = let p = rw e at at in cc in
                absurd (omega (arith, (v.live k b (rw e' at at')).0))
          ]
          | inr e ↦ elim (Bool-cases (k == i)) [
            | inl e' ↦
                let new : w.next_address ≡ b = let p = rw e' at at' in cc in
                absurd (omega (arith, (v.live j b (rw e at at)).0))
            | inr e' ↦ v.distinct j k b (rw e at at) (rw e' at at')
          ]
        ]

    pub created-IsStored : IsStored (created t'' handle w) fs'
    created-IsStored = record {
      valid = x.valid;
      nonempty = omega (arith, new_lt);
      sized = omega (arith, x.entry_size, a.same.entry_size, v.sized);
      live = created_live;
      distinct = created_distinct;
    }

    created_runs :
        (junk : ℕ)
        → handle_alloc junk w.table ≡ some (t', handle_of t' i, user_area t' i)
        → handle ≡ handle_of t' i
        → length handle < 16
        → context_create junk w ≡ (tcl_ok handle, created t'' handle w)
    unfolding context_create
    created_runs junk runs e short =
        let fits : leb 16 (length (handle_of t' i)) ≡ false =
          ap (λ h. leb 16 (length h)) (sym e) ∙ ground arith in
        rw (context_create, runs, fits, x.runs, ← e) refl

    new_bound : t''.table_size ≤ 2 ^ 31 → i < 2 ^ 31
    new_bound small = omega (arith, new_lt)

    created_before : i < 2 ^ 31 → context_of w i ≡ none
    created_before h =
        let free : stored w i ≡ none = ground (arith, Allocates-allocated_at v.valid a i) in
        context_of-stored i v h ∙ ap (λ o. deref o w) free

    created_others :
        (j : ℕ)
        → j < 2 ^ 31
        → context_of (created t'' handle w) j
          ≡ (if j == i then some (empty_context handle) else context_of w j)
    created_others j h =
        context_of-stored j created-IsStored h
        ∙ ap (λ o. deref o (created t'' handle w)) (created-stored j)
        ∙ elim (Bool-cases (j == i)) [
          | inl e ↦ rw (e, ==_refl w.next_address)
          | inr e ↦
              rw (e, context_of-stored j v h)
                (elim (Option-cases (stored w j)) [
                  | inl none' ↦ rw none'
                  | inr (b, some') ↦ let (lt, live) = v.live j b some' in rw some' (ground arith)
                ])
        ]

  -- In a sound store whose handles have a base of at most 7 bytes, as context is, and whose table
  -- has after any expansion at most 10 ^ 8 entries and a size in bytes below 2 ^ 31, scancontext
  -- create succeeds with a handle that stood for nothing and now stands for an empty context;
  -- every other handle stands for what it stood for, and the store stays sound.
  pub context_create_opens :
      (junk : ℕ) (w : World I) (fs : List ℕ)
      → IsStored w fs
      → length w.table.handle_base ≤ 7
      → grown_size w.table fs ≤ 10 ^ 8
      → grown_size w.table fs * w.table.entry_size < 2 ^ 31
      → (w' : World I) × (i : ℕ) × (fs' : List ℕ) × (context_create junk w
          ≡ (tcl_ok (handle_of w.table i), w'))
        × IsStored w' fs'
        × (context_of w i ≡ none)
        × ((j : ℕ)
            → j < 2 ^ 31
            → context_of w' j
              ≡ (if j == i then some (empty_context (handle_of w.table i)) else context_of w j))
  unfolding context_create
  context_create_opens junk w fs v base few small =
      let room = grown_fits w.table fs v.sized small in
      let (t', i, fs', runs, a) = handle_alloc-Allocates junk w.table fs v.nonempty room v.valid in
      let sized : 0 < t'.entry_size = omega (arith, a.same.entry_size, v.sized) in
      let allocated = Allocates-allocated_at v.valid a in
      let (t'', x) =
        write_entry-Writes t' fs' i w.next_address a.valid sized (ground (arith, allocated i)) in
      let handle = handle_of w.table i in
      let same = sym (handle_of-same w.table t' i a.same.handle_base) in
      let bound = new_bound handle v a x (omega (arith, x.size, a.size)) in
      (
        created t'' handle w,
        i,
        fs',
        created_runs handle v a x junk runs same
            (handle_of-short w.table i (grown_size w.table fs) (next_bound v.valid a) base few),
        created-IsStored handle v a x,
        created_before handle v a x bound,
        created_others handle v a x,
      )
