-- ===== src/Filescan/Store/Change.antt =====
-- scancontext delete, and the changes of a context through its handle by scanmatch.
use tclx.Base.{
  ℕ, ◌^◌, ◌<◌, ◌≡◌, ◌≢◌, refl, sym, ap, ◌∙◌, true, none, some, List, ◌==◌, if◌then◌else◌, ==_refl,
  arith, Option-cases, Bool-cases, inl, inr,
}
use tclx.Handles.{handle_of, user_area, handle_xlate}
use tclx.Handles.FreeList.{user_at}
use tclx.Handles.Alloc.{allocated_at}
use tclx.Handles.Xlate.{handle_xlate-handle_of}
use tclx.Filescan.{Context, World, copy_file_close}
use tclx.Filescan.Contexts.{
  Status, change, delete_handler, with_context, clean_up_context, clear_copy_file,
}
use tclx.Filescan.Store.{deref, context_of, stored, IsStored}
use tclx.Filescan.Store.Entries.{read_entry-user_area}
use tclx.Filescan.Store.Open.{context_of-stored}

module _ {I : Type 0} where
  -- An open handle has an entry, and its address a context.
  pub stored_of :
      {w : World I} {fs : List ℕ} {ctx : Context} (j : ℕ)
      → IsStored w fs
      → j < 2 ^ 31
      → context_of w j ≡ some ctx
      → (a : ℕ) × (stored w j ≡ some a)
        × (w.heap a ≡ some ctx)
        × (allocated_at w.table j ≡ true)
        × (user_at w.table.body j ≡ some a)
  stored_of {w} j v h open_now =
      let at = sym (context_of-stored j v h) ∙ open_now in
      elim (Option-cases (stored w j)) [
        | inl e ↦ absurd (let p = rw e at at in cc)
        | inr (a, e) ↦ (a, e, rw e at at, ground arith, ground arith)
      ]

  -- Reading through the handle.
  pub with_open :
      {w : World I} {fs : List ℕ} (j a : ℕ) (op : ℕ → ℕ → World I → Status × World I)
      → IsStored w fs
      → j < 2 ^ 31
      → stored w j ≡ some a
      → with_context (handle_xlate w.table (handle_of w.table j)) w op
        ≡ op (user_area w.table j) a w
  unfolding with_context
  with_open {w} j a op v h e =
      let open_now : allocated_at w.table j ≡ true = ground arith in
      let user : user_at w.table.body j ≡ some a = ground arith in
      rw (
        handle_xlate-handle_of j v.valid h,
        open_now,
        with_context,
        read_entry-user_area w.table j v.sized,
        user,
      )

  -- The contexts behind the handles after a write at the address of handle `j`.
  module _ {w w' : World I} {fs fs' : List ℕ} {j a : ℕ} (v : IsStored w fs) (v' : IsStored w' fs')
      (at : stored w j ≡ some a) (frame : (b : ℕ) → b ≢ a → w'.heap b ≡ w.heap b) where
    pub context_of-frame :
        (k : ℕ) → k < 2 ^ 31 → k ≢ j → stored w' k ≡ stored w k → context_of w' k ≡ context_of w k
    context_of-frame k h ne same =
        context_of-stored k v' h ∙ ap (λ o. deref o w') same ∙ elim (Option-cases (stored w k)) [
          | inl e ↦ rw (context_of-stored k v h, e)
          | inr (b, e) ↦
              rw (context_of-stored k v h, e) (frame b (λ p. ne (v.distinct k j a (rw p at e) at)))
        ]

  -- A change of the context at its address.
  change-IsStored :
      {w : World I} {fs : List ℕ} {ctx : Context} {a : ℕ} (f : Context → Context)
      → IsStored w fs
      → w.heap a ≡ some ctx
      → IsStored (change a f w) fs
  change-IsStored {w} {fs} {ctx} {a} f v e = record {
    valid = v.valid;
    nonempty = v.nonempty;
    sized = v.sized;
    live = λ k b h.
        let (lt, (c, old)) = v.live k b h in
        (
          lt,
          elim (Bool-cases (b == a)) [
            | inl same ↦ (f c, rw (same, old))
            | inr other ↦ (c, rw other old)
          ],
        );
    distinct = v.distinct;
  }

  pub change_refines :
      {w : World I} {fs : List ℕ} {ctx : Context} (j a : ℕ) (f : Context → Context)
      → IsStored w fs
      → j < 2 ^ 31
      → stored w j ≡ some a
      → w.heap a ≡ some ctx
      → IsStored (change a f w) fs
        × ((k : ℕ)
            → k < 2 ^ 31
            → context_of (change a f w) k ≡ (if k == j then some (f ctx) else context_of w k))
  change_refines {w} {fs} {ctx} j a f v h at e =
      let v' = change-IsStored f v e in
      (
        v',
        λ k small. elim (Bool-cases (k == j)) [
          | inl same ↦
              let here : k ≡ j = ground arith in
              rw (same, here) (context_of-stored j v' h ∙ rw at (rw (==_refl a, e)))
          | inr other ↦
              rw other
                (context_of-frame v v' at (λ b ne. ground arith) k small (λ p. ground arith) refl)
        ],
      )

  -- What the release of a context's resources leaves.
  pub record Cleans (address : ℕ) (w w' : World I) : Type 0 where
    pub runs : clean_up_context address w ≡ some w'
    pub table : w'.table ≡ w.table
    pub next_address : w'.next_address ≡ w.next_address
    pub frame : (b : ℕ) → b ≢ address → w'.heap b ≡ w.heap b

  abbrev freed : ℕ → World I → World I
  freed address w = record w { heap = λ b. if b == address then none else w.heap b }

  abbrev uncopied : ℕ → ℕ → World I → World I
  uncopied address d w =
      change address (λ c. record c { copy_file = none })
        (delete_handler d (copy_file_close address) w)

  pub clean_up_context-Cleans :
      (address : ℕ) (w : World I) {ctx : Context}
      → w.heap address ≡ some ctx
      → (w' : World I) × Cleans address w w'
  unfolding clean_up_context clear_copy_file
  clean_up_context-Cleans address w {ctx} e = elim (Option-cases ctx.copy_file) [
    | inl e' ↦ (
      freed address w,
      record {
        runs = ground (arith, e, e');
        table = refl;
        next_address = refl;
        frame = λ b ne. ground arith;
      },
    )
    | inr (d, e') ↦ (
      freed address (uncopied address d w),
      record {
        runs = ground (arith, e, e');
        table = refl;
        next_address = refl;
        frame = λ b ne. ground arith;
      },
    )
  ]
