-- ===== src/Filescan/Store/Close.antt =====
-- scancontext delete: the handle stands for nothing afterwards.
use tclx.Base.{
  ℕ, ◌^◌, ◌<◌, ◌≡◌, ◌≢◌, sym, ◌∙◌, none, some, List, [], ◌∷◌, ◌==◌, if◌then◌else◌, arith,
  Bool-cases, inl, inr,
}
use tclx.Handles.{Table, handle_of, user_area}
use tclx.Handles.Xlate.{Frees, handle_free-Frees}
use tclx.Filescan.{Context, World}
use tclx.Filescan.Contexts.{tcl_ok, context_delete, delete_context}
use tclx.Filescan.Store.{context_of, stored, IsStored}
use tclx.Filescan.Store.Open.{context_of-stored, allocated_lt}
use tclx.Filescan.Store.Change.{
  stored_of, with_open, context_of-frame, Cleans, clean_up_context-Cleans,
}

module _ {I : Type 0} where
  abbrev with_table : Table ℕ → World I → World I
  with_table t w = record w { table = t }

  module _ {w w₁ : World I} {fs : List ℕ} {j a : ℕ} {t : Table ℕ} (v : IsStored w fs)
      (at : stored w j ≡ some a) (c : Cleans a w w₁) (f : Frees w.table fs j t) where
    closed-stored : (k : ℕ) → stored (with_table t w₁) k ≡ (if k == j then none else stored w k)
    closed-stored k =
        ground (arith, f.allocated k, f.same.users k, allocated_lt w.table fs k v.valid)

    closed_old : (k b : ℕ) → stored (with_table t w₁) k ≡ some b → (k ≢ j) × (stored w k ≡ some b)
    closed_old k b h =
        let h' : (if k == j then none else stored w k) ≡ some b = sym (closed-stored k) ∙ h in
        elim (Bool-cases (k == j)) [
          | inl e ↦ absurd (let p = rw e at h' in cc)
          | inr e ↦ ((λ p. ground arith), rw e at h')
        ]

    closed-IsStored : IsStored (with_table t w₁) (j ∷ fs)
    closed-IsStored = record {
      valid = f.valid;
      nonempty = omega (arith, f.size, v.nonempty);
      sized = omega (arith, f.same.entry_size, v.sized);
      live = λ k b h.
          let (ne, old) = closed_old k b h in
          let (lt, (ctx, here)) = v.live k b old in
          (
            omega (arith, c.next_address),
            (ctx, c.frame b (λ p. ne (v.distinct k j a (rw p at old) at)) ∙ here),
          );
      distinct = λ i k b h h'. v.distinct i k b (closed_old i b h).1 (closed_old k b h').1;
    }

    closed_contexts :
        (k : ℕ)
        → k < 2 ^ 31
        → context_of (with_table t w₁) k ≡ (if k == j then none else context_of w k)
    closed_contexts k h = elim (Bool-cases (k == j)) [
      | inl e ↦ rw (e, context_of-stored k closed-IsStored h, closed-stored k, e)
      | inr e ↦ rw e (
          context_of-frame v closed-IsStored at c.frame k h (λ p. ground arith)
            (rw (closed-stored k, e)))
    ]

    closed_runs : delete_context (user_area w.table j) a w ≡ (tcl_ok [], with_table t w₁)
    unfolding delete_context
    closed_runs = rw (delete_context, c.runs, c.table, f.runs)

  -- In a sound store, scancontext delete of a handle below 2 ^ 31 that stands for a context
  -- succeeds; the handle then stands for nothing, every other for what it stood for, and the
  -- store stays sound.
  pub context_delete_closes :
      (w : World I) (fs : List ℕ) (j : ℕ) (ctx : Context)
      → IsStored w fs
      → j < 2 ^ 31
      → context_of w j ≡ some ctx
      → (w' : World I) × (context_delete (handle_of w.table j) w ≡ (tcl_ok [], w'))
        × IsStored w' (j ∷ fs)
        × ((k : ℕ) → k < 2 ^ 31 → context_of w' k ≡ (if k == j then none else context_of w k))
  unfolding context_delete
  context_delete_closes w fs j ctx v h open_now =
      let (a, at, here, allocated, user) = stored_of j v h open_now in
      let (w₁, c) = clean_up_context-Cleans a w here in
      let (t, f) = handle_free-Frees j v.valid v.sized allocated in
      (
        with_table t w₁,
        with_open j a delete_context v h at ∙ closed_runs v at c f,
        closed-IsStored v at c f,
        closed_contexts v at c f,
      )
