-- ===== src/Handles/Walk.antt =====
-- TclX_HandleWalk: the loop over a table that its callers write, from the key -1 until NULL.
use tclx.Base.{
  ℕ, zero, suc, ◌+◌, ◌-◌, ◌≤◌, ◌<◌, ◌≡◌, refl, Option, none, some, List, [], ◌∷◌, if◌then◌else◌,
  ◌⊎◌, get_elem?, arith, ap, ◌∙◌, inl, inr, Bool-cases,
}
use tclx.Base.Int.{ℤ, pos, negsuc, pos_part, ◌+ℤ◌}
use tclx.Handles.{Entry, Table, ◌>>=◌, is_allocated, walk_loop, handle_walk, user_area}

module _ {A : Type 0} where
  -- The indices from `start` on that are allocated, among `n`.
  unfoldable pub allocated_from : List (Entry A) → ℕ → ℕ → List ℕ
  allocated_from b zero start = []
  allocated_from b (suc n) start =
      if is_allocated (get_elem? b start)
      then start ∷ allocated_from b n (suc start)
      else allocated_from b n (suc start)

  -- The keys that successive calls store, on fuel.
  unfoldable pub walk_all : ℕ → Table A → ℤ → List ℕ
  walk_all zero t key = []
  walk_all (suc f) t key = elim (handle_walk t key) [
    | none ↦ []
    | some (i, p) ↦ i ∷ walk_all f t (pos i)
  ]

  -- Where the loop stops the first time.
  walk_loop-cases :
      (b : List (Entry A)) (n start : ℕ)
      → (walk_loop b n start ≡ none) × (allocated_from b n start ≡ [])
        ⊎ ((i : ℕ) × (walk_loop b n start ≡ some i)
            × (start ≤ i)
            × (i < start + n)
            × (allocated_from b n start ≡ i ∷ allocated_from b (start + n - suc i) (suc i)))
  unfolding walk_loop allocated_from
  walk_loop-cases b zero start = inl (refl, refl)
  walk_loop-cases b (suc n) start = elim (Bool-cases (is_allocated (get_elem? b start))) [
    | inl yes' ↦ inr (
      start,
      rw yes',
      omega arith,
      omega arith,
      rw yes' (ap (λ (m : ℕ). start ∷ allocated_from b m (suc start)) (omega arith)),
    )
    | inr no' ↦ elim (walk_loop-cases b n (suc start)) [
      | inl (stops, empty) ↦ inl (rw no' stops, rw no' empty)
      | inr (i, finds, lo, hi, list) ↦ inr (
        i,
        rw no' finds,
        omega arith,
        omega arith,
        rw no' (list ∙ ap (λ (m : ℕ). i ∷ allocated_from b m (suc i)) (omega arith)),
      )
    ]
  ]

  walk_step :
      (t : Table A) (key : ℤ) (start : ℕ) (o : Option ℕ)
      → pos_part (key +ℤ pos 1) ≡ start
      → walk_loop t.body (t.table_size - start) start ≡ o
      → handle_walk t key ≡ (o >>= λ i. some (i, user_area t i))
  unfolding handle_walk
  walk_step t key start o e runs = rw (e, runs)

  walk_all-allocated_from :
      (f : ℕ) (t : Table A) (key : ℤ) (start : ℕ)
      → pos_part (key +ℤ pos 1) ≡ start
      → t.table_size - start < f
      → walk_all f t key ≡ allocated_from t.body (t.table_size - start) start
  unfolding walk_all
  walk_all-allocated_from zero t key start e h = absurd (omega arith)
  walk_all-allocated_from (suc f) t key start e h =
      elim (walk_loop-cases t.body (t.table_size - start) start) [
        | inl (stops, empty) ↦ rw (walk_step t key start none e stops, walk_all, empty)
        | inr (i, finds, lo, hi, list) ↦
            rw (walk_step t key start (some i) e finds, walk_all, list)
              (ap (λ r. i ∷ r)
                (walk_all-allocated_from f t (pos i) (suc i) (ground arith) (omega arith)
                  ∙ ap (λ (m : ℕ). allocated_from t.body m (suc i)) (omega arith)))
      ]

  -- With fuel above the size of the table, calling TclX_HandleWalk from -1 until NULL visits each
  -- allocated entry once, in order.
  pub walk_all_complete :
      (f : ℕ) (t : Table A)
      → t.table_size < f
      → walk_all f t (negsuc 0) ≡ allocated_from t.body t.table_size 0
  walk_all_complete f t h =
      walk_all-allocated_from f t (negsuc 0) 0 refl (omega arith)
      ∙ ap (λ (m : ℕ). allocated_from t.body m 0) (omega arith)
