-- ===== src/Profile/Account.antt =====
-- Where the time of a trace goes: what the operations of the profiler add to the total.
use tclx.Base.{
  ℕ, ◌+◌, ◌≤◌, ◌<◌, ◌≡◌, refl, sym, Bool, true, false, Option, none, some, List, [], ◌∷◌, Text,
  length, arith, Bool-cases, Option-cases, inl, inr, ap, ◌∙◌, subst,
}
use tclx.Profile.{
  Clock, Time, Entry, Info, entry_time, add_scope_time, add_eval_time, take_time, update_times,
  interval, push_entry, pop_entry, record_data, scan_scope, behind_scope, and_then, record_key,
}
use tclx.Profile.Times.{
  total, stack_sum, table_sum, table_sum-add_data, stack_sum-add_scope_time,
  stack_sum-add_eval_time, length-add_eval_time,
}
use tclx.Profile.Sound.{IsSound, PointsIn}

module _ (c : Clock) where
  -- The total and what the operations on the stack left_now as it is.
  pub record Same (i j : Info) : Type 0 where
    pub total_is : total c j ≡ total c i
    pub now_is : j.now c ≡ i.now c
    pub prev_is : j.prev c ≡ i.prev c
    pub updated_is : j.updated_times ≡ i.updated_times
    pub eval_mode_is : j.eval_mode ≡ i.eval_mode
    pub command_mode_is : j.command_mode ≡ i.command_mode
    pub tracing_is : j.tracing ≡ i.tracing

  pub Same-refl : (i : Info) → Same i i
  Same-refl i = record {
    total_is = refl;
    now_is = refl;
    prev_is = refl;
    updated_is = refl;
    eval_mode_is = refl;
    command_mode_is = refl;
    tracing_is = refl;
  }

  pub Same-trans : {i j k : Info} → Same i j → Same j k → Same i k
  Same-trans p q = record {
    total_is = q.total_is ∙ p.total_is;
    now_is = q.now_is ∙ p.now_is;
    prev_is = q.prev_is ∙ p.prev_is;
    updated_is = q.updated_is ∙ p.updated_is;
    eval_mode_is = q.eval_mode_is ∙ p.eval_mode_is;
    command_mode_is = q.command_mode_is ∙ p.command_mode_is;
    tracing_is = q.tracing_is ∙ p.tracing_is;
  }

  abbrev pub Ok : (Info → Type 0) → Option Info → Type 0
  Ok P none = Unit {0}
  Ok P (some j) = P j

  pub Ok-and_then :
      (P Q : Info → Type 0) (o : Option Info) (k : Info → Option Info)
      → Ok P o
      → ((j : Info) → P j → Ok Q (k j))
      → Ok Q (and_then o k)
  Ok-and_then P Q none k h step = tt
  Ok-and_then P Q (some j) k h step = step j h

  stack_sum-added :
      (mode : Bool) (t : Time) (es : List Entry) (p : Option ℕ)
      → PointsIn es p
      → 1 ≤ length es
      → stack_sum mode c (add_scope_time t (add_eval_time t es) p) ≡ stack_sum mode c es + t c
  stack_sum-added mode t [] p h pos = absurd (omega arith)
  stack_sum-added mode t (e ∷ es) none h pos = absurd (omega arith)
  stack_sum-added true t (e ∷ es) (some n) h pos =
      let lt : n < length (add_eval_time t (e ∷ es)) =
        omega (arith, length-add_eval_time t (e ∷ es)) in
      (stack_sum-add_scope_time c t (add_eval_time t (e ∷ es)) n lt).1
      ∙ (stack_sum-add_eval_time c t e es).0
  stack_sum-added false t (e ∷ es) (some n) h pos =
      let lt : n < length (add_eval_time t (e ∷ es)) =
        omega (arith, length-add_eval_time t (e ∷ es)) in
      (stack_sum-add_scope_time c t (add_eval_time t (e ∷ es)) n lt).0
      ∙ ap (λ n. n + t c) (stack_sum-add_eval_time c t e es).1

  pub take_time-Same :
      (clock : Time) (i : Info)
      → (total c (take_time clock i) ≡ total c i)
        × ((take_time clock i).stack ≡ i.stack)
        × ((take_time clock i).scope_chain ≡ i.scope_chain)
        × ((take_time clock i).eval_mode ≡ i.eval_mode)
        × ((take_time clock i).command_mode ≡ i.command_mode)
        × ((take_time clock i).tracing ≡ i.tracing)
        × ((take_time clock i).updated_times ≡ true)
  unfolding take_time
  take_time-Same clock i = elim (Bool-cases i.updated_times) [
    | inl h ↦ rw h (refl, refl, refl, refl, refl, refl, refl)
    | inr h ↦ rw h (refl, refl, refl, refl, refl, refl, refl)
  ]

  -- The total with the time of the trace added.
  pub total-update_times :
      (clock : Time) (i : Info)
      → IsSound i
      → 1 ≤ length i.stack
      → total c (update_times clock i) ≡ total c i + interval (take_time clock i) c
  unfolding update_times
  total-update_times clock i s pos =
      let i' = take_time clock i in
      let (same, stack, chain, eval, commands, tracing, updated) = take_time-Same clock i in
      let in_stack : PointsIn i'.stack i'.scope_chain =
        subst (λ es. PointsIn es i'.scope_chain) (sym stack)
          (subst (PointsIn i.stack) (sym chain) s.chain_in) in
      let pos' : 1 ≤ length i'.stack = subst (λ es. 1 ≤ length es) (sym stack) pos in
      let added =
        stack_sum-added i'.eval_mode (interval i') i'.stack i'.scope_chain in_stack pos' in
      omega (arith, added, same)

  stack_sum_new :
      (mode : Bool) (e : Entry) (es : List Entry)
      → e.eval_time c ≡ 0
      → e.scope_time c ≡ 0
      → stack_sum mode c (e ∷ es) ≡ stack_sum mode c es
  unfolding stack_sum
  stack_sum_new true e es eval scope = omega arith
  stack_sum_new false e es eval scope = omega arith

  pub push_entry-Same :
      (name : Text) (is_proc : Bool) (proc_level scope_level : ℕ) (eval_level : Option ℕ) (i : Info)
      → Ok (Same i) (push_entry name is_proc proc_level scope_level eval_level i)
  unfolding push_entry
  push_entry-Same name is_proc proc_level scope_level eval_level i =
      elim (Option-cases (scan_scope (behind_scope is_proc scope_level) i.stack i.scope_chain)) [
        | inl e ↦ rw e tt
        | inr (p, e) ↦ rw e (record {
          total_is =
              ap (λ n. table_sum c i.table + n) (stack_sum_new i.eval_mode _ i.stack refl refl);
          now_is = refl;
          prev_is = refl;
          updated_is = refl;
          eval_mode_is = refl;
          command_mode_is = refl;
          tracing_is = refl;
        })
      ]

  pub pop_entry-Same : (i : Info) → Ok (Same i) (pop_entry i)
  unfolding pop_entry record_data stack_sum
  pop_entry-Same i = go i.stack refl
    where
      go : (es : List Entry) → i.stack ≡ es → Ok (Same i) (pop_entry i)
      go [] e = rw e tt
      go (x ∷ es) e =
          let added =
            table_sum-add_data c (record_key i.eval_mode x es) (entry_time i.eval_mode x) i.table in
          let split : stack_sum i.eval_mode c i.stack
              ≡ entry_time i.eval_mode x c + stack_sum i.eval_mode c es =
            ap (stack_sum i.eval_mode c) e in
          rw e (record {
            total_is = omega (arith, added, split);
            now_is = refl;
            prev_is = refl;
            updated_is = refl;
            eval_mode_is = refl;
            command_mode_is = refl;
            tracing_is = refl;
          })

  pub Ok-map : (P Q : Info → Type 0) (o : Option Info) → ((j : Info) → P j → Q j) → Ok P o → Ok Q o
  Ok-map P Q none f h = tt
  Ok-map P Q (some j) f h = f j h
