-- ===== src/Profile/Session.antt =====
-- A session of the profiler, from `profile on` to `profile off`: the table has the time in between.
use tclx.Base.{
  ℕ, zero, suc, ◌+◌, ◌≤◌, ◌<◌, ◌≡◌, refl, Bool, true, false, ◌&&◌, ◌||◌, none, some, List, [], ◌∷◌,
  Text, text, length, arith, Bool-cases, Option-cases, inl, inr, ◌⊎◌, ap, ◌∙◌, subst,
}
use tclx.Profile.{
  Clock, Time, Entry, Info, update_times, push_entry, pop_entry, scan_scope, and_then, setup,
  finishup, pop_all, is_empty, top_level, delete_trace, init_stack, turn_on, started, in_scope,
}
use tclx.Profile.Times.{total, stack_sum, table_sum}
use tclx.Profile.Sound.{
  IsSound, PointsIn, push_entry-IsSound, pop_entry-IsSound, update_times-IsSound,
  length-update_times, scan_scope_ends,
}
use tclx.Profile.Account.{
  Same, Ok, Ok-and_then, push_entry-Same, pop_entry-Same, Same-refl, Same-trans, total-update_times,
}
use tclx.Profile.Setup.{
  Balanced, doubled, setup-Balanced, left_now-IsSound, take_time_fresh, update_times_now,
}

pop_entry_empty : (i : Info) → i.stack ≡ [] → pop_entry i ≡ none
unfolding pop_entry
pop_entry_empty i e = rw e refl

List-cases {ℓ} :
    {A : Type ℓ} (xs : List A) → (xs ≡ []) ⊎ ((x : A) × (rest : List A) × (xs ≡ x ∷ rest))
List-cases [] = inl refl
List-cases (x ∷ xs) = inr (x, xs, refl)

module _ (c : Clock) where
  finishup-Balanced :
      (is_proc : Bool) (clock : Time) (i : Info)
      → IsSound i
      → i.updated_times ≡ false
      → i.now c ≤ clock c
      → Ok c (Balanced c 0 i) (finishup is_proc clock i)
  unfolding finishup
  finishup-Balanced is_proc clock i s left_before mono =
      let u = update_times clock i in
      elim (Bool-cases (i.tracing && (i.command_mode || is_proc))) [
        | inr h ↦
            rw h (record { sound = left_now-IsSound c i s; left = refl; total_is = omega arith })
        | inl h ↦ elim (List-cases u.stack) [
          | inl empty ↦ rw (h, pop_entry_empty u empty) tt
          | inr (x, es, top) ↦
              let (k, popped, s', rest) =
                pop_entry-IsSound u x es top (update_times-IsSound clock i s) in
              let same : Same c u k = subst (Ok c (Same c u)) popped (pop_entry-Same c u) in
              let pos : 1 ≤ length i.stack =
                omega (arith, length-update_times clock i, ap length top) in
              let (now, prev) = take_time_fresh c clock i left_before in
              let total' = total-update_times c clock i s pos in
              let now' = update_times_now c clock i in
              rw (h, popped)
                (record {
                  sound = left_now-IsSound c k s';
                  left = refl;
                  total_is = omega (arith, same.total_is, same.now_is, now, prev, total', now');
                })
        ]
      ]

  pop_all_ends :
      (f : ℕ) (i : Info)
      → IsSound i
      → length i.stack ≡ f
      → (k : Info) × (pop_all f i ≡ some k) × (k.stack ≡ []) × Same c i k
  unfolding pop_all
  pop_all_ends zero i s size = elim (List-cases i.stack) [
    | inl empty ↦ (i, rw (ap is_empty empty) refl, empty, Same-refl c i)
    | inr (x, es, top) ↦ absurd (omega (arith, ap length top))
  ]
  pop_all_ends (suc f) i s size = elim (List-cases i.stack) [
    | inl empty ↦ absurd (omega (arith, ap length empty))
    | inr (x, es, top) ↦
        let (j, popped, s', rest) = pop_entry-IsSound i x es top s in
        let same : Same c i j = subst (Ok c (Same c i)) popped (pop_entry-Same c i) in
        let (k, e, empty, later) =
          pop_all_ends f j s' (omega (arith, ap length top, ap length rest)) in
        (k, rw (ap is_empty top, popped) e, empty, Same-trans c same later)
  ]

  -- A session that is on: the time since `start` is in the total, but for what is counted twice.
  pub record IsOn (start extra : ℕ) (i : Info) : Type 0 where
    pub sound : IsSound i
    pub left : i.updated_times ≡ false
    pub total_is : total c i + start ≡ i.now c + extra

  abbrev HasEntry : Info → Info → Type 0
  HasEntry i j = Same c i j × IsSound j × (1 ≤ length j.stack)

  init_stack-HasEntry :
      (frames : List (Text × ℕ)) (i : Info)
      → IsSound i
      → 1 ≤ length i.stack
      → Ok c (HasEntry i) (init_stack frames i)
  unfolding init_stack
  init_stack-HasEntry [] i s pos = (Same-refl c i, s, pos)
  init_stack-HasEntry ((name, level) ∷ frames) i s pos =
      Ok-and_then c (HasEntry i) (HasEntry i) (init_stack frames i) _
        (init_stack-HasEntry frames i s pos) step
    where
      step :
          (j : Info)
          → HasEntry i j
          → Ok c
              (HasEntry i)
              (and_then (top_level j.stack) (λ l. push_entry name true (suc l) level none j))
      step j h = elim (Option-cases (top_level j.stack)) [
        | inl e ↦ rw e tt
        | inr (l, e) ↦
            let (k, pushed, s', more) =
              push_entry-IsSound name true (suc l) level none j h.1
                (λ e. absurd (omega (arith, h.2))) in
            let same : Same c j k =
              subst (Ok c (Same c j)) pushed (push_entry-Same c name true (suc l) level none j) in
            rw (e, pushed) (Same-trans c h.0 same, s', omega (arith, more))
      ]

  abbrev Started : Time → Info → Type 0
  Started clock j = IsOn (clock c) 0 j × (1 ≤ length j.stack)

  in_scope_stops : (level : ℕ) (e : Entry) → e.proc_level ≡ 0 → in_scope level e ≡ false
  in_scope_stops level e h = ground arith

  start_chain :
      (scope : ℕ) (clock : Time) (k : Info)
      → IsSound k
      → 1 ≤ length k.stack
      → k.updated_times ≡ false
      → total c k ≡ 0
      → Ok c (Started clock) (
          and_then
            (scan_scope (in_scope scope) k.stack k.scope_chain)
            (λ chain. some (record k { scope_chain = chain; now = clock })))
  start_chain scope clock k s pos left none_yet = elim (Option-cases k.scope_chain) [
    | inl e ↦
        let empty : length k.stack ≡ 0 = subst (PointsIn k.stack) e s.chain_in in
        absurd (omega arith)
    | inr (h, e) ↦
        let lt : h < length k.stack = subst (PointsIn k.stack) e s.chain_in in
        let (h', eq, lt') =
          scan_scope_ends (in_scope scope) k.stack h (in_scope_stops scope) s.linked lt in
        let eq' : scan_scope (in_scope scope) k.stack k.scope_chain ≡ some (some h') =
          ap (scan_scope (in_scope scope) k.stack) e ∙ eq in
        rw eq' (
          record {
            sound = record { size_is = s.size_is; linked = s.linked; chain_in = lt' };
            left = left;
            total_is = omega (arith, none_yet);
          },
          pos,
        )
  ]

  total-started :
      (command_mode eval_mode : Bool) (i : Info)
      → i.stack ≡ []
      → total c (started command_mode eval_mode i) ≡ 0
  unfolding table_sum stack_sum
  total-started command_mode eval_mode i off =
      let empty : stack_sum eval_mode c i.stack ≡ 0 = ap (stack_sum eval_mode c) off in
      omega (arith, empty)

  turn_on-Started :
      (command_mode eval_mode : Bool) (frames : List (Text × ℕ)) (scope : ℕ) (clock : Time)
      (i : Info)
      → IsSound i
      → i.stack ≡ []
      → Ok c (Started clock) (turn_on command_mode eval_mode frames scope clock i)
  unfolding turn_on
  turn_on-Started command_mode eval_mode frames scope clock i s off =
      let b = started command_mode eval_mode i in
      let sound : IsSound b = record {
        size_is = s.size_is;
        linked = s.linked;
        chain_in = s.chain_in;
      } in
      let (j, pushed, s', more) =
        push_entry-IsSound (text "<global>") true 0 0 (some 0) b sound (λ e. refl) in
      let same : Same c b j =
        subst (Ok c (Same c b)) pushed (push_entry-Same c (text "<global>") true 0 0 (some 0) b) in
      let none_yet : total c b ≡ 0 = total-started command_mode eval_mode i off in
      rw pushed (
        Ok-and_then c (HasEntry j) (Started clock) (init_stack frames j) _
          (init_stack-HasEntry frames j s' (omega (arith, more)))
          (λ k h.
            start_chain scope clock k h.1 h.2 (h.0.updated_is ∙ same.updated_is)
              (h.0.total_is ∙ same.total_is ∙ none_yet)))

  -- A run of the session: commands are called and return, and `extra` is what is counted twice.
  pub data Run (i : Info) : ℕ → Info → Type 0 where
    begun : Run i 0 i
    called :
        {extra : ℕ} {j k : Info} (name : Text) (is_proc : Bool) (level scope : ℕ) (clock : Time)
        → Run i extra j
        → j.now c ≤ clock c
        → setup name is_proc level scope clock j ≡ some k
        → Run i (extra + doubled c level is_proc clock j) k
    returned :
        {extra : ℕ} {j k : Info} (is_proc : Bool) (clock : Time)
        → Run i extra j
        → j.now c ≤ clock c
        → finishup is_proc clock j ≡ some k
        → Run i extra k

  Run-IsOn :
      {start : ℕ} {i : Info} {extra : ℕ} {k : Info}
      → IsOn start 0 i
      → Run i extra k
      → IsOn start extra k
  Run-IsOn on begun = on
  Run-IsOn {start} on (called {extra} {j} {k} name is_proc level scope clock r mono e) =
      let before = Run-IsOn on r in
      let d = doubled c level is_proc clock j in
      let after : Balanced c d j k =
        subst (Ok c (Balanced c d j)) e
          (setup-Balanced c name is_proc level scope clock j before.sound before.left mono) in
      record {
        sound = after.sound;
        left = after.left;
        total_is = omega (arith, before.total_is, after.total_is);
      }
  Run-IsOn {start} on (returned {extra} {j} {k} is_proc clock r mono e) =
      let before = Run-IsOn on r in
      let after : Balanced c 0 j k =
        subst (Ok c (Balanced c 0 j)) e
          (finishup-Balanced is_proc clock j before.sound before.left mono) in
      record {
        sound = after.sound;
        left = after.left;
        total_is = omega (arith, before.total_is, after.total_is);
      }

  delete_trace_ends :
      (start extra : ℕ) (clock : Time) (i : Info)
      → IsOn start extra i
      → 1 ≤ length i.stack
      → i.now c ≤ clock c
      → (k : Info) × (delete_trace clock i ≡ some k)
        × (k.stack ≡ [])
        × (table_sum c k.table + start ≡ clock c + extra)
  unfolding delete_trace stack_sum
  delete_trace_ends start extra clock i on pos mono =
      let off = record i { tracing = false } in
      let sound : IsSound off = record {
        size_is = on.sound.size_is;
        linked = on.sound.linked;
        chain_in = on.sound.chain_in;
      } in
      let u = update_times clock off in
      let (k, e, empty, same) =
        pop_all_ends (length i.stack) u (update_times-IsSound clock off sound)
          (length-update_times clock off) in
      let (now, prev) = take_time_fresh c clock off on.left in
      let total' = total-update_times c clock off sound pos in
      let nothing : stack_sum k.eval_mode c k.stack ≡ 0 = ap (stack_sum k.eval_mode c) empty in
      (k, e, empty, omega (arith, on.total_is, now, prev, total', same.total_is, nothing))

  -- In a session of the profiler that starts on a sound state with an empty stack, runs through
  -- calls and returns of commands in any order, with clocks that do not go back, and ends with an
  -- entry on the stack, switching off empties the stack and leaves in the table, for the real and
  -- the CPU time and in both modes, the time between on and off, and on top of it the intervals
  -- in which a call pops entries of procedures that were running at the start and pushes one as
  -- well, since these are counted twice.
  pub session_times :
      (command_mode eval_mode : Bool) (frames : List (Text × ℕ)) (scope extra : ℕ)
      → (from to : Time) (i j k : Info) → IsSound i
      → i.stack ≡ []
      → turn_on command_mode eval_mode frames scope from i ≡ some j
      → Run j extra k
      → 1 ≤ length k.stack
      → k.now c ≤ to c
      → (m : Info) × (delete_trace to k ≡ some m)
        × (m.stack ≡ [])
        × (table_sum c m.table + from c ≡ to c + extra)
  session_times command_mode eval_mode frames scope extra from to i j k s off e r pos mono =
      let on : Started from j =
        subst (Ok c (Started from)) e
          (turn_on-Started command_mode eval_mode frames scope from i s off) in
      delete_trace_ends (from c) extra to k (Run-IsOn on.0 r) pos mono
