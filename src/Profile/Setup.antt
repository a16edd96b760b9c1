-- ===== src/Profile/Setup.antt =====
-- The set-up of a command: the time of the trace is added, twice where initial entries are popped and
-- an entry is pushed.
use tclx.Base.{
  ℕ, zero, suc, ◌+◌, ◌-◌, ◌≤◌, ◌≡◌, refl, Bool, true, false, ◌&&◌, ◌||◌, Option, none, some, List,
  [], ◌∷◌, Text, if◌then◌else◌, length, arith, Bool-cases, Option-cases, inl, inr, ap, ◌∙◌, subst,
}
use tclx.Profile.{
  Clock, Time, Entry, Info, take_time, update_times, interval, push_entry, and_then, left_now,
  is_above, is_initial, pop_above, pop_initial, push_command, setup,
}
use tclx.Profile.Times.{total}
use tclx.Profile.Sound.{
  IsSound, push_entry-IsSound, pop_entry-IsSound, update_times-IsSound, length-update_times,
}
use tclx.Profile.Account.{
  Same, Same-refl, Same-trans, Ok, Ok-and_then, Ok-map, take_time-Same, total-update_times,
  push_entry-Same, pop_entry-Same,
}

module _ (c : Clock) where
  -- A sound stack with an entry, and the same total.
  abbrev Kept : Info → Info → Type 0
  Kept i j = Same c i j × IsSound j × (1 ≤ length j.stack)

  is_above_top :
      (level : ℕ) (es : List Entry) (above : Bool)
      → is_above level es ≡ some above
      → (x : Entry) × (rest : List Entry) × (es ≡ x ∷ rest)
  is_above_top level [] above e = absurd (ground arith)
  is_above_top level (x ∷ es) above e = (x, es, refl)

  pop_above-Kept : (f level : ℕ) (i : Info) → IsSound i → Ok c (Kept i) (pop_above f level i)
  unfolding pop_above
  pop_above-Kept zero level i s = tt
  pop_above-Kept (suc f) level i s = elim (Option-cases (is_above level i.stack)) [
    | inl e ↦ rw e tt
    | inr (above, e) ↦
        let (x, es, top) = is_above_top level i.stack above e in
        elim (Bool-cases above) [
          | inr stays ↦ rw (e, stays) (Same-refl c i, s, omega (arith, ap length top))
          | inl goes ↦ elim (Bool-cases (is_initial i.stack)) [
            | inr called ↦ rw (e, goes, called) tt
            | inl initial ↦
                let (j, popped, s', rest) = pop_entry-IsSound i x es top s in
                let same : Same c i j = subst (Ok c (Same c i)) popped (pop_entry-Same c i) in
                let later =
                  Ok-map c (Kept j) (Kept i) (pop_above f level j)
                    (λ k h. (Same-trans c same h.0, h.1, h.2)) (pop_above-Kept f level j s') in
                rw (e, goes, initial, popped) later
          ]
        ]
  ]

  abbrev pushes : Bool → Info → Bool
  pushes is_proc i = i.command_mode || is_proc

  -- What is pushed on a sound stack with an entry adds the time of the trace.
  record Pushed (clock : Time) (is_proc : Bool) (j k : Info) : Type 0 where
    sound : IsSound k
    total_is :
        total c k ≡ total c j + (if pushes is_proc j then interval (take_time clock j) c else 0)
    now_is : k.now c ≡ (if pushes is_proc j then (take_time clock j).now c else j.now c)

  pub update_times_now :
      (clock : Time) (i : Info) → (update_times clock i).now c ≡ (take_time clock i).now c
  unfolding update_times
  update_times_now clock i = refl

  push_entry-Pushed :
      (name : Text) (is_proc proc : Bool) (proc_level scope_level : ℕ) (eval_level : Option ℕ)
      → (clock : Time) (j : Info) → IsSound j
      → 1 ≤ length j.stack
      → pushes is_proc j ≡ true
      → Ok c
          (Pushed clock is_proc j)
          (push_entry name proc proc_level scope_level eval_level (update_times clock j))
  push_entry-Pushed name is_proc proc proc_level scope_level eval_level clock j s pos h =
      let u = update_times clock j in
      let (k, pushed, s', more) =
        push_entry-IsSound name proc proc_level scope_level eval_level u
          (update_times-IsSound clock j s)
          (λ empty. absurd (omega (arith, length-update_times clock j, empty))) in
      let same : Same c u k =
        subst (Ok c (Same c u)) pushed
          (push_entry-Same c name proc proc_level scope_level eval_level u) in
      rw pushed (record {
        sound = s';
        total_is = rw h (same.total_is ∙ total-update_times c clock j s pos);
        now_is = rw h (same.now_is ∙ update_times_now clock j);
      })

  push_command-Pushed :
      (name : Text) (is_proc : Bool) (level scope : ℕ) (clock : Time) (j : Info)
      → IsSound j
      → 1 ≤ length j.stack
      → Ok c (Pushed clock is_proc j) (push_command name is_proc level scope clock j)
  unfolding push_command
  push_command-Pushed name true level scope clock j s pos = elim (Bool-cases (pushes true j)) [
    | inr h ↦ rw h (record { sound = s; total_is = rw h (omega arith); now_is = rw h refl })
    | inl h ↦
        rw h (push_entry-Pushed name true true (suc level) (suc scope) (some level) clock j s pos h)
  ]
  push_command-Pushed name false level scope clock j s pos = elim (Bool-cases (pushes false j)) [
    | inr h ↦ rw h (record { sound = s; total_is = rw h (omega arith); now_is = rw h refl })
    | inl h ↦ rw h (push_entry-Pushed name false false level scope (some level) clock j s pos h)
  ]

  abbrev or_false : Option Bool → Bool
  or_false none = false
  or_false (some b) = b

  abbrev pops : ℕ → Info → Bool
  pops level i = or_false (is_above level i.stack)

  -- What is counted a second time.
  abbrev pub doubled : ℕ → Bool → Time → Info → ℕ
  doubled level is_proc clock i = if pops level i && pushes is_proc i then clock c - i.now c else 0

  -- The time of the traces is in the total, with what is counted a second time.
  pub record Balanced (extra : ℕ) (i k : Info) : Type 0 where
    pub sound : IsSound k
    pub left : k.updated_times ≡ false
    pub total_is : total c k + i.now c ≡ total c i + k.now c + extra

  pub left_now-IsSound : (k : Info) → IsSound k → IsSound (left_now k)
  left_now-IsSound k s = record { size_is = s.size_is; linked = s.linked; chain_in = s.chain_in }

  pub take_time_fresh :
      (clock : Time) (i : Info)
      → i.updated_times ≡ false
      → ((take_time clock i).now c ≡ clock c) × ((take_time clock i).prev c ≡ i.now c)
  unfolding take_time
  take_time_fresh clock i h = rw h (refl, refl)

  take_time_stale :
      (clock : Time) (i : Info)
      → i.updated_times ≡ true
      → ((take_time clock i).now c ≡ i.now c) × ((take_time clock i).prev c ≡ i.prev c)
  unfolding take_time
  take_time_stale clock i h = rw h (refl, refl)

  fresh_Balanced :
      (is_proc : Bool) (clock : Time) (i k : Info) (extra : ℕ)
      → i.updated_times ≡ false
      → i.now c ≤ clock c
      → extra ≡ 0
      → Pushed clock is_proc i k
      → Balanced extra i (left_now k)
  fresh_Balanced is_proc clock i k extra left_before mono once p =
      let (now, prev) = take_time_fresh clock i left_before in
      record {
        sound = left_now-IsSound k p.sound;
        left = refl;
        total_is = elim (Bool-cases (pushes is_proc i)) [
          | inl h ↦
              let total' : total c k ≡ total c i + interval (take_time clock i) c =
                p.total_is ∙ rw h refl in
              let now' : k.now c ≡ (take_time clock i).now c = p.now_is ∙ rw h refl in
              omega (arith, now, prev, total', now', once)
          | inr h ↦
              let total' : total c k ≡ total c i + 0 = p.total_is ∙ rw h refl in
              let now' : k.now c ≡ i.now c = p.now_is ∙ rw h refl in
              omega (arith, total', now', once)
        ];
      }

  -- The state behind the pops of the initial entries.
  record Popped (clock : Time) (i j : Info) : Type 0 where
    sound : IsSound j
    has_entry : 1 ≤ length j.stack
    total_is : total c j ≡ total c i + (clock c - i.now c)
    now_is : j.now c ≡ clock c
    prev_is : j.prev c ≡ i.now c
    updated_is : j.updated_times ≡ true
    command_mode_is : j.command_mode ≡ i.command_mode

  pop_above-Popped :
      (level : ℕ) (clock : Time) (i : Info)
      → IsSound i
      → 1 ≤ length i.stack
      → i.updated_times ≡ false
      → Ok c (Popped clock i) (pop_above (length i.stack) level (update_times clock i))
  unfolding update_times
  pop_above-Popped level clock i s pos left_before =
      let u = update_times clock i in
      let (now, prev) = take_time_fresh clock i left_before in
      let (same, stack, chain, eval, commands, tracing, updated) = take_time-Same c clock i in
      let total' = total-update_times c clock i s pos in
      Ok-map c (Kept u) (Popped clock i) (pop_above (length i.stack) level u)
        (λ j h. record {
          sound = h.1;
          has_entry = h.2;
          total_is = omega (arith, h.0.total_is, total', now, prev);
          now_is = h.0.now_is ∙ now;
          prev_is = h.0.prev_is ∙ prev;
          updated_is = h.0.updated_is ∙ updated;
          command_mode_is = h.0.command_mode_is ∙ commands;
        })
        (pop_above-Kept (length i.stack) level u (update_times-IsSound clock i s))

  stale_Balanced :
      (is_proc : Bool) (clock : Time) (i j k : Info) (extra : ℕ)
      → i.now c ≤ clock c
      → extra ≡ (if pushes is_proc i then clock c - i.now c else 0)
      → Popped clock i j
      → Pushed clock is_proc j k
      → Balanced extra i (left_now k)
  stale_Balanced is_proc clock i j k extra mono twice q p =
      let (now, prev) = take_time_stale clock j q.updated_is in
      let same : pushes is_proc j ≡ pushes is_proc i = ap (λ m. m || is_proc) q.command_mode_is in
      record {
        sound = left_now-IsSound k p.sound;
        left = refl;
        total_is = elim (Bool-cases (pushes is_proc i)) [
          | inl h ↦
              let total' : total c k ≡ total c j + interval (take_time clock j) c =
                p.total_is ∙ rw (same, h) refl in
              let now' : k.now c ≡ (take_time clock j).now c = p.now_is ∙ rw (same, h) refl in
              let extra' : extra ≡ clock c - i.now c = twice ∙ rw h refl in
              omega (arith, now, prev, total', now', extra', q.total_is, q.now_is, q.prev_is)
          | inr h ↦
              let total' : total c k ≡ total c j + 0 = p.total_is ∙ rw (same, h) refl in
              let now' : k.now c ≡ j.now c = p.now_is ∙ rw (same, h) refl in
              let extra' : extra ≡ 0 = twice ∙ rw h refl in
              omega (arith, total', now', extra', q.total_is, q.now_is)
        ];
      }

  -- x
  pub setup-Balanced :
      (name : Text) (is_proc : Bool) (level scope : ℕ) (clock : Time) (i : Info)
      → IsSound i
      → i.updated_times ≡ false
      → i.now c ≤ clock c
      → Ok c (Balanced (doubled level is_proc clock i) i) (setup name is_proc level scope clock i)
  unfolding setup pop_initial
  setup-Balanced name is_proc level scope clock i s left_before mono =
      elim (Option-cases (is_above level i.stack)) [
        | inl e ↦ rw e tt
        | inr (above, e) ↦
            let (x, es, top) = is_above_top level i.stack above e in
            let pos : 1 ≤ length i.stack = omega (arith, ap length top) in
            elim (Bool-cases above) [
              | inr stays ↦
                  rw (e, stays)
                    (Ok-and_then c (Pushed clock is_proc i) (Balanced _ i)
                      (push_command name is_proc level scope clock i) (λ k. some (left_now k))
                      (push_command-Pushed name is_proc level scope clock i s pos)
                      (λ k p. fresh_Balanced is_proc clock i k _ left_before mono refl p))
              | inl goes ↦
                  rw (e, goes)
                    (Ok-and_then c (Popped clock i) (Balanced _ i)
                      (pop_above (length i.stack) level (update_times clock i))
                      (λ j.
                        and_then (push_command name is_proc level scope clock j)
                          (λ k. some (left_now k)))
                      (pop_above-Popped level clock i s pos left_before)
                      (λ j q.
                        Ok-and_then c (Pushed clock is_proc j) (Balanced _ i)
                          (push_command name is_proc level scope clock j) (λ k. some (left_now k))
                          (push_command-Pushed name is_proc level scope clock j q.sound q.has_entry)
                          (λ k p. stale_Balanced is_proc clock i j k _ mono refl q p)))
            ]
      ]
