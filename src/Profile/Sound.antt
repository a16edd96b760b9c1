-- ===== src/Profile/Sound.antt =====
-- The pointers of the profiler's stack: each one means an entry that is there, and no operation
-- panics on the scope chain.
use tclx.Base.{
  ℕ, suc, ◌≤◌, ◌<◌, ◌≡◌, refl, sym, Bool, false, Option, none, some, List, [], ◌∷◌, Text, ◌==◌,
  length, arith, Bool-cases, Option-cases, inl, inr, ap, ◌∙◌, subst,
}
use tclx.Profile.{
  Time, Entry, Info, add_scope_time, add_eval_time, take_time, update_times, interval, push_entry,
  pop_entry, record_data, scan_scope, behind_scope, pointer_to_top, stack_names, scope_names,
  record_key,
}
use tclx.Profile.Times.{length-add_scope_time, length-add_eval_time}

-- NULL for an empty stack only, and else an entry that is there.
abbrev pub PointsIn : List Entry → Option ℕ → Type 0
PointsIn es none = length es ≡ 0
PointsIn es (some h) = h < length es

-- The chains go down to the global entry.
abbrev pub Linked : List Entry → Type 0
Linked [] = Unit {0}
Linked (e ∷ es) = PointsIn es e.prev_scope × (length es ≡ 0 → e.proc_level ≡ 0) × Linked es

pub record IsSound (i : Info) : Type 0 where
  pub size_is : i.stack_size ≡ length i.stack
  pub linked : Linked i.stack
  pub chain_in : PointsIn i.stack i.scope_chain

abbrev ScansTo : List Entry → Option (Option ℕ) → Type 0
ScansTo es o = (h : ℕ) × (o ≡ some (some h)) × (h < length es)

-- A scan that stops at the global level ends at an entry.
pub scan_scope_ends :
    (skip : Entry → Bool) (es : List Entry) (h : ℕ)
    → ((e : Entry) → e.proc_level ≡ 0 → skip e ≡ false)
    → Linked es
    → h < length es
    → ScansTo es (scan_scope skip es (some h))
unfolding scan_scope
scan_scope_ends skip [] h stop linked lt = absurd (omega arith)
scan_scope_ends skip (e ∷ es) h stop linked lt = elim (Bool-cases (h == length es)) [
  | inr other ↦
      let (h', eq, lt') = scan_scope_ends skip es h stop linked.2 (ground arith) in
      rw (other, eq) (h', refl, omega arith)
  | inl same ↦ elim (Bool-cases (skip e)) [
    | inr stays ↦ rw (same, stays) (h, refl, lt)
    | inl skips ↦ elim (Option-cases e.prev_scope) [
      | inl none_below ↦
          let empty : length es ≡ 0 = subst (PointsIn es) none_below linked.0 in
          absurd (ground (arith, stop e (linked.1 empty)))
      | inr (h', below) ↦
          let lt' : h' < length es = subst (PointsIn es) below linked.0 in
          let (h'', eq, lt'') = scan_scope_ends skip es h' stop linked.2 lt' in
          let eq' : scan_scope skip es e.prev_scope ≡ some (some h'') =
            ap (scan_scope skip es) below ∙ eq in
          rw (same, skips, below, eq') (h'', refl, omega arith)
    ]
  ]
]

behind_scope_stops :
    (is_proc : Bool) (level : ℕ) (e : Entry)
    → e.proc_level ≡ 0
    → behind_scope is_proc level e ≡ false
behind_scope_stops is_proc level e h = ground arith

-- On a state whose scope pointers mean entries that are there and whose size is that of the
-- stack, PushEntry does not panic and keeps this, when a first entry has the procedure level 0.
pub push_entry-IsSound :
    (name : Text) (is_proc : Bool) (proc_level scope_level : ℕ) (eval_level : Option ℕ) (i : Info)
    → IsSound i
    → (length i.stack ≡ 0 → proc_level ≡ 0)
    → (j : Info) × (push_entry name is_proc proc_level scope_level eval_level i ≡ some j)
      × IsSound j
      × (length j.stack ≡ suc (length i.stack))
unfolding push_entry scan_scope
push_entry-IsSound name is_proc proc_level scope_level eval_level i s bottom =
    elim (Option-cases i.scope_chain) [
      | inl no_scope ↦
          let empty : length i.stack ≡ 0 = subst (PointsIn i.stack) no_scope s.chain_in in
          rw no_scope (
            _,
            refl,
            record {
              size_is = ap suc s.size_is;
              linked = (empty, bottom, s.linked);
              chain_in = omega arith;
            },
            refl,
          )
      | inr (h, at_h) ↦
          let lt : h < length i.stack = subst (PointsIn i.stack) at_h s.chain_in in
          let (h', eq, lt') =
            scan_scope_ends (behind_scope is_proc scope_level) i.stack h
              (behind_scope_stops is_proc scope_level) s.linked lt in
          rw (at_h, eq)
            (
              _,
              refl,
              record {
                size_is = ap suc s.size_is;
                linked = (lt', bottom, s.linked);
                chain_in = omega arith;
              },
              refl,
            )
    ]

pointer_to_top_in : (es : List Entry) → PointsIn es (pointer_to_top es)
pointer_to_top_in [] = refl
pointer_to_top_in (e ∷ es) = omega arith

pub pop_entry-IsSound :
    (i : Info) (e : Entry) (es : List Entry)
    → i.stack ≡ e ∷ es
    → IsSound i
    → (j : Info) × (pop_entry i ≡ some j) × IsSound j × (j.stack ≡ es)
unfolding pop_entry record_data
pop_entry-IsSound i e es at_top s =
    let size : i.stack_size ≡ suc (length es) = s.size_is ∙ ap length at_top in
    let linked : Linked (e ∷ es) = subst Linked at_top s.linked in
    rw at_top (
      _,
      refl,
      record { size_is = omega arith; linked = linked.2; chain_in = pointer_to_top_in es },
      refl,
    )

PointsIn-length :
    (es es' : List Entry) (p : Option ℕ) → length es' ≡ length es → PointsIn es p → PointsIn es' p
PointsIn-length es es' none e h = e ∙ h
PointsIn-length es es' (some n) e h = omega arith

add_scope_time-Linked :
    (t : Time) (es : List Entry) (p : Option ℕ) → Linked es → Linked (add_scope_time t es p)
unfolding add_scope_time
add_scope_time-Linked t es none h = h
add_scope_time-Linked t [] (some n) h = h
add_scope_time-Linked t (e ∷ es) (some n) h = elim (Bool-cases (n == length es)) [
  | inl same ↦ rw same h
  | inr other ↦
      let e' = length-add_scope_time t es (some n) in
      rw other (
        PointsIn-length es (add_scope_time t es (some n)) e.prev_scope e' h.0,
        (λ empty. h.1 (omega arith)),
        add_scope_time-Linked t es (some n) h.2,
      )
]

add_eval_time-Linked : (t : Time) (es : List Entry) → Linked es → Linked (add_eval_time t es)
unfolding add_eval_time
add_eval_time-Linked t [] h = h
add_eval_time-Linked t (e ∷ es) h = h

stack-take_time :
    (clock : Time) (i : Info)
    → ((take_time clock i).stack ≡ i.stack)
      × ((take_time clock i).stack_size ≡ i.stack_size)
      × ((take_time clock i).scope_chain ≡ i.scope_chain)
unfolding take_time
stack-take_time clock i = elim (Bool-cases i.updated_times) [
  | inl h ↦ rw h (refl, refl, refl)
  | inr h ↦ rw h (refl, refl, refl)
]

pub length-update_times :
    (clock : Time) (i : Info) → length (update_times clock i).stack ≡ length i.stack
unfolding update_times
length-update_times clock i =
    let i' = take_time clock i in
    length-add_scope_time (interval i') (add_eval_time (interval i') i'.stack) i'.scope_chain
    ∙ length-add_eval_time (interval i') i'.stack
    ∙ ap length (stack-take_time clock i).0

pub update_times-IsSound : (clock : Time) (i : Info) → IsSound i → IsSound (update_times clock i)
unfolding update_times
update_times-IsSound clock i s =
    let i' = take_time clock i in
    let t = interval i' in
    let (stack, size, chain) = stack-take_time clock i in
    let same : length (update_times clock i).stack ≡ length i.stack = length-update_times clock i in
    record {
      size_is = size ∙ s.size_is ∙ sym same;
      linked =
          add_scope_time-Linked t (add_eval_time t i'.stack) i'.scope_chain
            (add_eval_time-Linked t i'.stack (subst Linked (sym stack) s.linked));
      chain_in =
          PointsIn-length i.stack (update_times clock i).stack i'.scope_chain same
            (subst (PointsIn i.stack) (sym chain) s.chain_in);
    }

length-stack_names : (es : List Entry) → length (stack_names es) ≡ length es
unfolding stack_names
length-stack_names [] = refl
length-stack_names (e ∷ es) = ap suc (length-stack_names es)

length-scope_names : (es : List Entry) (p : Option ℕ) → length (scope_names es p) ≤ length es
unfolding scope_names
length-scope_names es none = omega arith
length-scope_names [] (some h) = omega arith
length-scope_names (e ∷ es) (some h) = elim (Bool-cases (h == length es)) [
  | inl same ↦ rw same (omega (arith, length-scope_names es e.prev_scope))
  | inr other ↦ rw other (omega (arith, length-scope_names es (some h)))
]

-- On a sound state the names that RecordData puts in stackArgv, in both modes, are at most
-- stackSize, the size it is allocated with.
pub length-record_key :
    (i : Info) (e : Entry) (es : List Entry)
    → IsSound i
    → i.stack ≡ e ∷ es
    → length (record_key i.eval_mode e es) ≤ i.stack_size
unfolding record_key
length-record_key i e es s top =
    let size : i.stack_size ≡ suc (length es) = s.size_is ∙ ap length top in
    elim (Bool-cases i.eval_mode) [
      | inl h ↦ rw h (omega (arith, length-stack_names es))
      | inr h ↦ rw h (omega (arith, length-scope_names es e.prev_scope))
    ]
