-- ===== src/Profile/Times.antt =====
-- The total of the times on the stack and in the table, and what the operations add to it.
use tclx.Base.{
  ℕ, suc, ◌+◌, ◌<◌, ◌≡◌, refl, Bool, true, false, Option, none, some, List, [], ◌∷◌, Text, ◌==◌,
  length, arith, Bool-cases, inl, inr, ap,
}
use tclx.Profile.{
  Clock, Time, Entry, Data, Info, entry_time, add_data, names_eq, add_scope_time, add_eval_time,
}

unfoldable pub stack_sum : Bool → Clock → List Entry → ℕ
stack_sum mode c [] = 0
stack_sum mode c (e ∷ es) = entry_time mode e c + stack_sum mode c es

unfoldable pub table_sum : Clock → List (List Text × Data) → ℕ
table_sum c [] = 0
table_sum c ((k, d) ∷ table) = d.time c + table_sum c table

-- The time that is accounted for.
abbrev pub total : Clock → Info → ℕ
total c i = table_sum c i.table + stack_sum i.eval_mode c i.stack

pub table_sum-add_data :
    (c : Clock) (key : List Text) (t : Time) (table : List (List Text × Data))
    → table_sum c (add_data key t table) ≡ table_sum c table + t c
unfolding table_sum add_data
table_sum-add_data c key t [] = omega arith
table_sum-add_data c key t ((k, d) ∷ table) = elim (Bool-cases (names_eq key k)) [
  | inl h ↦ rw h (omega arith)
  | inr h ↦ rw h (omega (arith, table_sum-add_data c key t table))
]

pub length-add_scope_time :
    (t : Time) (es : List Entry) (p : Option ℕ) → length (add_scope_time t es p) ≡ length es
unfolding add_scope_time
length-add_scope_time t es none = refl
length-add_scope_time t [] (some h) = refl
length-add_scope_time t (e ∷ es) (some h) = elim (Bool-cases (h == length es)) [
  | inl same ↦ rw same refl
  | inr other ↦ rw other (ap suc (length-add_scope_time t es (some h)))
]

pub length-add_eval_time : (t : Time) (es : List Entry) → length (add_eval_time t es) ≡ length es
unfolding add_eval_time
length-add_eval_time t [] = refl
length-add_eval_time t (e ∷ es) = refl

pub stack_sum-add_scope_time :
    (c : Clock) (t : Time) (es : List Entry) (h : ℕ)
    → h < length es
    → (stack_sum false c (add_scope_time t es (some h)) ≡ stack_sum false c es + t c)
      × (stack_sum true c (add_scope_time t es (some h)) ≡ stack_sum true c es)
unfolding stack_sum add_scope_time
stack_sum-add_scope_time c t [] h lt = absurd (omega arith)
stack_sum-add_scope_time c t (e ∷ es) h lt = elim (Bool-cases (h == length es)) [
  | inl same ↦ rw same (omega arith, refl)
  | inr other ↦
      let (scope, eval) = stack_sum-add_scope_time c t es h (ground arith) in
      rw other (omega arith, omega arith)
]

pub stack_sum-add_eval_time :
    (c : Clock) (t : Time) (e : Entry) (es : List Entry)
    → (stack_sum true c (add_eval_time t (e ∷ es)) ≡ stack_sum true c (e ∷ es) + t c)
      × (stack_sum false c (add_eval_time t (e ∷ es)) ≡ stack_sum false c (e ∷ es))
unfolding stack_sum add_eval_time
stack_sum-add_eval_time c t e es = (omega arith, refl)
