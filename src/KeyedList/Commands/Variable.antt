-- ===== src/KeyedList/Commands/Variable.antt =====
-- keylset, keylget and keyldel on one variable.
use tclx.Base.{
  ℕ, ◌≡◌, refl, subst, Bool, true, false, Option, none, some, List, [], ◌∷◌, Text, text_eq,
  text_eq_refl, if◌then◌else◌, ◌⊎◌, Option-cases, Bool-cases, inl, inr,
}
use tclx.Tcl.{HashApi, ListApi}
use tclx.Interp.{
  Interp, Reply, return, ◌>>◌, cannot_set, nothing, value, CmdError, Outcome, ok, error, get_var,
  set_var,
}
use tclx.KeyedList.{
  Obj, Status, validate_key, keyed_list_get, keyed_list_set, new_keyed_list, duplicate,
  dup_shared_child,
}
use tclx.KeyedList.Sound.{IsSound, dup_shared_child-IsSound, new_keyed_list-IsSound}
use tclx.KeyedList.Paths.{keyed_list_get-set}
use tclx.KeyedList.Commands.{
  Keyl, keylset_cmd, keylget_cmd, keylget_key, got, checked, set_pairs, set_next, set_target,
  set_finish, leave,
}

module _ (H : HashApi) (L : ListApi) where
  -- The object of a variable that is set is sound.
  abbrev pub SoundVar : Interp (Obj H.Table) → Text → Type 0
  SoundVar s name = (obj : Obj H.Table) → s.vars name ≡ some obj → IsSound H L obj

  set_target-IsSound :
      (shared : Bool) (o : Option (Obj H.Table))
      → ((obj : Obj H.Table) → o ≡ some obj → IsSound H L obj)
      → IsSound H L (set_target H L shared o).0
  unfolding set_target dup_shared_child
  set_target-IsSound shared none sound = new_keyed_list-IsSound H L
  set_target-IsSound true (some obj) sound = dup_shared_child-IsSound H L true obj (sound obj refl)
  set_target-IsSound false (some obj) sound = sound obj refl

  -- The interpreter after a variable was set.
  abbrev with_var : Text → Keyl H L → Interp (Keyl H L) → Interp (Keyl H L)
  with_var name obj s = record s { vars = λ n. if text_eq name n then some obj else s.vars n }

  set_last : Text → Keyl H L → Interp (Keyl H L) → Outcome (Keyl H L) (Reply (Keyl H L))
  unfolding set_var
  set_last name obj s = (set_var name obj >> return nothing) s

  set_last-cases :
      (name : Text) (obj : Keyl H L) (s : Interp (Keyl H L))
      → (set_last name obj s ≡ ok nothing (with_var name obj s))
        ⊎ (set_last name obj s ≡ error cannot_set s)
  unfolding set_last set_var
  set_last-cases name obj s = elim (Bool-cases (s.settable name)) [
    | inl can ↦ inl (rw can)
    | inr cannot ↦ inr (rw cannot)
  ]

  set_finish-last :
      (in_place : Bool) (listvar : Text) (obj : Keyl H L) (s : Interp (Keyl H L))
      → set_finish H L in_place listvar (obj, true) s
        ≡ set_last listvar obj (leave H L in_place listvar obj s)
  unfolding set_finish set_last set_var
  set_finish-last in_place listvar obj s = refl

  set_finish-kept :
      (listvar : Text) (obj : Keyl H L) (all : Bool) (s : Interp (Keyl H L)) {e : CmdError}
      {s' : Interp (Keyl H L)}
      → set_finish H L false listvar (obj, all) s ≡ error e s'
      → s' ≡ s
  unfolding set_finish leave
  set_finish-kept listvar obj false s h = cc
  set_finish-kept listvar obj true s h = elim (set_last-cases listvar obj s) [
    | inl is_set ↦ let e = set_finish-last false listvar obj s in cc
    | inr refused ↦ let e = set_finish-last false listvar obj s in cc
  ]

  set_next-checked :
      (obj : Keyl H L) (valid : Status (Unit {0})) (operation : Status (Keyl H L))
      → (set_next H L obj (λ o. (o, true)) (checked H L valid operation)).1 ≡ true
      → (valid ≡ Status.ok tt)
        × (operation
            ≡ Status.ok (set_next H L obj (λ o. (o, true)) (checked H L valid operation)).0)
  unfolding set_next checked
  set_next-checked obj (Status.ok u) (Status.ok o) h = (refl, refl)
  set_next-checked obj (Status.ok u) Status.break h = cc
  set_next-checked obj (Status.ok u) (Status.error what) h = cc
  set_next-checked obj (Status.ok u) Status.no_fuel h = cc
  set_next-checked obj Status.break operation h = cc
  set_next-checked obj (Status.error what) operation h = cc
  set_next-checked obj Status.no_fuel operation h = cc

  set_finish-ok :
      (in_place : Bool) (listvar : Text) (obj : Keyl H L) (all : Bool) (s s' : Interp (Keyl H L))
      → set_finish H L in_place listvar (obj, all) s ≡ ok nothing s'
      → (all ≡ true) × (s'.vars listvar ≡ some obj)
  unfolding set_finish leave
  set_finish-ok in_place listvar obj false s s' h = cc
  set_finish-ok in_place listvar obj true s s' h =
      let before = leave H L in_place listvar obj s in
      let e = set_finish-last in_place listvar obj s in
      elim (set_last-cases listvar obj before) [
        | inl is_set ↦
            let same : with_var listvar obj before ≡ s' = cc in
            (refl, subst (λ x. x.vars listvar ≡ some obj) same (rw text_eq_refl))
        | inr refused ↦ cc
      ]

  -- A keylset that fails, when the variable is not set or its object is shared, leaves the
  -- interpreter as it was.
  pub keylset_cmd-kept :
      (deep : ℕ → Bool) (listvar key : Text) (v : Keyl H L) (pairs : List (Text × Keyl H L))
      (s s' : Interp (Keyl H L)) {e : CmdError}
      → keylset_cmd H L true deep listvar ((key, v) ∷ pairs) s ≡ error e s'
      → s' ≡ s
  unfolding keylset_cmd set_target
  keylset_cmd-kept deep listvar key v pairs s s' h = elim (Option-cases (s.vars listvar)) [
    | inl missing ↦
        let p = set_pairs H L deep ((key, v) ∷ pairs) (new_keyed_list H L) in
        set_finish-kept listvar p.0 p.1 s (rw missing at h)
    | inr (obj, found) ↦
        let p = set_pairs H L deep ((key, v) ∷ pairs) (duplicate obj) in
        set_finish-kept listvar p.0 p.1 s (rw found at h)
  ]

  set_pairs-one :
      (deep : ℕ → Bool) (key : Text) (v obj : Keyl H L)
      → (set_pairs H L deep ((key, v) ∷ []) obj).1 ≡ true
      → (validate_key key ≡ Status.ok tt)
        × (keyed_list_set H L deep obj key v ≡ Status.ok (set_pairs H L deep ((key, v) ∷ []) obj).0)
  unfolding set_pairs
  set_pairs-one deep key v obj h =
      set_next-checked obj (validate_key key) (keyed_list_set H L deep obj key v) h

  keylget_cmd-value :
      (listvar key : Text) (obj v : Keyl H L) (s : Interp (Keyl H L))
      → s.vars listvar ≡ some obj
      → validate_key key ≡ Status.ok tt
      → keyed_list_get H L obj key ≡ Status.ok v
      → keylget_cmd H L (listvar ∷ key ∷ []) s ≡ ok (value v) s
  unfolding keylget_cmd keylget_key got get_var checked
  keylget_cmd-value listvar key obj v s stored valid gets = rw (stored, valid, gets)

  -- When keylset of one key and value succeeds on a variable that is not set or whose object is
  -- sound, shared or not, keylget of the key on that variable returns the value.
  pub keylget_cmd-keylset_cmd :
      (shared : Bool) (deep : ℕ → Bool) (listvar key : Text) (v : Keyl H L)
      (s s' : Interp (Keyl H L))
      → SoundVar s listvar
      → keylset_cmd H L shared deep listvar ((key, v) ∷ []) s ≡ ok nothing s'
      → keylget_cmd H L (listvar ∷ key ∷ []) s' ≡ ok (value v) s'
  unfolding keylset_cmd
  keylget_cmd-keylset_cmd shared deep listvar key v s s' sound h =
      let target = set_target H L shared (s.vars listvar) in
      let p = set_pairs H L deep ((key, v) ∷ []) target.0 in
      let (all, stored) = set_finish-ok target.1 listvar p.0 p.1 s s' h in
      let (valid, sets) = set_pairs-one deep key v target.0 all in
      let gets =
        keyed_list_get-set H L deep target.0 v key
          (set_target-IsSound shared (s.vars listvar) sound) sets in
      keylget_cmd-value listvar key p.0 v s' stored valid gets
