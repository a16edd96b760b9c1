-- ===== src/KeyedList/Commands.antt =====
-- generic/tclXkeylist.c: keylget, keylset, keyldel and keylkeys. A variable holds an object; the
-- parameter `shared` of keylset and keyldel says whether the object of the variable is shared,
-- `deep` the same of the children on the way. What an operation changed in place before an error
-- stays in a variable whose object is not shared.
pub mod Variable
use tclx.Base.{
  ℕ, ◌≡◌, refl, Bool, true, false, ◌&&◌, Option, none, some, List, [], ◌∷◌, Text, text_eq,
  text_eq_refl, if◌then◌else◌, length, ◌==◌, arith, ap, ◌∙◌, Option-cases, Bool-cases, inl, inr,
  map,
}
use tclx.Tcl.{HashApi, ListApi}
use tclx.Interp.{
  Interp, Reply, nothing, value, bool, elements, wrong_args, bad_key, key_not_found, Outcome, ok,
  error, Cmd, get_var, set_var, fail, return, ◌>>=◌, ◌>>◌,
}
use tclx.KeyedList.{
  Obj, plain, Status, ok, break, error, no_fuel, validate_key, keyed_list_get, keyed_list_set,
  keyed_list_delete, keyed_list_get_keys, new_keyed_list, duplicate,
}

module _ (H : HashApi) (L : ListApi) where
  abbrev pub Keyl : Type 0
  Keyl = Obj H.Table

  abbrev pub KeylCmd : Type 0
  KeylCmd = Cmd Keyl (Reply Keyl)

  -- ValidateKey, and what is done with a key that passes.
  unfoldable pub checked {ℓ} : {A : Type ℓ} → Status (Unit {0}) → Status A → Status A
  checked (ok u) operation = operation
  checked break operation = break
  checked (error what) operation = error what
  checked no_fuel operation = no_fuel

  -- The end of keylget, by the status. `no_fuel` is never reached.
  unfoldable pub got : Option Text → Status Keyl → KeylCmd
  unfolding set_var
  got none (ok v) = return (value v)
  got (some []) (ok v) = return (bool true)
  got (some (c ∷ name)) (ok v) = set_var (c ∷ name) v >> return (bool true)
  got none break = fail key_not_found
  got (some retvar) break = return (bool false)
  got retvar (error what) = fail bad_key
  got retvar no_fuel = fail bad_key

  unfoldable pub keylget_key : Text → Text → Option Text → KeylCmd
  unfolding get_var got checked
  keylget_key listvar key retvar = do
    obj ← get_var listvar
    got retvar (checked (validate_key key) (keyed_list_get H L obj key))

  unfoldable pub listed : Status (List Text) → KeylCmd
  listed (ok keys) = return (elements (map plain keys))
  listed break = fail key_not_found
  listed (error what) = fail bad_key
  listed no_fuel = fail bad_key

  abbrev pub valid_option : Option Text → Status (Unit {0})
  valid_option none = ok tt
  valid_option (some key) = validate_key key

  unfoldable pub keylkeys_key : Text → Option Text → KeylCmd
  unfolding get_var listed checked
  keylkeys_key listvar key = do
    obj ← get_var listvar
    listed (checked (valid_option key) (keyed_list_get_keys H L obj key))

  -- keylkeys listvar ?key?
  unfoldable pub keylkeys_cmd : List Text → KeylCmd
  unfolding keylkeys_key
  keylkeys_cmd (listvar ∷ []) = keylkeys_key listvar none
  keylkeys_cmd (listvar ∷ key ∷ []) = keylkeys_key listvar (some key)
  keylkeys_cmd _ = fail wrong_args

  -- keylget listvar ?key? ?retvar?
  unfoldable pub keylget_cmd : List Text → KeylCmd
  unfolding keylget_key keylkeys_cmd
  keylget_cmd (listvar ∷ []) = keylkeys_cmd (listvar ∷ [])
  keylget_cmd (listvar ∷ key ∷ []) = keylget_key listvar key none
  keylget_cmd (listvar ∷ key ∷ retvar ∷ []) = keylget_key listvar key (some retvar)
  keylget_cmd _ = fail wrong_args

  unfoldable pub set_next : Keyl → (Keyl → Keyl × Bool) → Status Keyl → Keyl × Bool
  set_next obj next (ok obj') = next obj'
  set_next obj next _ = (obj, false)

  -- The loop of keylset: the object that it leaves, and whether all pairs were set.
  unfoldable pub set_pairs : (ℕ → Bool) → List (Text × Keyl) → Keyl → Keyl × Bool
  unfolding set_next checked
  set_pairs deep [] obj = (obj, true)
  set_pairs deep ((key, v) ∷ pairs) obj =
      set_next obj (set_pairs deep pairs)
        (checked (validate_key key) (keyed_list_set H L deep obj key v))

  -- The object that keylset works on, and whether it is that of the variable.
  unfoldable pub set_target : Bool → Option Keyl → Keyl × Bool
  unfolding duplicate new_keyed_list
  set_target shared none = (new_keyed_list H L, false)
  set_target true (some obj) = (duplicate obj, false)
  set_target false (some obj) = (obj, true)

  -- An object of a variable that was changed in place.
  unfoldable pub leave : Bool → Text → Keyl → Interp Keyl → Interp Keyl
  leave false name obj s = s
  leave true name obj s = record s { vars = λ n. if text_eq name n then some obj else s.vars n }

  unfoldable pub set_finish : Bool → Text → Keyl × Bool → KeylCmd
  unfolding leave set_var
  set_finish in_place listvar (obj, false) s = error bad_key (leave in_place listvar obj s)
  set_finish in_place listvar (obj, true) s =
      (set_var listvar obj >> return nothing) (leave in_place listvar obj s)

  -- keylset listvar key value ?key value...?
  unfoldable pub keylset_cmd : Bool → (ℕ → Bool) → Text → List (Text × Keyl) → KeylCmd
  unfolding set_pairs set_target set_finish
  keylset_cmd shared deep listvar [] s = error wrong_args s
  keylset_cmd shared deep listvar (pair ∷ pairs) s =
      let (obj, in_place) = set_target shared (s.vars listvar) in
      set_finish in_place listvar (set_pairs deep (pair ∷ pairs) obj) s

  unfoldable pub del_next : Text → (Keyl → KeylCmd) → Status Keyl → KeylCmd
  unfolding leave
  del_next listvar next (ok obj) s = next obj (leave true listvar obj s)
  del_next listvar next break s = error key_not_found s
  del_next listvar next _ s = error bad_key s

  unfoldable pub del_keys : (ℕ → Bool) → Text → List Text → Keyl → KeylCmd
  unfolding del_next checked
  del_keys deep listvar [] obj = return nothing
  del_keys deep listvar (key ∷ keys) obj =
      del_next listvar (del_keys deep listvar keys)
        (checked (validate_key key) (keyed_list_delete H L deep obj key))

  unfoldable pub keyldel_from : Bool → (ℕ → Bool) → Text → List Text → Keyl → KeylCmd
  unfolding del_keys duplicate set_var
  keyldel_from true deep listvar keys obj =
      set_var listvar (duplicate obj) >> del_keys deep listvar keys (duplicate obj)
  keyldel_from false deep listvar keys obj = del_keys deep listvar keys obj

  -- keyldel listvar key ?key ...?
  unfoldable pub keyldel_cmd : Bool → (ℕ → Bool) → Text → List Text → KeylCmd
  unfolding keyldel_from get_var
  keyldel_cmd shared deep listvar [] = fail wrong_args
  keyldel_cmd shared deep listvar (key ∷ keys) =
      get_var listvar >>= keyldel_from shared deep listvar (key ∷ keys)
