-- ===== src/Tcl.antt =====
-- The parts of the Tcl library that the commands call, as parameters with the documented
-- behaviour that the commands rely on: hash tables with string keys, and lists as strings.
use tclx.Base.{ℕ, ◌≡◌, Option, none, some, List, Text, text_eq, if◌then◌else◌}

abbrev pub map_value : (ℕ → ℕ) → Option ℕ → Option ℕ
map_value f none = none
map_value f (some i) = some (f i)

-- Tcl_InitHashTable, Tcl_FindHashEntry with Tcl_GetHashValue, Tcl_CreateHashEntry with
-- Tcl_SetHashValue, Tcl_DeleteHashEntry, and a Tcl_FirstHashEntry loop that sets every value.
pub record HashApi : Type 1 where
  pub Table : Type 0
  pub empty : Table
  pub find : Text → Table → Option ℕ
  pub set : Text → ℕ → Table → Table
  pub delete : Text → Table → Table
  pub update_all : (ℕ → ℕ) → Table → Table
  pub find-empty : (k : Text) → find k empty ≡ none
  pub find-set :
      (k j : Text) (v : ℕ) (t : Table)
      → find j (set k v t) ≡ (if text_eq k j then some v else find j t)
  pub find-delete :
      (k j : Text) (t : Table) → find j (delete k t) ≡ (if text_eq k j then none else find j t)
  pub find-update_all :
      (f : ℕ → ℕ) (j : Text) (t : Table) → find j (update_all f t) ≡ map_value f (find j t)

-- Tcl_ListObjGetElements on a string, and the string of Tcl_NewListObj.
pub record ListApi : Type 0 where
  pub elements : Text → Option (List Text)
  pub format : List Text → Text
  pub elements-format : (xs : List Text) → elements (format xs) ≡ some xs
