-- ===== src/Filescan/Store.antt =====
-- The contexts behind their handles, and the invariant of the table and the heap.
pub mod Entries
pub mod Open
pub mod Change
pub mod Close
pub mod Matches
use tclx.Base.{
  ℕ, suc, ◌^◌, ◌≤◌, ◌<◌, ◌≡◌, ◌≢◌, Bool, true, false, Option, none, some, List, [], ◌∷◌, Text, ◌==◌,
  if◌then◌else◌,
}
use tclx.Handles.{
  Table, Xlated, entry_ptr, invalid_handle, not_open, null_silent, handle_xlate, handle_of,
}
use tclx.Handles.FreeList.{user_at}
use tclx.Handles.Valid.{IsValid}
use tclx.Handles.Alloc.{allocated_at}
use tclx.Filescan.{Context, World}
use tclx.Filescan.Contexts.{read_entry}

module _ {I : Type 0} where
  abbrev pub deref : Option ℕ → World I → Option Context
  deref none w = none
  deref (some a) w = w.heap a

  abbrev pub behind : Xlated → World I → Option Context
  behind (entry_ptr ptr) w = deref (read_entry w.table ptr) w
  behind invalid_handle w = none
  behind not_open w = none
  behind null_silent w = none

  -- The context that handle `j` stands for.
  unfoldable pub context_of : World I → ℕ → Option Context
  context_of w j = behind (handle_xlate w.table (handle_of w.table j)) w

  abbrev pub stored : World I → ℕ → Option ℕ
  stored w j = if allocated_at w.table j then user_at w.table.body j else none

  -- Each open handle has a context of its own.
  pub record IsStored (w : World I) (fs : List ℕ) : Type 0 where
    pub valid : IsValid w.table fs
    pub nonempty : 0 < w.table.table_size
    pub sized : 0 < w.table.entry_size
    pub live :
        (j a : ℕ)
        → stored w j ≡ some a
        → (a < w.next_address) × ((ctx : Context) × (w.heap a ≡ some ctx))
    pub distinct : (i j a : ℕ) → stored w i ≡ some a → stored w j ≡ some a → i ≡ j
