-- ===== src/Filescan/Contexts.antt =====
-- generic/tclXfilescan.c: contexts in their table and heap, and the close handlers.
use tclx.Base.{
  ℕ, suc, ◌-◌, ◌/◌, ◌%◌, Bool, false, ◌&&◌, Option, none, some, List, [], ◌∷◌, Text, leb, ◌==◌,
  if◌then◌else◌, get_elem?, set, length,
}
use tclx.Handles.{
  Table, Xlated, entry_ptr, invalid_handle, not_open, null_silent, entry_header_size, handle_alloc,
  handle_xlate, handle_free,
}
use tclx.Filescan.{Context, Handler, copy_file_close, scan_file_close, World}

-- TCL_OK with a string result, TCL_ERROR, or a read of freed memory, through NULL or
-- outside a table, a write outside a buffer or an overflow of a table; or a scan out of fuel.
pub data Status : Type 0 where
  tcl_ok : Text → Status
  tcl_error crash out_of_fuel : Status

-- What TclX_HandleXlate gave, read as a `scanContext_t **`.
unfoldable pub entry_index : Table ℕ → ℕ → Option ℕ
entry_index t ptr =
    let off = ptr - entry_header_size in
    if leb entry_header_size ptr && off % t.entry_size == 0 then some (off / t.entry_size) else none

unfoldable pub read_entry : Table ℕ → ℕ → Option ℕ
unfolding entry_index
read_entry t ptr = elim (entry_index t ptr) [
  | none ↦ none
  | some i ↦ elim (get_elem? t.body i) [ none ↦ none | some e ↦ some e.user ]
]

unfoldable pub write_entry : Table ℕ → ℕ → ℕ → Option (Table ℕ)
unfolding entry_index
write_entry t ptr address = elim (entry_index t ptr) [
  | none ↦ none
  | some i ↦ elim (get_elem? t.body i) [
    | none ↦ none
    | some e ↦ some (record t { body = set t.body i (record e { user = address }) })
  ]
]

abbrev pub same_handler : Handler → Handler → Bool
same_handler (copy_file_close a) (copy_file_close b) = a == b
same_handler (copy_file_close a) (scan_file_close b) = false
same_handler (scan_file_close a) (copy_file_close b) = false
same_handler (scan_file_close a) (scan_file_close b) = a == b

-- Tcl_DeleteCloseHandler removes the first such handler.
unfoldable pub remove_handler : ℕ → Handler → List (ℕ × Handler) → List (ℕ × Handler)
remove_handler chan h [] = []
remove_handler chan h ((c, g) ∷ hs) =
    if c == chan && same_handler g h then hs else (c, g) ∷ remove_handler chan h hs

module _ {I : Type 0} where
  -- A write through a pointer to a context.
  abbrev pub change : ℕ → (Context → Context) → World I → World I
  change address f w = record w {
    heap = λ a.
        if a == address
        then elim (w.heap a) [ none ↦ none | some ctx ↦ some (f ctx) ]
        else w.heap a;
  }

  abbrev pub create_handler : ℕ → Handler → World I → World I
  create_handler chan h w = record w { handlers = (chan, h) ∷ w.handlers }

  abbrev pub delete_handler : ℕ → Handler → World I → World I
  delete_handler chan h w = record w { handlers = remove_handler chan h w.handlers }

  unfoldable pub run_handler : Handler → World I → World I
  run_handler (copy_file_close a) w = change a (λ ctx. record ctx { copy_file = none }) w
  run_handler (scan_file_close a) w = change a (λ ctx. record ctx { file_open = false }) w

  -- The closing of a channel calls its close handlers.
  unfoldable pub close_handlers : ℕ → List (ℕ × Handler) → World I → World I
  unfolding run_handler
  close_handlers chan [] w = record w { handlers = [] }
  close_handlers chan ((c, h) ∷ hs) w =
      let w' = close_handlers chan hs w in
      if c == chan then run_handler h w' else record w' { handlers = (c, h) ∷ w'.handlers }

  unfoldable pub close_channel : ℕ → World I → World I
  unfolding close_handlers
  close_channel chan w = close_handlers chan w.handlers w

  abbrev pub drop_copy : ℕ → Option ℕ → World I → World I
  drop_copy address none w = w
  drop_copy address (some c) w = delete_handler c (copy_file_close address) w

  -- `none` is a read of a freed context.
  unfoldable pub clear_copy_file : ℕ → World I → Option (World I)
  clear_copy_file address w = elim (w.heap address) [
    | none ↦ none
    | some ctx ↦ elim ctx.copy_file [
      | none ↦ some w
      | some c ↦ some (
          change address (λ ctx. record ctx { copy_file = none })
            (delete_handler c (copy_file_close address) w))
    ]
  ]

  unfoldable pub clean_up_context : ℕ → World I → Option (World I)
  unfolding clear_copy_file
  clean_up_context address w = elim (clear_copy_file address w) [
    | none ↦ none
    | some w' ↦ some (record w' { heap = λ a. if a == address then none else w'.heap a })
  ]

  -- The new context at the next address, and its handle in the entry that the table hands out. The
  -- handle is written with its NUL into a buffer of 16 bytes.
  unfoldable pub context_create : ℕ → World I → Status × World I
  unfolding write_entry
  context_create junk w = elim (handle_alloc junk w.table) [
    | none ↦ (crash, w)
    | some (t, handle, ptr) ↦
        if leb 16 (length handle) then (crash, w) else elim (write_entry t ptr w.next_address) [
          | none ↦ (crash, w)
          | some t' ↦
              let ctx : Context = record {
                matches = [];
                default_action = none;
                handle = handle;
                copy_file = none;
                file_open = false;
              } in
              (
                tcl_ok handle,
                record w {
                  table = t';
                  heap = λ a. if a == w.next_address then some ctx else w.heap a;
                  next_address = suc w.next_address;
                },
              )
        ]
  ]

  unfoldable pub delete_context : ℕ → ℕ → World I → Status × World I
  unfolding clean_up_context
  delete_context ptr address w = elim (clean_up_context address w) [
    | none ↦ (crash, w)
    | some w' ↦ elim (handle_free w'.table ptr) [
      | none ↦ (crash, w')
      | some t ↦ (tcl_ok [], record w' { table = t })
    ]
  ]

  -- The address behind what TclX_HandleXlate gave, for the rest of a command.
  unfoldable pub with_context :
      Xlated → World I → (ℕ → ℕ → World I → Status × World I) → Status × World I
  unfolding read_entry
  with_context (entry_ptr ptr) w next = elim (read_entry w.table ptr) [
    | none ↦ (crash, w)
    | some address ↦ next ptr address w
  ]
  with_context invalid_handle w next = (tcl_error, w)
  with_context not_open w next = (tcl_error, w)
  with_context null_silent w next = (tcl_error, w)

  unfoldable pub context_delete : Text → World I → Status × World I
  unfolding with_context delete_context
  context_delete handle w = with_context (handle_xlate w.table handle) w delete_context
