-- ===== src/Filescan/Commands.antt =====
-- generic/tclXfilescan.c: the commands scancontext, scanmatch and scanfile, and FileScanCleanUp.
use tclx.Base.{
  ℕ, zero, suc, Bool, true, false, Option, none, some, List, [], ◌∷◌, ◌++◌, Text, text, text_eq,
  if◌then◌else◌,
}
use tclx.Base.Int.{ℤ, pos}
use tclx.Util.{get_open_channel}
use tclx.Handles.{handle_xlate, handle_xlate_obj, handle_walk}
use tclx.Filescan.{
  Match, copy_file_close, scan_file_close, World, ScanApi, LineEnd, line_done, scan_ok, scan_error,
  fault, no_fuel,
}
use tclx.Filescan.Scan.{scan_file}
use tclx.Filescan.Contexts.{
  Status, tcl_ok, tcl_error, crash, out_of_fuel, change, create_handler, delete_handler, drop_copy,
  clear_copy_file, clean_up_context, context_create, context_delete, with_context, read_entry,
}

module _ {I : Type 0} (api : ScanApi I) where
  -- SetCopyFileObj once the channel is known: the old handler goes, the new one comes.
  unfoldable pub set_copy_channel : ℕ → ℕ → World I → Option (World I)
  set_copy_channel address chan w = elim (w.heap address) [
    | none ↦ none
    | some ctx ↦ some (
        change address (λ c. record c { copy_file = some chan })
          (create_handler chan (copy_file_close address) (drop_copy address ctx.copy_file w)))
  ]

  unfoldable pub set_copy_file : Text → ℕ → ℕ → World I → Status × World I
  unfolding set_copy_channel
  set_copy_file file ptr address w = elim (get_open_channel api.get_channel file false true) [
    | none ↦ (tcl_error, w)
    | some chan ↦ elim (set_copy_channel address chan w) [
      | none ↦ (crash, w)
      | some w' ↦ (tcl_ok [], w')
    ]
  ]

  -- The name of a NULL channel is a read through NULL.
  unfoldable pub get_copy_file : ℕ → ℕ → World I → Status × World I
  get_copy_file ptr address w = elim (w.heap address) [
    | none ↦ (crash, w)
    | some ctx ↦ elim ctx.copy_file [
      | none ↦ (crash, w)
      | some c ↦ (tcl_ok (api.channel_name c), w)
    ]
  ]

  unfoldable pub context_copy_file : Text → Option Text → World I → Status × World I
  unfolding get_copy_file set_copy_file
  context_copy_file handle none w = with_context (handle_xlate w.table handle) w get_copy_file
  context_copy_file handle (some file) w =
      with_context (handle_xlate w.table handle) w (set_copy_file file)

  -- The forms of scancontext by their number of arguments; `junk` is for the table.
  unfoldable pub scancontext_args : ℕ → Text → List Text → World I → Status × World I
  unfolding context_copy_file
  scancontext_args junk sub [] w =
      if text_eq sub (text "create") then context_create junk w else (tcl_error, w)
  scancontext_args junk sub (handle ∷ []) w =
      if text_eq sub (text "create")
      then (tcl_error, w)
      else if text_eq sub (text "delete")
      then context_delete handle w
      else if text_eq sub (text "copyfile")
      then context_copy_file handle none w
      else (tcl_error, w)
  scancontext_args junk sub (handle ∷ file ∷ []) w =
      if text_eq sub (text "copyfile")
      then context_copy_file handle (some file) w
      else (tcl_error, w)
  scancontext_args junk sub (handle ∷ file ∷ more ∷ args) w = (tcl_error, w)

  unfoldable pub scancontext_cmd : ℕ → List Text → World I → Status × World I
  unfolding scancontext_args
  scancontext_cmd junk [] w = (tcl_error, w)
  scancontext_cmd junk (sub ∷ args) w = scancontext_args junk sub args w

  unfoldable pub set_default : Text → ℕ → ℕ → World I → Status × World I
  set_default action ptr address w = elim (w.heap address) [
    | none ↦ (crash, w)
    | some ctx ↦ elim ctx.default_action [
      | none ↦ (tcl_ok [], change address (λ c. record c { default_action = some action }) w)
      | some old ↦ (tcl_error, w)
    ]
  ]

  -- The new match is linked in behind the last.
  unfoldable pub add_match : Match → ℕ → ℕ → World I → Status × World I
  add_match m ptr address w =
      if api.compiles m.regexp
      then elim (w.heap address) [
        | none ↦ (crash, w)
        | some ctx ↦ (tcl_ok [], change address (λ c. record c { matches = c.matches ++ m ∷ [] }) w)
      ]
      else (tcl_error, w)

  abbrev scanmatch_in : Text → (ℕ → ℕ → World I → Status × World I) → World I → Status × World I
  scanmatch_in handle next w = with_context (handle_xlate_obj w.table handle) w next

  -- By the number of arguments, with -nocase or without.
  unfoldable pub scanmatch_cmd : List Text → World I → Status × World I
  unfolding set_default add_match
  scanmatch_cmd [] w = (tcl_error, w)
  scanmatch_cmd (a ∷ []) w = (tcl_error, w)
  scanmatch_cmd (a ∷ b ∷ []) w =
      if text_eq a (text "-nocase") then (tcl_error, w) else scanmatch_in a (set_default b) w
  scanmatch_cmd (a ∷ b ∷ c ∷ []) w =
      if text_eq a (text "-nocase")
      then (tcl_error, w)
      else scanmatch_in a
          (add_match (record { regexp = record { pattern = b; nocase = false }; command = c })) w
  scanmatch_cmd (a ∷ b ∷ c ∷ d ∷ []) w =
      if text_eq a (text "-nocase")
      then scanmatch_in b
          (add_match (record { regexp = record { pattern = c; nocase = true }; command = d })) w
      else (tcl_error, w)
  scanmatch_cmd (a ∷ b ∷ c ∷ d ∷ e ∷ args) w = (tcl_error, w)

  -- The status of a scan, and what follows it: the handler of the scanned file goes if the file
  -- is still open, and a copy file that the command set goes with it.
  unfoldable pub scan_status : LineEnd → Status
  scan_status (line_done matched) = tcl_ok []
  scan_status scan_ok = tcl_ok []
  scan_status scan_error = tcl_error
  scan_status fault = crash
  scan_status no_fuel = out_of_fuel

  unfoldable pub end_copy : Bool → ℕ → Status → World I → Status × World I
  end_copy false address s w = (s, w)
  end_copy true address s w = elim (clear_copy_file address w) [
    | none ↦ (crash, w)
    | some w' ↦ (s, w')
  ]

  unfoldable pub end_scan : Bool → ℕ → ℕ → Status × World I → Status × World I
  unfolding end_copy
  end_scan copies address chan (s, w) = elim (w.heap address) [
    | none ↦ (crash, w)
    | some ctx ↦
        end_copy copies address s
          (if ctx.file_open then delete_handler chan (scan_file_close address) w else w)
  ]

  abbrev scan_from : ℕ → ℕ → ℕ → ℕ → World I → Status × World I
  scan_from fuel match_fuel address chan w =
      let r = scan_file api fuel match_fuel address chan w in (scan_status r.0, r.1)

  unfoldable pub scan_open : ℕ → ℕ → Bool → ℕ → ℕ → World I → Status × World I
  unfolding scan_status end_scan
  scan_open fuel match_fuel copies address chan w =
      let opened = change address (λ c. record c { file_open = true }) w in
      end_scan copies address chan (
        scan_from fuel match_fuel address chan
          (create_handler chan (scan_file_close address) opened))

  -- Behind SetCopyFileObj.
  unfoldable pub scan_copying : ℕ → ℕ → ℕ → ℕ → Status × World I → Status × World I
  unfolding scan_open
  scan_copying fuel match_fuel address chan (tcl_ok r, w) =
      scan_open fuel match_fuel true address chan w
  scan_copying fuel match_fuel address chan (tcl_error, w) = (tcl_error, w)
  scan_copying fuel match_fuel address chan (crash, w) = (crash, w)
  scan_copying fuel match_fuel address chan (out_of_fuel, w) = (out_of_fuel, w)

  -- `copy` is the argument of -copyfile.
  unfoldable pub scan_channel : ℕ → ℕ → Option Text → Text → ℕ → ℕ → World I → Status × World I
  unfolding scan_copying set_copy_file
  scan_channel fuel match_fuel copy file ptr address w =
      elim (get_open_channel api.get_channel file true false) [
        | none ↦ (tcl_error, w)
        | some chan ↦ elim copy [
          | none ↦ scan_open fuel match_fuel false address chan w
          | some f ↦ scan_copying fuel match_fuel address chan (set_copy_file f ptr address w)
        ]
      ]

  unfoldable pub scanfile_cmd : ℕ → ℕ → List Text → World I → Status × World I
  unfolding scan_channel
  scanfile_cmd fuel match_fuel (handle ∷ file ∷ []) w =
      with_context (handle_xlate_obj w.table handle) w (scan_channel fuel match_fuel none file)
  scanfile_cmd fuel match_fuel (option ∷ copy ∷ handle ∷ file ∷ []) w =
      if text_eq option (text "-copyfile")
      then with_context (handle_xlate_obj w.table handle) w
          (scan_channel fuel match_fuel (some copy) file)
      else (tcl_error, w)
  scanfile_cmd fuel match_fuel args w = (tcl_error, w)

  -- FileScanCleanUp up to the release of the table, on fuel for the walk.
  unfoldable pub clean_up_from : ℕ → ℤ → World I → Option (World I)
  clean_up_from zero key w = none
  clean_up_from (suc fuel) key w = elim (handle_walk w.table key) [
    | none ↦ some w
    | some (i, ptr) ↦ elim (read_entry w.table ptr) [
      | none ↦ none
      | some address ↦ elim (clean_up_context address w) [
        | none ↦ none
        | some w' ↦ clean_up_from fuel (pos i) w'
      ]
    ]
  ]
