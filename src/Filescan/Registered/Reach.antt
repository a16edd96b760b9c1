-- ===== src/Filescan/Registered/Reach.antt =====
-- Any sequence of scancontext and scanmatch commands and of closings of channels.
use tclx.Base.{
  ℕ, ◌≡◌, sym, subst, true, false, Option, none, some, List, [], ◌∷◌, Text, text, text_eq,
  if◌then◌else◌, arith,
}
use tclx.Handles.{handle_xlate, handle_xlate_obj}
use tclx.Filescan.{Match, World, ScanApi}
use tclx.Filescan.Contexts.{
  Status, tcl_error, close_channel, context_create, context_delete, delete_context, with_context,
}
use tclx.Filescan.Commands.{
  set_copy_file, get_copy_file, context_copy_file, scancontext_args, scancontext_cmd, set_default,
  add_match, scanmatch_cmd,
}
use tclx.Filescan.Registered.{copies, IsRegistered, close_handlers-copies}
use tclx.Filescan.Registered.Keep.{
  context_create-IsRegistered, close_channel-IsRegistered, with_context-keeps, if-keeps,
  delete_context-IsRegistered, set_copy_file-IsRegistered, get_copy_file_same,
  set_default-IsRegistered, add_match-IsRegistered,
}

module _ {I : Type 0} (api : ScanApi I) where
  pub data Step : World I → World I → Type 0 where
    scancontext :
        (w : World I) (junk : ℕ) (args : List Text) → Step w (scancontext_cmd api junk args w).1
    scanmatch : (w : World I) (args : List Text) → Step w (scanmatch_cmd api args w).1
    close : (w : World I) (chan : ℕ) → Step w (close_channel chan w)

  pub data Reach (s : World I) : World I → Type 0 where
    here : Reach s s
    next : {t u : World I} → Reach s t → Step t u → Reach s u

  context_delete-IsRegistered :
      (handle : Text) (w : World I) → IsRegistered w → IsRegistered (context_delete handle w).1
  unfolding context_delete
  context_delete-IsRegistered handle w v =
      with_context-keeps IsRegistered (handle_xlate w.table handle) w delete_context v
        (delete_context-IsRegistered w v)

  context_copy_file-IsRegistered :
      (handle : Text) (file : Option Text) (w : World I)
      → IsRegistered w
      → IsRegistered (context_copy_file api handle file w).1
  unfolding context_copy_file
  context_copy_file-IsRegistered handle none w v =
      with_context-keeps IsRegistered (handle_xlate w.table handle) w (get_copy_file api) v
        (λ ptr address. subst IsRegistered (sym (get_copy_file_same api ptr address w)) v)
  context_copy_file-IsRegistered handle (some file) w v =
      with_context-keeps IsRegistered (handle_xlate w.table handle) w (set_copy_file api file) v
        (set_copy_file-IsRegistered api file w v)

  scancontext_args-IsRegistered :
      (junk : ℕ) (sub : Text) (args : List Text) (w : World I)
      → IsRegistered w
      → IsRegistered (scancontext_args api junk sub args w).1
  unfolding scancontext_args
  scancontext_args-IsRegistered junk sub [] w v =
      if-keeps IsRegistered (text_eq sub (text "create")) (context_create junk w) (tcl_error, w)
        (context_create-IsRegistered junk w v) v
  scancontext_args-IsRegistered junk sub (handle ∷ []) w v =
      let copy = context_copy_file api handle none w in
      let rest = if text_eq sub (text "copyfile") then copy else (tcl_error, w) in
      let rest' = if text_eq sub (text "delete") then context_delete handle w else rest in
      if-keeps IsRegistered (text_eq sub (text "create")) (tcl_error, w) rest' v
        (if-keeps IsRegistered (text_eq sub (text "delete")) (context_delete handle w) rest
          (context_delete-IsRegistered handle w v)
          (if-keeps IsRegistered (text_eq sub (text "copyfile")) copy (tcl_error, w)
            (context_copy_file-IsRegistered handle none w v) v))
  scancontext_args-IsRegistered junk sub (handle ∷ file ∷ []) w v =
      if-keeps IsRegistered (text_eq sub (text "copyfile"))
        (context_copy_file api handle (some file) w) (tcl_error, w)
        (context_copy_file-IsRegistered handle (some file) w v) v
  scancontext_args-IsRegistered junk sub (handle ∷ file ∷ more ∷ args) w v = v

  scancontext_cmd-IsRegistered :
      (junk : ℕ) (args : List Text) (w : World I)
      → IsRegistered w
      → IsRegistered (scancontext_cmd api junk args w).1
  unfolding scancontext_cmd
  scancontext_cmd-IsRegistered junk [] w v = v
  scancontext_cmd-IsRegistered junk (sub ∷ args) w v =
      scancontext_args-IsRegistered junk sub args w v

  in_context-IsRegistered :
      (handle : Text) (w : World I) (op : ℕ → ℕ → World I → Status × World I)
      → IsRegistered w
      → ((ptr address : ℕ) → IsRegistered (op ptr address w).1)
      → IsRegistered (with_context (handle_xlate_obj w.table handle) w op).1
  in_context-IsRegistered handle w op v all =
      with_context-keeps IsRegistered (handle_xlate_obj w.table handle) w op v all

  with_nocase :
      (a : Text) (x : Status × World I) {w : World I}
      → IsRegistered w
      → IsRegistered x.1
      → IsRegistered (if text_eq a (text "-nocase") then (tcl_error, w) else x).1
  with_nocase a x {w} v v' =
      if-keeps IsRegistered (text_eq a (text "-nocase")) (tcl_error, w) x v v'

  scanmatch_cmd-IsRegistered :
      (args : List Text) (w : World I) → IsRegistered w → IsRegistered (scanmatch_cmd api args w).1
  unfolding scanmatch_cmd
  scanmatch_cmd-IsRegistered [] w v = v
  scanmatch_cmd-IsRegistered (a ∷ []) w v = v
  scanmatch_cmd-IsRegistered (a ∷ b ∷ []) w v =
      with_nocase a (with_context (handle_xlate_obj w.table a) w (set_default api b)) v
        (in_context-IsRegistered a w (set_default api b) v (set_default-IsRegistered api b w v))
  scanmatch_cmd-IsRegistered (a ∷ b ∷ c ∷ []) w v =
      let m : Match = record { regexp = record { pattern = b; nocase = false }; command = c } in
      with_nocase a (with_context (handle_xlate_obj w.table a) w (add_match api m)) v
        (in_context-IsRegistered a w (add_match api m) v (add_match-IsRegistered api m w v))
  scanmatch_cmd-IsRegistered (a ∷ b ∷ c ∷ d ∷ []) w v =
      let m : Match = record { regexp = record { pattern = c; nocase = true }; command = d } in
      if-keeps IsRegistered (text_eq a (text "-nocase"))
        (with_context (handle_xlate_obj w.table b) w (add_match api m)) (tcl_error, w)
        (in_context-IsRegistered b w (add_match api m) v (add_match-IsRegistered api m w v)) v
  scanmatch_cmd-IsRegistered (a ∷ b ∷ c ∷ d ∷ e ∷ args) w v = v

  Step-IsRegistered : {t u : World I} → Step t u → IsRegistered t → IsRegistered u
  Step-IsRegistered (scancontext w junk args) v = scancontext_cmd-IsRegistered junk args w v
  Step-IsRegistered (scanmatch w args) v = scanmatch_cmd-IsRegistered args w v
  Step-IsRegistered (close w chan) v = close_channel-IsRegistered chan w v

  closed_copies :
      (chan a : ℕ) {w : World I}
      → IsRegistered w
      → copies chan ((close_channel chan w).heap a) ≡ false
  unfolding close_channel
  closed_copies chan a {w} v =
      ground (arith, v.registered chan a, close_handlers-copies chan w.handlers w chan a)

  Reach-kept : {s t : World I} → Reach s t → IsRegistered s → IsRegistered t
  Reach-kept here v = v
  Reach-kept (next r step) v = Step-IsRegistered step (Reach-kept r v)

  -- After any sequence of scancontext and scanmatch commands and of closings of channels, from a
  -- state in which it is so, each context that copies to a channel has exactly one close handler
  -- there and no other context has one, and no context copies to a channel that is then closed.
  pub Reach-IsRegistered :
      {s t : World I}
      → IsRegistered s
      → Reach s t
      → IsRegistered t × ((chan a : ℕ) → copies chan ((close_channel chan t).heap a) ≡ false)
  Reach-IsRegistered v r = let v' = Reach-kept r v in (v', λ chan a. closed_copies chan a v')
