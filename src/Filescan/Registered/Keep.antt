-- ===== src/Filescan/Registered/Keep.antt =====
-- The commands on contexts and the closing of channels keep the handlers registered.
use tclx.Base.{
  ℕ, ◌≡◌, refl, ap, Bool, true, false, Option, none, some, List, [], ◌∷◌, ◌++◌, Text, ==_refl,
  if◌then◌else◌, arith, Option-cases, Bool-cases, length, leb, inl, inr,
}
use tclx.Util.{get_open_channel}
use tclx.Handles.{
  Xlated, entry_ptr, invalid_handle, not_open, null_silent, handle_alloc, handle_free,
}
use tclx.Filescan.{Context, Match, Handler, copy_file_close, scan_file_close, World, ScanApi}
use tclx.Filescan.Contexts.{
  Status, tcl_ok, tcl_error, crash, change, drop_copy, close_handlers, close_channel,
  clear_copy_file, clean_up_context, context_create, delete_context, with_context, read_entry,
  write_entry,
}
use tclx.Filescan.Commands.{set_copy_channel, set_copy_file, get_copy_file, set_default, add_match}
use tclx.Filescan.Registered.{
  copies, IsRegistered, without_copy, with_copy-registered, without_copy-registered,
  close_handlers-count, close_handlers-copies,
}

module _ {I : Type 0} where
  -- A change that spares the copy file.
  change-IsRegistered :
      (address : ℕ) (f : Context → Context) {w : World I}
      → ((ctx : Context) → (f ctx).copy_file ≡ ctx.copy_file)
      → IsRegistered w
      → IsRegistered (change address f w)
  change-IsRegistered address f {w} same v = record {
    registered = λ c a. elim (Option-cases (w.heap a)) [
      | inl e ↦ ground (arith, v.registered c a)
      | inr (ctx, e) ↦ ground (arith, v.registered c a, same ctx)
    ];
    unused = λ a h. ground (arith, v.unused a);
  }

  abbrev Kept : Option (World I) → Type 0
  Kept none = Unit {0}
  Kept (some w) = IsRegistered w

  drop_copy_same :
      (address : ℕ) (old : Option ℕ) (w : World I)
      → ((drop_copy address old w).next_address ≡ w.next_address)
        × ((drop_copy address old w).heap ≡ w.heap)
  drop_copy_same address none w = (refl, refl)
  drop_copy_same address (some d) w = (refl, refl)

  set_copy_channel-Kept :
      (api : ScanApi I) (address chan : ℕ) (w : World I)
      → IsRegistered w
      → Kept (set_copy_channel api address chan w)
  unfolding set_copy_channel
  set_copy_channel-Kept api address chan w v = elim (Option-cases (w.heap address)) [
    | inl e ↦ rw (set_copy_channel, e) tt
    | inr (ctx, e) ↦
        let (next, heap) = drop_copy_same address ctx.copy_file w in
        rw (set_copy_channel, e)
          (record {
            registered = with_copy-registered v e chan ctx.copy_file refl;
            unused =
                λ a h. ground (arith, v.unused a, ap (λ (f : ℕ → Option Context). f a) heap, next);
          })
  ]

  -- Behind it the context copies to no channel.
  abbrev Cleared : ℕ → Option (World I) → Type 0
  Cleared address none = Unit {0}
  Cleared address (some w) = IsRegistered w × ((c : ℕ) → copies c (w.heap address) ≡ false)

  clear_copy_file-Cleared :
      (address : ℕ) (w : World I) → IsRegistered w → Cleared address (clear_copy_file address w)
  unfolding clear_copy_file
  clear_copy_file-Cleared address w v = elim (Option-cases (w.heap address)) [
    | inl e ↦ rw (clear_copy_file, e) tt
    | inr (ctx, e) ↦
        rw (clear_copy_file, e)
          (elim ctx.copy_file
              as (λ o.
                ctx.copy_file ≡ o
                → Cleared address (elim o as (λ _. Option (World I)) [
                  | none ↦ some w
                  | some d ↦ some (without_copy address d w)
                ])) [
                  | none ↦ λ e'. (v, λ c. ground (arith, e, e'))
                  | some d ↦ λ e'. (
                    record {
                      registered = without_copy-registered v e d e';
                      unused = λ a h. ground (arith, v.unused a);
                    },
                    λ c. ground (arith, e, ==_refl address),
                  )
                ]
            refl)
  ]

  clean_up_context-Kept :
      (address : ℕ) (w : World I) → IsRegistered w → Kept (clean_up_context address w)
  unfolding clean_up_context
  clean_up_context-Kept address w v =
      let cleared = clear_copy_file-Cleared address w v in
      elim (Option-cases (clear_copy_file address w)) [
        | inl e ↦ rw (clean_up_context, e) tt
        | inr (w', e) ↦
            let (v', none_left) = rw e at cleared in
            rw (clean_up_context, e)
              (record {
                registered = λ c a. ground (arith, v'.registered c a, none_left c);
                unused = λ a h. ground (arith, v'.unused a);
              })
      ]

  pub context_create-IsRegistered :
      (junk : ℕ) (w : World I) → IsRegistered w → IsRegistered (context_create junk w).1
  unfolding context_create
  context_create-IsRegistered junk w v = elim (Option-cases (handle_alloc junk w.table)) [
    | inl e ↦ rw (context_create, e) v
    | inr ((t, handle, ptr), e) ↦ elim (Bool-cases (leb 16 (length handle))) [
      | inl long ↦ rw (context_create, e, long) v
      | inr short ↦ elim (Option-cases (write_entry t ptr w.next_address)) [
        | inl e' ↦ rw (context_create, e, short, e') v
        | inr (t', e') ↦
            rw (context_create, e, short, e')
              (record {
                registered = λ c a. ground (arith, v.registered c a, v.unused a);
                unused = λ a h. ground (arith, v.unused a);
              })
      ]
    ]
  ]

  close_handlers_same :
      (chan : ℕ) (hs : List (ℕ × Handler)) (w : World I)
      → ((close_handlers chan hs w).next_address ≡ w.next_address)
        × ((a : ℕ) → w.heap a ≡ none → (close_handlers chan hs w).heap a ≡ none)
  unfolding close_handlers
  close_handlers_same chan [] w = (refl, λ a h. h)
  close_handlers_same chan ((d, copy_file_close b) ∷ hs) w =
      let (next, none_left) = close_handlers_same chan hs w in
      (ground (arith, next), λ a h. ground (arith, none_left a h))
  close_handlers_same chan ((d, scan_file_close b) ∷ hs) w =
      let (next, none_left) = close_handlers_same chan hs w in
      (ground (arith, next), λ a h. ground (arith, none_left a h))

  pub close_channel-IsRegistered :
      (chan : ℕ) (w : World I) → IsRegistered w → IsRegistered (close_channel chan w)
  unfolding close_channel
  close_channel-IsRegistered chan w v = record {
    registered = λ c a. ground (
      arith,
      v.registered c a,
      v.registered chan a,
      close_handlers-count chan w.handlers w c a,
      close_handlers-copies chan w.handlers w c a,
    );
    unused = λ a h.
        (let (next, none_left) = close_handlers_same chan w.handlers w in
          none_left a (v.unused a (omega (arith, next))));
  }

  -- A property that a command keeps after its handle is translated.
  module _ (P : World I → Type 0) where
    pub with_context-keeps :
        (x : Xlated) (w : World I) (next : ℕ → ℕ → World I → Status × World I)
        → P w
        → ((ptr address : ℕ) → P (next ptr address w).1)
        → P (with_context x w next).1
    unfolding with_context
    with_context-keeps (entry_ptr ptr) w next h all = elim (Option-cases (read_entry w.table ptr)) [
      | inl e ↦ rw (with_context, e) h
      | inr (address, e) ↦ rw (with_context, e) (all ptr address)
    ]
    with_context-keeps invalid_handle w next h all = h
    with_context-keeps not_open w next h all = h
    with_context-keeps null_silent w next h all = h

    pub if-keeps : (b : Bool) (x y : Status × World I) → P x.1 → P y.1 → P (if b then x else y).1
    if-keeps true x y h k = h
    if-keeps false x y h k = k

  pub delete_context-IsRegistered :
      (w : World I)
      → IsRegistered w
      → (ptr address : ℕ) → IsRegistered (delete_context ptr address w).1
  unfolding delete_context
  delete_context-IsRegistered w v ptr address =
      let kept = clean_up_context-Kept address w v in
      elim (Option-cases (clean_up_context address w)) [
        | inl e ↦ rw (delete_context, e) v
        | inr (w', e) ↦
            let v' : IsRegistered w' = rw e at kept in
            elim (Option-cases (handle_free w'.table ptr)) [
              | inl e' ↦ rw (delete_context, e, e') v'
              | inr (t, e') ↦
                  rw (delete_context, e, e')
                    (record { registered = v'.registered; unused = v'.unused })
            ]
      ]

  module _ (api : ScanApi I) where
    pub set_copy_file-IsRegistered :
        (file : Text) (w : World I)
        → IsRegistered w
        → (ptr address : ℕ) → IsRegistered (set_copy_file api file ptr address w).1
    unfolding set_copy_file
    set_copy_file-IsRegistered file w v ptr address =
        elim (Option-cases (get_open_channel api.get_channel file false true)) [
          | inl e ↦ rw (set_copy_file, e) v
          | inr (chan, e) ↦
              let kept = set_copy_channel-Kept api address chan w v in
              elim (Option-cases (set_copy_channel api address chan w)) [
                | inl e' ↦ rw (set_copy_file, e, e') v
                | inr (w', e') ↦ rw (set_copy_file, e, e') (rw e' at kept)
              ]
        ]

    pub get_copy_file_same :
        (ptr address : ℕ) (w : World I) → (get_copy_file api ptr address w).1 ≡ w
    unfolding get_copy_file
    get_copy_file_same ptr address w = ground arith

    pub set_default-IsRegistered :
        (action : Text) (w : World I)
        → IsRegistered w
        → (ptr address : ℕ) → IsRegistered (set_default api action ptr address w).1
    unfolding set_default
    set_default-IsRegistered action w v ptr address =
        elim (w.heap address)
          as (λ o.
            IsRegistered
              (elim o as (λ _. Status × World I) [
                | none ↦ (crash, w)
                | some ctx ↦ elim ctx.default_action [
                  | none ↦
                      (tcl_ok [], change address (λ c. record c { default_action = some action }) w)
                  | some old ↦ (tcl_error, w)
                ]
              ]).1) [
                | none ↦ v
                | some ctx ↦
                    elim ctx.default_action
                      as (λ o.
                        IsRegistered
                          (elim o as (λ _. Status × World I) [
                            | none ↦ (
                              tcl_ok [],
                              change address (λ c. record c { default_action = some action }) w,
                            )
                            | some old ↦ (tcl_error, w)
                          ]).1) [
                            | none ↦
                                change-IsRegistered address
                                  (λ c. record c { default_action = some action }) (λ c. refl) v
                            | some old ↦ v
                          ]
              ]

    pub add_match-IsRegistered :
        (m : Match) (w : World I)
        → IsRegistered w
        → (ptr address : ℕ) → IsRegistered (add_match api m ptr address w).1
    unfolding add_match
    add_match-IsRegistered m w v ptr address =
        let appended = λ (c : Context). record c { matches = c.matches ++ m ∷ [] } in
        if-keeps IsRegistered (api.compiles m.regexp)
          (elim (w.heap address) [
            | none ↦ (crash, w)
            | some ctx ↦ (tcl_ok [], change address appended w)
          ])
          (tcl_error, w)
          (elim (w.heap address)
            as (λ o.
              IsRegistered
                (elim o as (λ _. Status × World I) [
                  | none ↦ (crash, w)
                  | some ctx ↦ (tcl_ok [], change address appended w)
                ]).1) [ none ↦ v | some ctx ↦ change-IsRegistered address appended (λ c. refl) v ])
          v
