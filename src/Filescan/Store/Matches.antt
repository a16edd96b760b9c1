-- ===== src/Filescan/Store/Matches.antt =====
-- scanmatch on a handle that stands for a context.
use tclx.Base.{
  ℕ, ◌^◌, ◌<◌, ◌≡◌, refl, ap, ◌∙◌, true, false, none, some, List, [], ◌∷◌, ◌++◌, Text, ◌==◌, text,
  text_eq, if◌then◌else◌, arith, Bool-cases, inl, inr,
}
use tclx.Handles.{
  handle_of, handle_xlate, handle_xlate_obj, handle_decode, handle_decode_obj, Table,
}
use tclx.Filescan.{Context, Match, World, ScanApi}
use tclx.Filescan.Contexts.{Status, tcl_ok, tcl_error, change, with_context}
use tclx.Filescan.Commands.{scanmatch_cmd, set_default, add_match}
use tclx.Filescan.Store.{context_of, stored, IsStored}
use tclx.Filescan.Store.Change.{stored_of, with_open, change_refines}

handle_xlate_obj_same :
    (t : Table ℕ) (handle : Text) → handle_xlate_obj t handle ≡ handle_xlate t handle
unfolding handle_xlate_obj handle_xlate handle_decode handle_decode_obj
handle_xlate_obj_same t handle = refl

abbrev pub with_match : Match → Context → Context
with_match m ctx = record ctx { matches = ctx.matches ++ m ∷ [] }

abbrev pub with_default : Text → Context → Context
with_default action ctx = record ctx { default_action = some action }

-- A context keeps the default action that it has.
abbrev pub with_first_default : Text → Context → Context
with_first_default action ctx = elim ctx.default_action [
  | none ↦ with_default action ctx
  | some old ↦ ctx
]

abbrev pub default_status : Context → Status
default_status ctx = elim ctx.default_action [ none ↦ tcl_ok [] | some old ↦ tcl_error ]

module _ {I : Type 0} (api : ScanApi I) {w : World I} {fs : List ℕ} (j : ℕ) {ctx : Context}
    (v : IsStored w fs) (small : j < 2 ^ 31) (open_now : context_of w j ≡ some ctx) where
  -- The contexts after a change of the one behind handle `j`.
  abbrev pub Changes : Context → World I → Type 0
  Changes ctx' w' =
      IsStored w' fs
      × ((k : ℕ) → k < 2 ^ 31 → context_of w' k ≡ (if k == j then some ctx' else context_of w k))

  in_context :
      (op : ℕ → ℕ → World I → Status × World I) (a : ℕ)
      → stored w j ≡ some a
      → (ptr : ℕ) × (with_context (handle_xlate_obj w.table (handle_of w.table j)) w op
          ≡ op ptr a w)
  in_context op a at = (
    _,
    ap (λ x. with_context x w op) (handle_xlate_obj_same w.table (handle_of w.table j))
        ∙ with_open j a op v small at,
  )

  add_match_runs :
      (m : Match) (ptr a : ℕ)
      → w.heap a ≡ some ctx
      → api.compiles m.regexp ≡ true
      → add_match api m ptr a w ≡ (tcl_ok [], change a (with_match m) w)
  unfolding add_match
  add_match_runs m ptr a e good = rw (good, e)

  set_default_runs :
      (action : Text) (ptr a : ℕ)
      → w.heap a ≡ some ctx
      → set_default api action ptr a w ≡ elim ctx.default_action [
        | none ↦ (tcl_ok [], change a (with_default action) w)
        | some old ↦ (tcl_error, w)
      ]
  unfolding set_default
  set_default_runs action ptr a e = rw (set_default, e) refl

  default_sets :
      (action : Text) (ptr a : ℕ)
      → stored w j ≡ some a
      → w.heap a ≡ some ctx
      → (w' : World I) × (set_default api action ptr a w ≡ (default_status ctx, w'))
        × Changes (with_first_default action ctx) w'
  default_sets action ptr a at e =
      let runs = set_default_runs action ptr a e in
      elim ctx.default_action
          as (λ o.
            set_default api action ptr a w ≡ elim o as (λ _. Status × World I) [
              | none ↦ (tcl_ok [], change a (with_default action) w)
              | some old ↦ (tcl_error, w)
            ]
            → (w' : World I) × (set_default api action ptr a w
                ≡ (elim o as (λ _. Status) [ none ↦ tcl_ok [] | some old ↦ tcl_error ], w'))
              × Changes
                  (elim o as (λ _. Context) [ none ↦ with_default action ctx | some old ↦ ctx ])
                  w') [
                    | none ↦ λ r. (
                      change a (with_default action) w,
                      r,
                      change_refines j a (with_default action) v small at e,
                    )
                    | some old ↦ λ r. (
                      w,
                      r,
                      (
                        v,
                        (λ k h. elim (Bool-cases (k == j)) [
                          | inl same ↦ let here : k ≡ j = ground arith in rw (same, here) open_now
                          | inr other ↦ rw other
                        ]),
                      ),
                    )
                  ]
        runs

  -- Scanmatch without -nocase on an open handle below 2 ^ 31 of a sound store, with a pattern
  -- that compiles, succeeds and adds the match behind the context's last; without a pattern it
  -- succeeds and sets the default action of a context that has none, and fails and changes no
  -- context if it has one; every other handle stands for what it stood for, and the store stays
  -- sound.
  pub scanmatch_cmd_adds :
      (pattern command : Text)
      → text_eq (handle_of w.table j) (text "-nocase") ≡ false
      → api.compiles (record { pattern = pattern; nocase = false }) ≡ true
      → ((w' : World I) × (scanmatch_cmd api (handle_of w.table j ∷ pattern ∷ command ∷ []) w
            ≡ (tcl_ok [], w'))
          × Changes
              (with_match
                (record {
                  regexp = record { pattern = pattern; nocase = false };
                  command = command;
                })
                ctx)
              w')
        × ((w' : World I) × (scanmatch_cmd api (handle_of w.table j ∷ command ∷ []) w
              ≡ (default_status ctx, w'))
            × Changes (with_first_default command ctx) w')
  unfolding scanmatch_cmd
  scanmatch_cmd_adds pattern command plain good =
      let (a, at, here, allocated, user) = stored_of j v small open_now in
      let m : Match = record {
        regexp = record { pattern = pattern; nocase = false };
        command = command;
      } in
      let (ptr, adds) = in_context (add_match api m) a at in
      let (ptr', sets) = in_context (set_default api command) a at in
      let (w', runs, changes) = default_sets command ptr' a at here in
      (
        (
          change a (with_match m) w,
          rw plain (adds ∙ add_match_runs m ptr a here good),
          change_refines j a (with_match m) v small at here,
        ),
        (w', rw plain (sets ∙ runs), changes),
      )
