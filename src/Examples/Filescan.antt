-- ===== src/Examples/Filescan.antt =====
-- A scan context with one pattern that copies the other lines, and the commands that make it.
use tclx.Base.{
  ℕ, zero, suc, ◌^◌, ◌<◌, ◌≡◌, refl, Bool, true, false, none, some, List, [], ◌∷◌, Text, text,
  text_eq, ◌==◌, if◌then◌else◌, has, arith,
}
use tclx.Base.Int.{pos}
use tclx.Handles.{Table, null_idx, allocated_idx, index, handle_of}
use tclx.Handles.FreeList.{nil, cons}
use tclx.Filescan.{Regexp, Match, Context, World, ScanApi, scan_ok, tcl_ok, copy_file_close}
use tclx.Filescan.Contexts
use tclx.Filescan.Contexts.{Status, close_channel, context_create, context_delete}
use tclx.Filescan.Commands.{scanmatch_cmd, scancontext_cmd}
use tclx.Filescan.Scan.{scan_file}
use tclx.Filescan.Lines.{Quiet, lines_by}
use tclx.Filescan.Lines.Whole.{scan_file-lines_by}
use tclx.Filescan.Lines.Copies.{Smooth, readings, scan_file-rejected}
use tclx.Filescan.Registered.{copies, count, IsRegistered}
use tclx.Filescan.Registered.Reach.{here, next, close, scancontext, Reach-IsRegistered}
use tclx.Filescan.Store.{context_of, stored, IsStored}
use tclx.Filescan.Store.Open.{context_of-stored, empty_context, context_create_opens}
use tclx.Filescan.Store.Close.{context_delete_closes}
use tclx.Filescan.Store.Matches.{
  Changes, with_match, with_first_default, default_status, scanmatch_cmd_adds,
}

abbrev equal_line : Regexp → Text → Bool
equal_line r t = text_eq r.pattern t

abbrev api : ScanApi (Unit {0})
api = record {
  exec = λ r t. some (equal_line r t);
  ranges = λ r t. [];
  eval = λ c w. (tcl_ok, w);
  can_set = λ k. true;
  channel_name = λ c. text "file";
  get_channel = λ t. some (7, true, true);
  utf_to_uni = λ t. t;
  uni_to_utf = λ u. u;
  can_write = λ c t. true;
  compiles = λ r. true;
}

quiet : Quiet api equal_line 0 5
quiet = record { answers = λ r t. refl; keeps_heap = λ c w. refl; keeps_input = λ c w. refl }

smooth : Smooth api
smooth = record {
  continues = λ c w. refl;
  keeps_written = λ c w. refl;
  settable = λ k. refl;
  writable = λ c t. refl;
}

abbrev x_match : Match
x_match = record { regexp = record { pattern = text "x"; nocase = false }; command = text "puts x" }

abbrev ctx : Context
ctx = record {
  matches = x_match ∷ [];
  default_action = none;
  handle = text "context0";
  copy_file = some 7;
  file_open = true;
}

abbrev free_table : Table ℕ
free_table = record {
  use_count = pos 1;
  entry_size = 16;
  table_size = 1;
  free_head_idx = index 0;
  body = record { free_link = null_idx; user = 0 } ∷ [];
  handle_base = text "context";
}

abbrev open_table : Table ℕ
open_table = record free_table {
  free_head_idx = null_idx;
  body = record { free_link = allocated_idx; user = 0 } ∷ [];
}

abbrev lines : List (ℕ × Text)
lines = (0, text "x") ∷ (2, text "y") ∷ (4, text "x") ∷ (6, text "z") ∷ []

abbrev empty_world : World (Unit {0})
empty_world = record {
  table = free_table;
  heap = λ a. none;
  next_address = 0;
  handlers = [];
  input = λ c. [];
  written = [];
  match_info = [];
  interp = tt;
}

abbrev scan_world : World (Unit {0})
scan_world = record empty_world {
  table = open_table;
  heap = λ a. if a == 0 then some ctx else none;
  next_address = 1;
  handlers = (7, copy_file_close 0) ∷ [];
  input = λ c. readings lines;
}

scan_file-lines_by_example :
    scan_file api 9 2 0 5 scan_world ≡ lines_by api equal_line 0 5 ctx (readings lines) 0 scan_world
scan_file-lines_by_example =
    scan_file-lines_by api equal_line 0 5 ctx quiet refl 2 (omega arith) 9 scan_world refl
      (omega arith)

scan_file-rejected_example :
    ((scan_file api 9 2 0 5 scan_world).0 ≡ scan_ok)
    × ((scan_file api 9 2 0 5 scan_world).1.written ≡ (7, text "y") ∷ (7, text "z") ∷ [])
scan_file-rejected_example =
    scan_file-rejected api smooth equal_line 0 5 ctx 7 refl 9 2 lines scan_world quiet refl
      (λ e. cc) refl refl (omega arith) (omega arith)

scan_world-registered :
    (c a : ℕ) → count c a scan_world.handlers ≡ (if copies c (scan_world.heap a) then 1 else 0)
scan_world-registered c a = ground arith

scan_world-IsRegistered : IsRegistered scan_world
scan_world-IsRegistered = record {
  registered = scan_world-registered;
  unused = λ a h. ground arith;
}

Reach-IsRegistered_example :
    IsRegistered (close_channel 7 (scancontext_cmd api 0 (text "create" ∷ []) scan_world).1)
    × ((chan a : ℕ)
        → copies chan (
            (close_channel chan
                (close_channel 7 (scancontext_cmd api 0 (text "create" ∷ []) scan_world).1)).heap
              a)
          ≡ false)
Reach-IsRegistered_example = Reach-IsRegistered api scan_world-IsRegistered (
    next (next here (scancontext scan_world 0 (text "create" ∷ [])))
      (close (scancontext_cmd api 0 (text "create" ∷ []) scan_world).1 7))

free-rest : (i : ℕ) → i < 1 → has i (0 ∷ []) ≡ false → ⊥
free-rest zero h out = cc
free-rest (suc i) h out = omega arith

open-below : (i : ℕ) → i < 1 → i ≡ 0
open-below zero h = refl
open-below (suc i) h = omega arith

empty_stored : (j : ℕ) → stored empty_world j ≡ none
empty_stored zero = refl
empty_stored (suc j) = refl

open_stored : (j a : ℕ) → stored scan_world j ≡ some a → (j ≡ 0) × (a ≡ 0)
open_stored zero a h = (refl, ground arith)
open_stored (suc j) a h = cc

empty_world-IsStored : IsStored empty_world (0 ∷ [])
empty_world-IsStored = record {
  valid = record {
    sized = refl;
    chain = cons refl refl nil;
    bounded = λ i h. ground arith;
    rest = λ i h out. absurd (free-rest i h out);
  };
  nonempty = omega arith;
  sized = omega arith;
  live = λ j a h. absurd (let e = empty_stored j in cc);
  distinct = λ i j a h h'. absurd (let e = empty_stored i in cc);
}

scan_world-IsStored : IsStored scan_world []
scan_world-IsStored = record {
  valid = record {
    sized = refl;
    chain = nil;
    bounded = λ i h. cc;
    rest = λ i h out. rw (open-below i h);
  };
  nonempty = omega arith;
  sized = omega arith;
  live =
      λ j a h. let (first, zero_address) = open_stored j a h in (omega arith, (ctx, ground arith));
  distinct = λ i j a h h'. omega (arith, (open_stored i a h).0, (open_stored j a h').0);
}

scan_world-open : context_of scan_world 0 ≡ some ctx
scan_world-open = context_of-stored 0 scan_world-IsStored (omega arith)

context_create_opens_example :
    (w' : World (Unit {0})) × (i : ℕ) × (fs' : List ℕ) × (context_create 0 empty_world
      ≡ (Contexts.tcl_ok (handle_of free_table i), w'))
    × IsStored w' fs'
    × (context_of empty_world i ≡ none)
    × ((j : ℕ)
        → j < 2 ^ 31
        → context_of w' j ≡ (
            if j == i
            then some (empty_context (handle_of free_table i))
            else context_of empty_world j))
context_create_opens_example =
    context_create_opens 0 empty_world (0 ∷ []) empty_world-IsStored (omega arith) (omega arith)
      (omega arith)

context_delete_closes_example :
    (w' : World (Unit {0})) × (context_delete (handle_of open_table 0) scan_world
      ≡ (Contexts.tcl_ok [], w'))
    × IsStored w' (0 ∷ [])
    × ((k : ℕ) → k < 2 ^ 31 → context_of w' k ≡ (if k == 0 then none else context_of scan_world k))
context_delete_closes_example =
    context_delete_closes scan_world [] 0 ctx scan_world-IsStored (omega arith) scan_world-open

not_nocase : text_eq (handle_of open_table 0) (text "-nocase") ≡ false
unfolding handle_of
not_nocase = refl

scanmatch_cmd_adds_example :
    ((w' : World (Unit {0})) × (scanmatch_cmd api
          (handle_of open_table 0 ∷ text "y" ∷ text "puts y" ∷ [])
          scan_world
        ≡ (Contexts.tcl_ok [], w'))
      × Changes api 0 scan_world-IsStored
          (omega arith)
          scan_world-open
          (with_match
            (record {
              regexp = record { pattern = text "y"; nocase = false };
              command = text "puts y";
            })
            ctx)
          w')
    × ((w' : World (Unit {0})) × (scanmatch_cmd api
            (handle_of open_table 0 ∷ text "puts y" ∷ [])
            scan_world
          ≡ (default_status ctx, w'))
        × Changes api 0 scan_world-IsStored
            (omega arith)
            scan_world-open
            (with_first_default (text "puts y") ctx)
            w')
scanmatch_cmd_adds_example =
    scanmatch_cmd_adds api 0 scan_world-IsStored (omega arith) scan_world-open (text "y")
      (text "puts y") not_nocase refl
