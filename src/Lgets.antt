-- ===== src/Lgets.antt =====
-- generic/tclXlgets.c: reading a list whose elements may hold newlines from a channel.
-- What Tcl_Gets will give is a list, and the end of the file comes behind it. The index into the
-- buffer splits it into the bytes before it and the rest.

pub mod Command
pub mod Within
pub mod Ends
pub mod Braced
pub mod Printed
use tclx.Base.{
  ℕ, zero, suc, ◌+◌, ◌-◌, Bool, true, false, not, ◌&&◌, Option, none, some, List, [], ◌∷◌, ◌++◌,
  Text, ltb, ◌==◌, if◌then◌else◌, take, drop, length,
}
use tclx.Base.Int.{ℤ, pos, negsuc, ◌-ℤ◌}
use tclx.Libc.{is_space, skip_space}
use tclx.Util.{get_open_channel}
use tclx.Interp.{
  Interp, Reply, value, elements, int, CmdError, wrong_args, cannot_set, Outcome, ok, error,
  overflow, set_var,
}

-- A line, a line that the end of the file ends, or an error of the channel.
pub data Gets : Type 0 where
  full_line last_line : Text → Gets
  io_error : Gets

pub record ReadData : Type 0 where
  pub input : List Gets
  pub before : Text
  pub rest : Text

pub data ReadStatus : Type 0 where
  read_ok read_break read_error : ReadStatus

abbrev pub newline : ℕ
newline = 10

unfoldable pub read_list_line : ReadData → ReadStatus × ReadData
read_list_line d = elim d.input [
  | [] ↦ (elim d.before [ [] ↦ read_break | c ∷ s ↦ read_error ], d)
  | g ∷ gs ↦ elim g [
    | full_line t ↦ (read_ok, record d { input = gs; rest = d.rest ++ (t ++ newline ∷ []) })
    | last_line t ↦ (read_error, record d { input = gs; rest = d.rest ++ t })
    | io_error ↦ (read_error, record d { input = gs })
  ]
]

-- The bytes of the leading white space, and those behind it.
unfoldable pub leading_space : Text → Text
unfolding is_space
leading_space [] = []
leading_space (c ∷ s) = if is_space c then c ∷ leading_space s else []

-- A read that failed leaves the index at 0.
unfoldable pub init_at : ReadStatus × ReadData → ReadStatus × ReadData
unfolding leading_space skip_space
init_at (read_ok, d) =
    (read_ok, record d { before = leading_space d.rest; rest = skip_space d.rest })
init_at (read_break, d) = (read_break, d)
init_at (read_error, d) = (read_error, d)

unfoldable pub read_list_init : List Gets → ReadStatus × ReadData
unfolding init_at read_list_line
read_list_init gs = init_at (read_list_line (record { input = gs; before = []; rest = [] }))

-- The element that was read, the end of the list, or an error, each with the data left.
pub data Read : Type 0 where
  element : Text → ReadData → Read
  list_end failed : ReadData → Read
  no_fuel : Read

-- The variables of ReadListElement: `pending` is what lies between cpStart and p, `elem` what was
-- copied, and the buffer is split at p.
pub record Scan : Type 0 where
  pub open_braces : ℕ
  pub in_quotes : Bool
  pub pending : Text
  pub elem : Text
  pub before : Text
  pub rest : Text

-- Behind `done:`; the white space is skipped.
unfoldable pub finish : Scan → ReadData → Read
unfolding leading_space skip_space
finish s d =
    element (s.elem ++ s.pending)
      (record d { before = s.before ++ leading_space s.rest; rest = skip_space s.rest })

-- A closing brace or quote: the end or white space must follow.
unfoldable pub close_element : Scan → ReadData → Read
unfolding finish is_space
close_element s d = elim s.rest [
  | [] ↦ finish s d
  | c ∷ r ↦ if is_space c then finish s d else failed d
]

-- The byte at p is kept as it is.
abbrev pub kept_byte : Scan → ℕ → Text → Scan
kept_byte s c r = record s { pending = s.pending ++ c ∷ []; before = s.before ++ c ∷ []; rest = r }

-- The byte at p ends the element and is passed.
abbrev pub passed_byte : Scan → ℕ → Text → Scan
passed_byte s c r = record s { before = s.before ++ c ∷ []; rest = r }

-- Tcl_Backslash gives the byte of the sequence at p and its length.
unfoldable pub scan_backslash : (Text → ℕ × ℕ) → Scan → Scan
scan_backslash backslash s =
    let (byte, num_chars) = backslash s.rest in
    let seq = take num_chars s.rest in
    if s.open_braces == 0
    then record s {
      elem = s.elem ++ s.pending ++ byte ∷ [];
      pending = [];
      before = s.before ++ seq;
      rest = drop num_chars s.rest;
    }
    else record s {
      pending = s.pending ++ seq;
      before = s.before ++ seq;
      rest = drop num_chars s.rest;
    }

abbrev pub Next : Type 0
Next = Scan → ReadData → Read

-- The case of a closing brace by the number of open ones.
unfoldable pub scan_close : ℕ → Scan → ℕ → Text → ReadData → Next → Read
unfolding close_element
scan_close zero s c r d next = next (kept_byte s c r) d
scan_close (suc zero) s c r d next = close_element (passed_byte s c r) d
scan_close (suc (suc b)) s c r d next = next (record (kept_byte s c r) { open_braces = suc b }) d

-- The cases of the switch for the byte `c` at p, with `r` behind it.
unfoldable pub scan_byte : (Text → ℕ × ℕ) → Scan → ℕ → Text → ReadData → Next → Read
unfolding scan_backslash scan_close finish close_element is_space
scan_byte backslash s c r d next =
    if c == b'{'
    then next
        (record (kept_byte s c r) {
          open_braces = if s.open_braces == 0 then 0 else suc s.open_braces;
        })
        d
    else if c == b'}'
    then scan_close s.open_braces s c r d next
    else if c == 92
    then next (scan_backslash backslash s) d
    else if is_space c
    then (if s.open_braces == 0 && not s.in_quotes then finish s d else next (kept_byte s c r) d)
    else if c == b'"'
    then (if s.in_quotes then close_element (passed_byte s c r) d else next (kept_byte s c r) d)
    else next (kept_byte s c r) d

-- Behind the reading of another line within an element.
unfoldable pub continue_line : Scan → ReadStatus × ReadData → Next → Read
continue_line s (read_ok, d) next = next (record s { before = d.before; rest = d.rest }) d
continue_line s (read_break, d) next = list_end d
continue_line s (read_error, d) next = failed d

unfoldable pub scan_end : Scan → ReadData → Next → Read
unfolding finish continue_line read_list_line
scan_end s d next =
    if s.open_braces == 0 && not s.in_quotes
    then finish s d
    else continue_line s (read_list_line (record d { before = s.before; rest = [] })) next

-- The loop over the bytes, on fuel.
unfoldable pub element_loop : (Text → ℕ × ℕ) → ℕ → Scan → ReadData → Read
unfolding scan_byte scan_end
element_loop backslash zero s d = no_fuel
element_loop backslash (suc fuel) s d = elim s.rest [
  | [] ↦ scan_end s d (element_loop backslash fuel)
  | c ∷ r ↦ scan_byte backslash s c r d (element_loop backslash fuel)
]

-- The opening brace or quote.
unfoldable pub start_scan : Text → Text → Scan
start_scan before [] = record {
  open_braces = 0;
  in_quotes = false;
  pending = [];
  elem = [];
  before = before;
  rest = [];
}
start_scan before (c ∷ r) =
    if c == b'{'
    then record {
      open_braces = 1;
      in_quotes = false;
      pending = [];
      elem = [];
      before = before ++ c ∷ [];
      rest = r;
    }
    else if c == b'"'
    then record {
      open_braces = 0;
      in_quotes = true;
      pending = [];
      elem = [];
      before = before ++ c ∷ [];
      rest = r;
    }
    else record {
      open_braces = 0;
      in_quotes = false;
      pending = [];
      elem = [];
      before = before;
      rest = c ∷ r;
    }

unfoldable pub read_list_element : (Text → ℕ × ℕ) → ℕ → ReadData → Read
unfolding element_loop start_scan
read_list_element backslash fuel d = elim d.rest [
  | [] ↦ list_end d
  | c ∷ r ↦ element_loop backslash fuel (start_scan d.before d.rest) d
]
