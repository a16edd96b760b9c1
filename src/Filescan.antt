-- ===== src/Filescan.antt =====
-- generic/tclXfilescan.c: scan contexts and the scan of a file.
-- Contexts live at addresses of a heap; reading a freed one is `fault`. What the code calls in Tcl is
-- the record ScanApi. A channel is a number, with what Tcl_Gets will give on it in turn.
pub mod Scan
pub mod Lines
pub mod Contexts
pub mod Commands
pub mod Registered
pub mod Store
use tclx.Base.{
  ℕ, zero, suc, ◌+◌, ◌-◌, Bool, true, false, Option, none, some, List, [], ◌∷◌, ◌++◌, Text, ◌==◌,
  if◌then◌else◌, take, drop, length, get_elem?,
}
use tclx.Base.Int.{ℤ, pos, negsuc, ◌-ℤ◌}
use tclx.Handles.{Table}

-- A compiled regular expression: what it was compiled from.
pub record Regexp : Type 0 where
  pub pattern : Text
  pub nocase : Bool

pub record Match : Type 0 where
  pub regexp : Regexp
  pub command : Text

pub record Context : Type 0 where
  pub matches : List Match
  pub default_action : Option Text
  pub handle : Text
  pub copy_file : Option ℕ
  pub file_open : Bool

-- The elements of the array matchInfo.
pub data Key : Type 0 where
  line_key offset_key linenum_key context_key handle_key copy_handle_key : Key
  subindex_key submatch_key : ℕ → Key

pub data MatchValue : Type 0 where
  text_info : Text → MatchValue
  number_info : ℕ → MatchValue
  range_info : ℤ → ℤ → MatchValue

-- What Tcl_Gets gives on a channel, with what Tcl_Tell said before. Behind the last is the end of
-- the file.
pub data Reading : Type 0 where
  got_line : (offset : ℕ) → Text → Reading
  blocked failure : Reading

-- The close handlers of this file, with their client data.
pub data Handler : Type 0 where
  copy_file_close scan_file_close : ℕ → Handler

pub record World (I : Type 0) : Type 0 where
  pub table : Table ℕ
  pub heap : ℕ → Option Context
  pub next_address : ℕ
  pub handlers : List (ℕ × Handler)
  pub input : ℕ → List Reading
  pub written : List (ℕ × Text)
  pub match_info : List (Key × MatchValue)
  pub interp : I

pub data Code : Type 0 where
  tcl_ok tcl_error tcl_return tcl_break tcl_continue : Code
  tcl_other : ℕ → Code

-- Tcl_RegExpExec, with `none` for a negative result, and Tcl_RegExpGetInfo; Tcl_EvalObj; whether an
-- element can be set; the names and the access of channels; the UTF-8 conversions; whether a
-- line can be written; whether a regular expression compiles.
pub record ScanApi (I : Type 0) : Type 0 where
  pub exec : Regexp → Text → Option Bool
  pub ranges : Regexp → Text → List (Option (ℕ × ℕ))
  pub eval : Text → World I → Code × World I
  pub can_set : Key → Bool
  pub channel_name : ℕ → Text
  pub get_channel : Text → Option (ℕ × Bool × Bool)
  pub utf_to_uni : Text → List ℕ
  pub uni_to_utf : List ℕ → Text
  pub can_write : ℕ → Text → Bool
  pub compiles : Regexp → Bool

-- The part of scanData_t that changes during a line.
pub record ScanData : Type 0 where
  pub stored_line : Bool
  pub line : Text
  pub offset : ℕ
  pub line_num : ℕ

-- How the work on a line ends: by the next line, told whether a match was found, or by the end
-- of the scan.
pub data LineEnd : Type 0 where
  line_done : Bool → LineEnd
  scan_ok scan_error fault no_fuel : LineEnd

module _ {I : Type 0} (api : ScanApi I) where
  -- The elements are set in order up to the first that cannot be set.
  unfoldable pub set_infos : List (Key × MatchValue) → World I → Bool × World I
  set_infos [] w = (true, w)
  set_infos ((k, v) ∷ kvs) w =
      let rest = set_infos kvs (record w { match_info = (k, v) ∷ w.match_info }) in
      if api.can_set k then rest else (false, w)

  unfoldable pub line_infos : Context → ℕ → ScanData → List (Key × MatchValue)
  line_infos ctx channel d =
      (line_key, text_info d.line)
      ∷ (offset_key, number_info d.offset)
      ∷ (linenum_key, number_info d.line_num)
      ∷ (context_key, text_info ctx.handle)
      ∷ (handle_key, text_info (api.channel_name channel))
      ∷ []

  unfoldable pub copy_infos : Option ℕ → List (Key × MatchValue)
  copy_infos none = []
  copy_infos (some c) = (copy_handle_key, text_info (api.channel_name c)) ∷ []

  -- The submatch is as many bytes of the UTF-8 text as the subexpression has characters.
  unfoldable pub sub_infos : ℕ → List ℕ → List (Option (ℕ × ℕ)) → List (Key × MatchValue)
  sub_infos idx uni [] = []
  sub_infos idx uni (none ∷ rs) =
      (subindex_key idx, range_info (negsuc 0) (negsuc 0))
      ∷ (submatch_key idx, text_info [])
      ∷ sub_infos (suc idx) uni rs
  sub_infos idx uni (some (start, end) ∷ rs) =
      (subindex_key idx, range_info (pos start) (pos end -ℤ pos 1))
      ∷ (
        submatch_key idx,
        text_info (take (end - start) (api.uni_to_utf (take (end - start) (drop start uni)))),
      )
      ∷ sub_infos (suc idx) uni rs

  abbrev pub match_infos : Option Match → ScanData → List (Key × MatchValue)
  match_infos none d = []
  match_infos (some m) d = sub_infos 0 (api.utf_to_uni d.line) (api.ranges m.regexp d.line)

  -- Unsets matchInfo and stores the line only the first time for a line.
  unfoldable pub set_match_info : Context → ℕ → Option Match → ScanData → World I → Bool × World I
  unfolding set_infos line_infos copy_infos sub_infos
  set_match_info ctx channel match d w =
      let more = copy_infos ctx.copy_file ++ match_infos match d in
      if d.stored_line
      then set_infos more w
      else set_infos (line_infos ctx channel d ++ more) (record w { match_info = [] })

  abbrev pub Rest : Type 0
  Rest = ScanData → World I → LineEnd × World I

  -- Behind the evaluation of a match command.
  unfoldable pub after_match : Code × World I → ScanData → Rest → LineEnd × World I
  after_match (tcl_error, w) d next = (scan_error, w)
  after_match (tcl_continue, w) d next = (line_done true, w)
  after_match (tcl_break, w) d next = (scan_ok, w)
  after_match (tcl_return, w) d next = (scan_ok, w)
  after_match (tcl_ok, w) d next = next d w
  after_match (tcl_other n, w) d next = next d w

  unfoldable pub run_match : Match → Bool × World I → ScanData → Rest → LineEnd × World I
  unfolding after_match
  run_match m (false, w) d next = (scan_error, w)
  run_match m (true, w) d next =
      after_match (api.eval m.command w) (record d { stored_line = true }) next
