-- ===== src/Bsearch.antt =====
-- generic/tclXbsearch.c: the binary search of a sorted file for a line. The file is its bytes, with
-- a newline behind a line, and does not change.
pub mod Loop
pub mod Command
use tclx.Base.{
  ℕ, zero, suc, ◌+◌, ◌-◌, ◌/◌, Bool, true, false, ◌&&◌, ◌||◌, Option, none, some, List, [], ◌∷◌,
  ◌++◌, Text, ltb, leb, ◌==◌, if◌then◌else◌, length, drop,
}

-- The result of a comparison: the key is less than the line's, equal, or greater.
pub data Cmp : Type 0 where
  below equal above : Cmp

-- Tcl_Gets: the line and what is behind it, or the end of the file.
unfoldable pub gets_from : Text → Text → Text × Text
gets_from line [] = (line, [])
gets_from line (c ∷ s) =
    let rest = gets_from (line ++ c ∷ []) s in if c == 10 then (line, s) else rest

unfoldable pub gets : Text → Option (Text × Text)
unfolding gets_from
gets [] = none
gets (c ∷ s) = some (gets_from [] (c ∷ s))

abbrev is_separator : ℕ → Bool
is_separator c = c == 32 || (leb 9 c && leb c 13)

-- The field that strcspn finds.
unfoldable pub first_field : Text → Text
first_field [] = []
first_field (c ∷ s) = let rest = first_field s in if is_separator c then [] else c ∷ rest

-- The order of strcmp.
unfoldable pub strcmp : Text → Text → Cmp
strcmp [] [] = equal
strcmp [] (y ∷ ys) = below
strcmp (x ∷ xs) [] = above
strcmp (x ∷ xs) (y ∷ ys) =
    let rest = strcmp xs ys in if ltb x y then below else if ltb y x then above else rest

unfoldable pub standard_key_compare : Text → Text → Cmp
unfolding strcmp first_field
standard_key_compare key line = strcmp key (first_field line)

-- What changes of binSearchCB_t; `none` is the offset -1.
pub record Search : Type 0 where
  pub line_buf : Text
  pub last_rec_offset : Option ℕ
  pub cmp_result : Cmp

abbrev pub start_search : Search
start_search = record { line_buf = []; last_rec_offset = none; cmp_result = below }

pub data Read : Type 0 where
  done : Search → Read
  unexpected_eof compare_error : Read

-- What is behind the rest of the current line, and the rest, for an offset.
unfoldable pub next_line : Text → ℕ → Option (Text × Text)
unfolding gets
next_line file offset = if offset == 0 then some ([], file) else gets (drop offset file)

abbrev pub is_last : Option ℕ → ℕ → Bool
is_last none at = false
is_last (some offset) at = offset == at

pub data Found : Type 0 where
  found : Text → Found
  failure read_error out_of_fuel : Found

-- The comparison of the key with a line: Tcl's for a procedure, whose failure is `none`, or the
-- standard one.
module _ (compare : Text → Option Cmp) where
  abbrev pub compared : ℕ → Text → Option Cmp → Read
  compared at line none = compare_error
  compared at line (some c) =
      done (record { line_buf = line; last_rec_offset = some at; cmp_result = c })

  abbrev pub read_line : ℕ → Option (Text × Text) → Read
  read_line at none = done (record { line_buf = []; last_rec_offset = some at; cmp_result = below })
  read_line at (some (line, rest)) = compared at line (compare line)

  abbrev pub read_next : Text → Search → Option (Text × Text) → Read
  read_next file cb none = unexpected_eof
  read_next file cb (some (skipped, rest)) =
      let at = length file - length rest in
      if is_last cb.last_rec_offset at
      then done (record cb { line_buf = cb.line_buf ++ skipped })
      else read_line at (gets rest)

  unfoldable pub read_and_compare : Text → ℕ → Search → Read
  unfolding next_line
  read_and_compare file offset cb = read_next file cb (next_line file offset)

  abbrev pub close_window : ℕ → ℕ → ℕ → Search → Cmp → (ℕ → ℕ → Search → Found) → Found
  close_window low middle high cb equal rest = found cb.line_buf
  close_window low middle high cb above rest =
      if leb middle low then failure else rest middle high cb
  close_window low middle high cb below rest =
      if leb middle low then failure else rest low (middle - 1) cb

  abbrev pub search_next : ℕ → ℕ → ℕ → Read → (ℕ → ℕ → Search → Found) → Found
  search_next low middle high unexpected_eof rest = read_error
  search_next low middle high compare_error rest = read_error
  search_next low middle high (done cb) rest = close_window low middle high cb cb.cmp_result rest

  -- The loop of BinSearch, on fuel.
  unfoldable pub search_loop : Text → ℕ → ℕ → ℕ → Search → Found
  unfolding read_and_compare
  search_loop file zero low high cb = out_of_fuel
  search_loop file (suc f) low high cb =
      let middle = (high + low + 1) / 2 in
      search_next low middle high (read_and_compare file middle cb) (search_loop file f)

  unfoldable pub bin_search : Text → Found
  unfolding search_loop
  bin_search file = search_loop file (suc (length file)) 0 (length file) start_search
