-- ===== src/Examples/Bsearch.antt =====
-- A search in a file of three lines.
use tclx.Base.{◌≡◌, refl, Option, some, [], ◌∷◌, ◌++◌, Text, text}
use tclx.Bsearch.{
  Cmp, standard_key_compare, strcmp, first_field, gets, gets_from, next_line, read_and_compare,
  search_loop, bin_search, found,
}
use tclx.Bsearch.Loop.{Ends, Matches, bin_search-Ends, bin_search-Matches}

abbrev three_lines : Text
three_lines = text "a 1" ++ 10 ∷ text "c 2" ++ 10 ∷ text "d 3" ++ 10 ∷ []

abbrev compare_c : Text → Option Cmp
compare_c line = some (standard_key_compare (text "c") line)

bin_search-Ends_example : Ends (bin_search compare_c three_lines)
bin_search-Ends_example = bin_search-Ends compare_c three_lines

bin_search-Matches_example : Matches compare_c three_lines (bin_search compare_c three_lines)
bin_search-Matches_example = bin_search-Matches compare_c three_lines

finds_c : bin_search compare_c three_lines ≡ found (text "c 2")
unfolding bin_search search_loop read_and_compare next_line gets gets_from standard_key_compare
    strcmp first_field
finds_c = refl
