-- ===== src/Bsearch/Command.antt =====
-- The bsearch command, on the contents of the channel.
use tclx.Base.{true, false, Option, none, some, [], ◌∷◌, Text}
use tclx.Interp.{
  Interp, Reply, nothing, value, bool, search_error, Outcome, ok, error, overflow, set_var,
}
use tclx.Strings.{Str}
use tclx.Bsearch.{
  Cmp, standard_key_compare, Found, found, failure, read_error, out_of_fuel, bin_search,
}

-- Without a comparison procedure the standard comparison is used.
unfoldable pub key_compare : Text → Option (Text → Option Cmp) → Text → Option Cmp
unfolding standard_key_compare
key_compare key none line = some (standard_key_compare key line)
key_compare key (some proc) line = proc line

-- An empty name is no variable.
abbrev return_variable : Option Text → Option Text
return_variable none = none
return_variable (some []) = none
return_variable (some (c ∷ s)) = some (c ∷ s)

-- A variable that cannot be set leaves a message, but the command returns TCL_OK.
abbrev stored_or_ok : Interp Text → Outcome Text (Unit {0}) → Outcome Text (Reply Text)
stored_or_ok s (ok u s') = ok (bool true) s'
stored_or_ok s (error e s') = ok nothing s'
stored_or_ok s overflow = overflow

unfoldable pub search_reply : Option Text → Found → Str
unfolding set_var
search_reply none failure s = ok nothing s
search_reply (some name) failure s = ok (bool false) s
search_reply name read_error s = error search_error s
search_reply name out_of_fuel s = overflow
search_reply none (found line) s = ok (value line) s
search_reply (some name) (found line) s = stored_or_ok s (set_var name line s)

-- bsearch handle key ?retvar? ?compare_proc?
unfoldable pub bsearch_cmd : Text → Text → Option Text → Option (Text → Option Cmp) → Str
unfolding key_compare bin_search search_reply
bsearch_cmd file key name proc =
    search_reply (return_variable name) (bin_search (key_compare key proc) file)
