-- ===== src/Examples/Commands.antt =====
-- The theorems on keylset and keylget, at a variable that holds {b 1}.
use tclx.Base.{◌≡◌, refl, true, false, none, some, [], ◌∷◌, Text, text_eq, if◌then◌else◌, subst}
use tclx.Examples.Tables.{tables, lists, format, TextTable}
use tclx.Interp.{Interp, Reply, nothing, value, bad_key, Outcome, ok, error, overflow}
use tclx.KeyedList.{Obj, plain, keyed_list_set, validate_key, split_key}
use tclx.KeyedList.Sound.{IsSound}
use tclx.KeyedList.Commands.{keylset_cmd, keylget_cmd}
use tclx.KeyedList.Commands.Variable.{SoundVar, keylset_cmd-kept, keylget_cmd-keylset_cmd}

abbrev name : Text
name = b'v' ∷ []

abbrev path : Text
path = b'a' ∷ b'.' ∷ b'b' ∷ []

abbrev content : Obj TextTable
content = plain (format (format ((b'b' ∷ []) ∷ (b'1' ∷ []) ∷ []) ∷ []))

abbrev start : Interp (Obj TextTable)
start = record { vars = λ n. if text_eq name n then some content else none; settable = λ n. true }

abbrev left_by : Outcome (Obj TextTable) (Reply (Obj TextTable)) → Interp (Obj TextTable)
left_by (ok r s) = s
left_by (error e s) = s
left_by overflow = start

some_equal : (x y : Obj TextTable) → some x ≡ some y → x ≡ y
some_equal x y h = cc

start_sound : SoundVar tables lists start name
start_sound obj h = subst (IsSound tables lists) (some_equal content obj h) tt

unfoldable after : Interp (Obj TextTable)
unfolding keylset_cmd
after = left_by (keylset_cmd tables lists false (λ i. false) name ((path, plain path) ∷ []) start)

set_runs :
    keylset_cmd tables lists false (λ i. false) name ((path, plain path) ∷ []) start
    ≡ ok nothing after
unfolding after keylset_cmd keyed_list_set split_key
set_runs = refl

keylget_cmd-keylset_cmd_example :
    keylget_cmd tables lists (name ∷ path ∷ []) after ≡ ok (value (plain path)) after
keylget_cmd-keylset_cmd_example =
    keylget_cmd-keylset_cmd tables lists false (λ i. false) name path (plain path) start after
      start_sound set_runs

-- keylset of an empty key fails.
unfoldable after_failure : Interp (Obj TextTable)
unfolding keylset_cmd
after_failure =
    left_by (keylset_cmd tables lists true (λ i. false) name (([], plain path) ∷ []) start)

set_fails :
    keylset_cmd tables lists true (λ i. false) name (([], plain path) ∷ []) start
    ≡ error bad_key after_failure
unfolding after_failure keylset_cmd keyed_list_set validate_key
set_fails = refl

keylset_cmd-kept_example : after_failure ≡ start
keylset_cmd-kept_example =
    keylset_cmd-kept tables lists (λ i. false) name [] (plain path) [] start after_failure set_fails
