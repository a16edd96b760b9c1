-- ===== src/Examples/Lgets.antt =====
-- A list of two elements on two lines, one of them with a newline inside.
use tclx.Base.{
  ℕ, ◌≡◌, refl, Bool, true, false, Option, none, some, List, [], ◌∷◌, ◌++◌, map, Text, text, arith,
}
use tclx.Util.{get_open_channel}
use tclx.Interp.{Interp, ok, value}
use tclx.Lgets.{Gets, full_line, newline}
use tclx.Lgets.Command.{read_list, lgets_cmd}
use tclx.Lgets.Ends.{Ended, read_list-Ended}
use tclx.Lgets.Braced.{balanced, depth_after}
use tclx.Lgets.Printed.{lgets_cmd-list_line}

abbrev broken : Text
broken = b'c' ∷ newline ∷ b'd' ∷ []

abbrev lists : List Text
lists = text "a b" ∷ broken ∷ []

abbrev lines : List Text
lines = text "{a b} {c" ∷ text "d}" ∷ []

abbrev line_behind : List Gets
line_behind = full_line (text "e") ∷ []

abbrev channel : List Gets
channel = map full_line lines ++ line_behind

-- A backslash stands for the newline, and is one byte.
abbrev one_byte : Text → ℕ × ℕ
one_byte t = (newline, 1)

abbrev get_channel : Text → Option (ℕ × Bool × Bool)
get_channel t = some (7, true, true)

abbrev unset : Interp (List Text)
unset = record { vars = λ k. none; settable = λ k. true }

readable : get_open_channel get_channel (text "file") true false ≡ some 7
unfolding get_open_channel
readable = refl

spaced : balanced 0 (text "a b") ≡ true
unfolding balanced depth_after
spaced = refl

over_lines : balanced 0 broken ≡ true
unfolding balanced depth_after
over_lines = refl

read_list-Ended_example : Ended (read_list one_byte 30 30 channel)
read_list-Ended_example =
    read_list-Ended one_byte (λ t. omega arith) 30 30 channel (omega arith) (omega arith)

lgets_cmd-list_line_example :
    lgets_cmd get_channel (λ c. some true) one_byte 9 9 (text "file" ∷ []) (λ c. channel) unset
    ≡ some (ok (value lists) unset, line_behind)
lgets_cmd-list_line_example =
    lgets_cmd-list_line get_channel (λ c. some true) one_byte 9 9 7 (text "file") lists lines
      line_behind (λ c. channel) unset readable refl refl refl
      (spaced, omega arith, (over_lines, omega arith, tt)) (omega arith)
