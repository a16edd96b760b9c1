-- ===== src/Lgets/Printed.antt =====
-- lgets on what puts writes for a list of elements in braces.
use mathlib.Core.List.{append_assoc, append-nil}
use tclx.Base.{
  ℕ, zero, suc, ◌+◌, ◌<◌, ◌≡◌, refl, sym, ap, ◌∙◌, subst, Bool, true, false, Option, none, some,
  List, [], ◌∷◌, ◌++◌, map, Text, length, arith,
}
use tclx.Libc.{is_space, skip_space}
use tclx.Util.{get_open_channel}
use tclx.Interp.{Interp, value, ok}
use tclx.Lgets.{
  Gets, full_line, ReadData, read_list_line, read_list_init, init_at, read_list_element, start_scan,
  newline, leading_space,
}
use tclx.Lgets.Command.{
  ListRead, all_read, read_elements, read_initial, read_list, lgets_reply, lgets_channel, lgets_cmd,
}
use tclx.Lgets.Braced.{
  balanced, contents, StartsSpace, reading, Closes, element_loop-Closes, tail, not_empty,
}

-- The elements in braces with spaces between them, and the newline.
abbrev pub list_rest : List Text → Text
list_rest [] = newline ∷ []
list_rest (y ∷ ys) = b' ' ∷ b'{' ∷ (y ++ b'}' ∷ list_rest ys)

abbrev pub list_line : List Text → Text
list_line [] = newline ∷ []
list_line (x ∷ xs) = b'{' ∷ (x ++ b'}' ∷ list_rest xs)

-- Each element is without backslashes and has braces that match, and the fuel is enough for it.
abbrev pub Fits : ℕ → List Text → Type 0
Fits fuel [] = Unit {0}
Fits fuel (x ∷ xs) = (balanced 0 x ≡ true) × (length x + length x + 1 < fuel) × Fits fuel xs

list_rest-StartsSpace : (ys : List Text) → StartsSpace (list_rest ys)
unfolding is_space
list_rest-StartsSpace [] = refl
list_rest-StartsSpace (y ∷ ys) = refl

contents_empty : (ls : List Text) → contents ls ≡ [] → ls ≡ []
contents_empty [] h = refl
contents_empty (l ∷ ls) h = absurd (not_empty l (contents ls) newline (sym h))

skip_one : (c c' : ℕ) (t : Text) → c ≡ b' ' → c' ≡ b'{' → skip_space (c ∷ c' ∷ t) ≡ b'{' ∷ t
unfolding skip_space is_space
skip_one c c' t e e' = rw (e, e') refl

skip_brace : (c : ℕ) (t : Text) → c ≡ b'{' → skip_space (c ∷ t) ≡ b'{' ∷ t
unfolding skip_space is_space
skip_brace c t e = rw e refl

module _ (backslash : Text → ℕ × ℕ) (more : List Gets) (fuel : ℕ) where
  abbrev data_at : List Text → Text → Text → ReadData
  data_at = reading backslash more

  read_list_element-Closes :
      (y : Text) (ys : List Text) (before x : Text) (ls : List Text)
      → x ++ newline ∷ contents ls ≡ y ++ b'}' ∷ list_rest ys
      → balanced 0 y ≡ true
      → length y + length y + 1 < fuel
      → Closes backslash more y
          (list_rest ys)
          (read_list_element backslash fuel (data_at ls before (b'{' ∷ (x ++ newline ∷ []))))
  unfolding read_list_element start_scan
  read_list_element-Closes y ys before x ls e even h =
      element_loop-Closes backslash more y 0 fuel [] [] (before ++ b'{' ∷ []) x ls
        (data_at ls before (b'{' ∷ (x ++ newline ∷ []))) (list_rest ys) e even
        (list_rest-StartsSpace ys) refl h

  -- The whole list was read, and the lines behind it are left.
  abbrev Reads : List Text → ListRead → Type 0
  Reads xs r = (before : Text) × (r ≡ all_read xs (data_at [] before []))

  read_one :
      (acc : List Text) (y u : Text) (rounds : ℕ) (d : ReadData)
      (c : Closes backslash more y u (read_list_element backslash fuel d))
      → read_elements backslash fuel (suc rounds) acc d
        ≡ read_elements backslash fuel rounds
            (acc ++ y ∷ [])
            (data_at c.ls c.before (skip_space (c.x ++ newline ∷ [])))
  unfolding read_elements
  read_one acc y u rounds d c = rw (read_elements, c.runs) refl

  read_end :
      (acc : List Text) (rounds : ℕ) (before : Text)
      → Reads (acc ++ []) (read_elements backslash fuel (suc rounds) acc (data_at [] before []))
  unfolding read_elements read_list_element
  read_end acc rounds before = (before, rw (append-nil acc) refl)

  joined : {xs xs' : List Text} {r r' : ListRead} → r ≡ r' → xs' ≡ xs → Reads xs' r' → Reads xs r
  joined e same (before, runs) =
      (before, e ∙ runs ∙ ap (λ k. all_read k (data_at [] before [])) same)

  read_elements-Reads :
      (ys : List Text) (rounds : ℕ) (acc : List Text) (before x : Text) (ls : List Text)
      → x ++ newline ∷ contents ls ≡ list_rest ys
      → Fits fuel ys
      → length ys < rounds
      → Reads (acc ++ ys) (
          read_elements backslash fuel rounds acc
            (data_at ls before (skip_space (x ++ newline ∷ []))))
  unfolding skip_space is_space
  read_elements-Reads ys zero acc before x ls e fits h = absurd (omega arith)
  read_elements-Reads [] (suc rounds) acc before [] ls e fits h =
      let none_left = contents_empty ls (tail newline newline (contents ls) [] e).1 in
      subst
        (λ k. Reads (acc ++ []) (
          read_elements backslash fuel (suc rounds) acc
            (data_at k before (skip_space (newline ∷ [])))))
        (sym none_left) (read_end acc rounds before)
  read_elements-Reads [] (suc rounds) acc before (c ∷ x) ls e fits h =
      absurd (
        not_empty x (contents ls) newline
          (sym (tail c newline (x ++ newline ∷ contents ls) [] e).1))
  read_elements-Reads (y ∷ ys) (suc rounds) acc before [] ls e fits h = absurd (
      let p = (tail newline b' ' (contents ls) (b'{' ∷ (y ++ b'}' ∷ list_rest ys)) e).0 in
      omega arith)
  read_elements-Reads (y ∷ ys) (suc rounds) acc before (c ∷ []) ls e fits h =
      let r = (tail c b' ' (newline ∷ contents ls) (b'{' ∷ (y ++ b'}' ∷ list_rest ys)) e).1 in
      absurd
        (let p = (tail newline b'{' (contents ls) (y ++ b'}' ∷ list_rest ys) r).0 in omega arith)
  read_elements-Reads (y ∷ ys) (suc rounds) acc before (c ∷ c' ∷ x) ls e fits h =
      let line = x ++ newline ∷ contents ls in
      let (space, rest) = tail c b' ' (c' ∷ line) (b'{' ∷ (y ++ b'}' ∷ list_rest ys)) e in
      let (brace, inside) = tail c' b'{' line (y ++ b'}' ∷ list_rest ys) rest in
      let closes = read_list_element-Closes y ys before x ls inside fits.0 fits.1 in
      joined
        (ap (λ t. read_elements backslash fuel (suc rounds) acc (data_at ls before t))
            (skip_one c c' (x ++ newline ∷ []) space brace)
          ∙ read_one acc y (list_rest ys) rounds (data_at ls before (b'{' ∷ (x ++ newline ∷ [])))
              closes)
        (append_assoc acc (y ∷ []) ys)
        (read_elements-Reads ys rounds (acc ++ y ∷ []) closes.before closes.x closes.ls closes.left
          fits.2 (omega arith))

  read_list-line :
      (xs : List Text) (rounds : ℕ) (l : Text) (ls : List Text)
      → l ++ newline ∷ contents ls ≡ list_line xs
      → Fits fuel xs
      → length xs < rounds
      → Reads xs (
          read_elements backslash fuel rounds []
            (data_at ls (leading_space (l ++ newline ∷ [])) (skip_space (l ++ newline ∷ []))))
  unfolding skip_space is_space
  read_list-line xs zero l ls e fits h = absurd (omega arith)
  read_list-line [] (suc rounds) l ls e fits h =
      read_elements-Reads [] (suc rounds) [] (leading_space (l ++ newline ∷ [])) l ls e tt h
  read_list-line (x ∷ xs) (suc rounds) [] ls e fits h =
      absurd
        (let p = (tail newline b'{' (contents ls) (x ++ b'}' ∷ list_rest xs) e).0 in omega arith)
  read_list-line (x ∷ xs) (suc rounds) (c ∷ l) ls e fits h =
      let (brace, inside) = tail c b'{' (l ++ newline ∷ contents ls) (x ++ b'}' ∷ list_rest xs) e in
      let before = leading_space (c ∷ l ++ newline ∷ []) in
      let closes = read_list_element-Closes x xs before l ls inside fits.0 fits.1 in
      joined
        (ap (λ t. read_elements backslash fuel (suc rounds) [] (data_at ls before t))
            (skip_brace c (l ++ newline ∷ []) brace)
          ∙ read_one [] x (list_rest xs) rounds (data_at ls before (b'{' ∷ (l ++ newline ∷ [])))
              closes)
        refl
        (read_elements-Reads xs rounds (x ∷ []) closes.before closes.x closes.ls closes.left fits.2
          (omega arith))

  read_list-Reads :
      (xs : List Text) (rounds : ℕ) (ls : List Text)
      → contents ls ≡ list_line xs
      → Fits fuel xs
      → length xs < rounds
      → Reads xs (read_list backslash fuel rounds (map full_line ls ++ more))
  unfolding read_list read_initial read_list_init init_at read_list_line
  read_list-Reads [] rounds [] e fits h = cc
  read_list-Reads (x ∷ xs) rounds [] e fits h = cc
  read_list-Reads xs rounds (l ∷ ls) e fits h = read_list-line xs rounds l ls e fits h

lgets_channel-reads :
    (get_channel : Text → Option (ℕ × Bool × Bool)) (blocking : ℕ → Option Bool)
    (backslash : Text → ℕ × ℕ) (rounds fuel chan : ℕ) (file : Text) (input : ℕ → List Gets)
    (s : Interp (List Text))
    → get_open_channel get_channel file true false ≡ some chan
    → blocking chan ≡ some true
    → lgets_channel get_channel blocking backslash rounds fuel file none input s
      ≡ lgets_reply none (read_list backslash fuel rounds (input chan)) s
unfolding lgets_channel
lgets_channel-reads get_channel blocking backslash rounds fuel chan file input s opened mode =
    rw (lgets_channel, opened, mode) refl

lgets_reply-whole :
    {xs : List Text} {d : ReadData} {r : ListRead} (s : Interp (List Text))
    → r ≡ all_read xs d
    → lgets_reply none r s ≡ some (ok (value xs) s, d.input)
unfolding lgets_reply
lgets_reply-whole s runs = rw runs refl

-- Lgets without a variable, on a blocking channel that can be read and on enough fuel, returns
-- the list whose elements stand in braces, with a space between them, on one or more lines, where
-- the elements are without backslashes and have braces that match; the lines behind are left.
pub lgets_cmd-list_line :
    (get_channel : Text → Option (ℕ × Bool × Bool)) (blocking : ℕ → Option Bool)
    (backslash : Text → ℕ × ℕ) (rounds fuel chan : ℕ) (file : Text) (xs ls : List Text)
    (more : List Gets) (input : ℕ → List Gets) (s : Interp (List Text))
    → get_open_channel get_channel file true false ≡ some chan
    → blocking chan ≡ some true
    → input chan ≡ map full_line ls ++ more
    → contents ls ≡ list_line xs
    → Fits fuel xs
    → length xs < rounds
    → lgets_cmd get_channel blocking backslash rounds fuel (file ∷ []) input s
      ≡ some (ok (value xs) s, more)
unfolding lgets_cmd
lgets_cmd-list_line get_channel blocking backslash rounds fuel chan file xs ls more input s opened
      mode reads line fits h =
    let (before, runs) = read_list-Reads backslash more fuel xs rounds ls line fits h in
    lgets_channel-reads get_channel blocking backslash rounds fuel chan file input s opened mode
    ∙ lgets_reply-whole s (ap (read_list backslash fuel rounds) reads ∙ runs)
