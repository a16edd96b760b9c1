-- ===== src/Lgets/Braced.antt =====
-- ReadListElement on an element in braces, over as many lines as it takes.
use mathlib.Core.List.{append_assoc, append-nil}
use tclx.Base.{
  ℕ, zero, suc, ◌+◌, ◌<◌, ◌≡◌, ◌≢◌, refl, sym, ap, ◌∙◌, Bool, true, false, Option, none, some, List,
  [], ◌∷◌, ◌++◌, map, Text, ◌==◌, if◌then◌else◌, length, arith, ==→eq, Option-cases, inl, inr,
}
use tclx.Libc.{is_space, skip_space}
use tclx.Lgets.{
  Gets, full_line, ReadData, read_list_line, Read, element, Scan, Next, finish, close_element,
  scan_close, scan_byte, continue_line, scan_end, element_loop, newline, leading_space,
}

-- The depth of braces behind a byte; `none` for a backslash and for one closing brace too many.
unfoldable pub depth_after : ℕ → ℕ → Option ℕ
depth_after b c =
    if c == 92
    then none
    else if c == b'{'
    then some (suc b)
    else if c == b'}'
    then elim b [ zero ↦ none | suc b' ↦ some b' ]
    else some b

-- The braces of a text without backslashes match, with `b` open before it.
unfoldable pub balanced : ℕ → Text → Bool
unfolding depth_after
balanced b [] = b == 0
balanced b (c ∷ t) = elim (depth_after b c) [ none ↦ false | some b' ↦ balanced b' t ]

-- What lines give together.
abbrev pub contents : List Text → Text
contents [] = []
contents (l ∷ ls) = l ++ newline ∷ contents ls

abbrev pub StartsSpace : Text → Type 0
StartsSpace [] = ⊥
StartsSpace (c ∷ u) = is_space c ≡ true

pub tail : (c e : ℕ) (s t : Text) → c ∷ s ≡ e ∷ t → (c ≡ e) × (s ≡ t)
tail c e s t h = (cc, cc)

balanced-cons :
    (b c : ℕ) (t : Text)
    → balanced b (c ∷ t) ≡ true
    → (b' : ℕ) × (depth_after b c ≡ some b') × (balanced b' t ≡ true)
unfolding balanced
balanced-cons b c t h = elim (Option-cases (depth_after b c)) [
  | inl e ↦ absurd (let p = rw (balanced, e) at h in cc)
  | inr (b', e) ↦ (b', e, rw (balanced, e) at h)
]

pub not_empty : (t u : Text) (c : ℕ) → [] ≢ t ++ c ∷ u
not_empty [] u c = λ e. cc
not_empty (a ∷ t) u c = λ e. cc

module _ (backslash : Text → ℕ × ℕ) (more : List Gets) where
  abbrev pub in_braces : ℕ → Text → Text → Text → Text → Scan
  in_braces b pending elem before rest = record {
    open_braces = suc b;
    in_quotes = false;
    pending = pending;
    elem = elem;
    before = before;
    rest = rest;
  }

  abbrev pub reading : List Text → Text → Text → ReadData
  reading ls before rest = record { input = map full_line ls ++ more; before = before; rest = rest }

  -- A byte that does not close the element.
  scan_byte-inside :
      (b b' c : ℕ) (pending elem before r : Text) (d : ReadData) (next : Next)
      → depth_after b c ≡ some b'
      → scan_byte backslash (in_braces b pending elem before (c ∷ r)) c r d next
        ≡ next (in_braces b' (pending ++ c ∷ []) elem (before ++ c ∷ []) r) d
  unfolding scan_byte scan_close depth_after
  scan_byte-inside zero b' c pending elem before r d next h = ground arith
  scan_byte-inside (suc b) b' c pending elem before r d next h = ground arith

  -- The element was read up to where `u` is left, in the line of which `x` and the newline are left.
  pub record Closes (text : Text) (u : Text) (r : Read) : Type 0 where
    pub before : Text
    pub x : Text
    pub ls : List Text
    pub runs : r ≡ element text (reading ls before (skip_space (x ++ newline ∷ [])))
    pub left : x ++ newline ∷ contents ls ≡ u

  close_element-Closes :
      (pending elem before x : Text) (ls : List Text) (d : ReadData) (u : Text)
      → x ++ newline ∷ contents ls ≡ u
      → StartsSpace u
      → d.input ≡ map full_line ls ++ more
      → Closes
          (elem ++ pending)
          u
          (close_element (in_braces 0 pending elem before (x ++ newline ∷ [])) d)
  unfolding close_element finish
  close_element-Closes pending elem before [] ls d u e space reads = record {
    before = before ++ leading_space (newline ∷ []);
    x = [];
    ls = ls;
    runs = rw reads refl;
    left = e;
  }
  close_element-Closes pending elem before (c ∷ x) ls d [] e space reads = absurd space
  close_element-Closes pending elem before (c ∷ x) ls d (c' ∷ u) e space reads =
      let same : c' ≡ c = sym (tail c c' (x ++ newline ∷ contents ls) u e).0 in
      let is : is_space c ≡ true = rw same at space in
      record {
        before = before ++ leading_space (c ∷ x ++ newline ∷ []);
        x = c ∷ x;
        ls = ls;
        runs = rw (close_element, is, reads) refl;
        left = e;
      }

  scan_byte-close :
      (b c : ℕ) (pending elem before r : Text) (d : ReadData) (next : Next)
      → b ≡ 0
      → c ≡ b'}'
      → scan_byte backslash (in_braces b pending elem before (c ∷ r)) c r d next
        ≡ close_element (in_braces 0 pending elem (before ++ c ∷ []) r) d
  unfolding scan_byte scan_close
  scan_byte-close b c pending elem before r d next none_open e = rw (none_open, e) refl

  scan_end-line :
      (b : ℕ) (pending elem before l : Text) (gs : List Gets) (d : ReadData) (next : Next)
      → d.input ≡ full_line l ∷ gs
      → scan_end (in_braces b pending elem before []) d next
        ≡ next
            (in_braces b pending elem before (l ++ newline ∷ []))
            (record { input = gs; before = before; rest = l ++ newline ∷ [] })
  unfolding scan_end continue_line read_list_line
  scan_end-line b pending elem before l gs d next reads =
      let open_now : (suc b == 0) ≡ false = ground arith in rw (open_now, reads) refl

  -- A byte goes over to the text.
  extend :
      (pending elem u t : Text) (c c' : ℕ) {r r' : Read}
      → c' ≡ c
      → r ≡ r'
      → Closes (elem ++ ((pending ++ c' ∷ []) ++ t)) u r'
      → Closes (elem ++ (pending ++ c ∷ t)) u r
  extend pending elem u t c c' same e closes =
      let joined : (pending ++ c' ∷ []) ++ t ≡ pending ++ c ∷ t =
        append_assoc pending (c' ∷ []) t ∙ ap (λ k. pending ++ k ∷ t) same in
      record {
        before = closes.before;
        x = closes.x;
        ls = closes.ls;
        runs =
            e
            ∙ closes.runs
            ∙ ap
                (λ k.
                  element (elem ++ k)
                    (reading closes.ls closes.before (skip_space (closes.x ++ newline ∷ []))))
                joined;
        left = closes.left;
      }

  pub element_loop-Closes :
      (t : Text) (b fuel : ℕ) (pending elem before x : Text) (ls : List Text) (d : ReadData)
      (u : Text)
      → x ++ newline ∷ contents ls ≡ t ++ b'}' ∷ u
      → balanced b t ≡ true
      → StartsSpace u
      → d.input ≡ map full_line ls ++ more
      → length t + length t + 1 < fuel
      → Closes
          (elem ++ (pending ++ t))
          u
          (element_loop backslash fuel (in_braces b pending elem before (x ++ newline ∷ [])) d)
  unfolding element_loop balanced
  element_loop-Closes t b zero pending elem before x ls d u e even space reads h =
      absurd (omega arith)
  element_loop-Closes [] b (suc fuel) pending elem before [] ls d u e even space reads h =
      absurd (let p = (tail newline b'}' (contents ls) u e).0 in omega arith)
  element_loop-Closes [] b (suc fuel) pending elem before (c ∷ x) ls d u e even space reads h =
      let (brace, rest) = tail c b'}' (x ++ newline ∷ contents ls) u e in
      let closes = close_element-Closes pending elem (before ++ c ∷ []) x ls d u rest space reads in
      let e' =
        scan_byte-close b c pending elem before (x ++ newline ∷ []) d (element_loop backslash fuel)
          (==→eq b 0 even) brace in
      record {
        before = closes.before;
        x = closes.x;
        ls = closes.ls;
        runs =
            e'
            ∙ closes.runs
            ∙ ap
                (λ k.
                  element (elem ++ k)
                    (reading closes.ls closes.before (skip_space (closes.x ++ newline ∷ []))))
                (sym (append-nil pending));
        left = closes.left;
      }
  element_loop-Closes (c ∷ t) b (suc zero) pending elem before x ls d u e even space reads h =
      absurd (omega arith)
  element_loop-Closes (c ∷ t) b (suc (suc fuel)) pending elem before [] [] d u e even space reads
        h =
      absurd (not_empty t u b'}' (tail newline c [] (t ++ b'}' ∷ u) e).1)
  element_loop-Closes (c ∷ t) b (suc (suc fuel)) pending elem before [] (l ∷ ls) d u e even space
        reads h =
      let (nl, rest) = tail newline c (contents (l ∷ ls)) (t ++ b'}' ∷ u) e in
      let (b', deep, even') = balanced-cons b c t even in
      let before' = before ++ newline ∷ [] in
      let after = pending ++ newline ∷ [] in
      extend pending elem u t c newline nl
        (scan_byte-inside b b' newline pending elem before [] d (element_loop backslash (suc fuel))
            (ap (depth_after b) nl ∙ deep)
          ∙ scan_end-line b' after elem before' l (map full_line ls ++ more) d
              (element_loop backslash fuel) reads)
        (element_loop-Closes t b' fuel after elem before' l ls
          (reading ls before' (l ++ newline ∷ [])) u rest even' space refl (omega arith))
  element_loop-Closes (c ∷ t) b (suc (suc fuel)) pending elem before (c' ∷ x) ls d u e even space
        reads h =
      let (same, rest) = tail c' c (x ++ newline ∷ contents ls) (t ++ b'}' ∷ u) e in
      let (b', deep, even') = balanced-cons b c t even in
      extend pending elem u t c c' same
        (scan_byte-inside b b' c' pending elem before (x ++ newline ∷ []) d
          (element_loop backslash (suc fuel)) (ap (depth_after b) same ∙ deep))
        (element_loop-Closes t b' (suc fuel) (pending ++ c' ∷ []) elem (before ++ c' ∷ []) x ls d u
          rest even' space reads (omega arith))
