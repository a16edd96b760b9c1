-- ===== src/Strings/Range.antt =====
-- generic/tclXstring.c: crange and replicate.
use tclx.Base.{
  ℕ, zero, suc, ◌+◌, ◌-◌, ◌*◌, ◌≡◌, ◌≤◌, ◌<◌, refl, true, false, none, some, [], ◌∷◌, ◌++◌, Text,
  ltb, leb, if◌then◌else◌, length, replicate, take, drop, arith, ap, sym, ◌∙◌, inl, inr, Bool-cases,
  length-append,
}
use tclx.Base.Int.{ℤ, pos, pos_part, ◌+ℤ◌, ltb_ℤ}
use tclx.Interp.{Interp, nothing, value, ok}
use tclx.Util.{Arg, relative_expr}
use tclx.Strings.{
  StringApi, int_max, crange_cmd, crange_from, sub_len, substring, cconcat_cmd, cconcat_loop,
  replicate_cmd, replicate_loop,
}

take-over : (n : ℕ) (xs : Text) → length xs ≤ n → take n xs ≡ xs
take-over zero [] h = refl
take-over zero (x ∷ xs) h = absurd (omega arith)
take-over (suc n) [] h = refl
take-over (suc n) (x ∷ xs) h = ap (λ r. x ∷ r) (take-over n xs (omega arith))

length-drop : (n : ℕ) (xs : Text) → length (drop n xs) ≡ length xs - n
length-drop zero xs = omega arith
length-drop (suc n) [] = omega arith
length-drop (suc n) (x ∷ xs) = omega (arith, length-drop n xs)

range_sum : (i j : ℕ) → i ≤ j → pos i +ℤ pos (suc j - i) ≡ pos (suc j)
range_sum i j h = ground arith

ltb-false : (m n : ℕ) → n ≤ m → ltb_ℤ (pos m) (pos n) ≡ false
ltb-false m n h = ground arith

-- The characters of a string from index `i` up to and with index `j`.
abbrev pub slice : ℕ → ℕ → Text → Text
slice i j str = take (suc j - i) (drop i str)

take-both :
    (str : Text) (i j : ℕ) → length str ≤ suc j → take (length str - i) (drop i str) ≡ slice i j str
take-both str i j h =
    take-over (length str - i) (drop i str) (omega (arith, length-drop i str))
    ∙ sym (take-over (suc j - i) (drop i str) (omega (arith, length-drop i str)))

sub_len-range : (i j : ℕ) → i ≤ j → sub_len true (pos j) i ≡ some (pos (suc j - i))
unfolding sub_len
sub_len-range i j h = ground arith

substring-slice :
    (str : Text) (i j : ℕ) (s : Interp Text)
    → i ≤ j
    → i < length str
    → j + 1 ≤ int_max
    → substring str i (some (pos (suc j - i))) s ≡ ok (value (slice i j str)) s
unfolding substring
substring-slice str i j s h at bound =
    rw (range_sum i j h, ltb-false int_max (suc j) (omega arith))
      (elim (Bool-cases (ltb_ℤ (pos (length str)) (pos (suc j)))) [
        | inl past ↦ rw past (ap (λ r. ok (value r) s) (take-both str i j (ground arith)))
        | inr inside ↦ rw inside
      ])

sub_len-below : (i j : ℕ) → ltb j i ≡ true → sub_len true (pos j) i ≡ none
unfolding sub_len
sub_len-below i j h = ground arith

-- crange on a first index in the string and a last index below the largest int returns an empty
-- result if the last is before the first, else the characters between, to the end of the string
-- at most.
crange_cmd-slice :
    (api : StringApi) (str : Text) (i j : ℕ) (first last : Arg) (s : Interp Text)
    → relative_expr api.expr_long first (length str) ≡ some (pos i)
    → relative_expr api.expr_long last (length str) ≡ some (pos j)
    → i < length str
    → j < int_max
    → crange_cmd api true str first last s
      ≡ ok (if ltb j i then nothing else value (slice i j str)) s
unfolding crange_cmd crange_from
crange_cmd-slice api str i j first last s hi hj at bound =
    let inside : leb (length str) i ≡ false = ground arith in
    elim (Bool-cases (ltb j i)) [
      | inl below' ↦ rw (hi, crange_from, inside, hj, sub_len-below i j below', below', substring)
      | inr above ↦
          rw (hi, crange_from, inside, hj, sub_len-range i j (ground arith), above)
            (substring-slice str i j s (ground arith) at (omega arith))
    ]

replicate_loop-length :
    (n : ℕ) (str result : Text)
    → length (replicate_loop n str result) ≡ length result + n * length str
unfolding replicate_loop
replicate_loop-length zero str result = omega arith
replicate_loop-length (suc n) str result =
    ground (arith, replicate_loop-length n str (result ++ str), length-append result str)

append_assoc : (x y z : Text) → (x ++ y) ++ z ≡ x ++ (y ++ z)
append_assoc [] y z = refl
append_assoc (c ∷ x) y z = ap (λ r. c ∷ r) (append_assoc x y z)

replicate_loop-cconcat_loop :
    (n : ℕ) (str result : Text)
    → replicate_loop n str result ≡ cconcat_loop result (replicate n str)
unfolding replicate_loop cconcat_loop
replicate_loop-cconcat_loop zero str result = refl
replicate_loop-cconcat_loop (suc n) str result = replicate_loop-cconcat_loop n str (result ++ str)

-- replicate with a count that Tcl reads returns what cconcat returns on as many copies, none for
-- a negative count, and the result has that many times the length of the string.
replicate_cmd-copies :
    (api : StringApi) (str count : Text) (n : ℤ) (s : Interp Text)
    → api.get_long count ≡ some n
    → (result : Text) × (replicate_cmd api str count s ≡ ok (value result) s)
      × (cconcat_cmd (replicate (pos_part n) str) s ≡ ok (value result) s)
      × (length result ≡ pos_part n * length str)
unfolding replicate_cmd cconcat_cmd
replicate_cmd-copies api str count n s h = (
  replicate_loop (pos_part n) str [],
  rw h,
  ap (λ r. ok (value r) s) (sym (replicate_loop-cconcat_loop (pos_part n) str [])),
  replicate_loop-length (pos_part n) str [] ∙ omega arith,
)
