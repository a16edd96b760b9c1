-- ===== src/Strings/Compare.antt =====
-- generic/tclXstring.c: cequal and ccollate.
use tclx.Base.{
  zero, suc, ◌≡◌, refl, Bool, true, false, [], ◌∷◌, Text, text_eq_refl, text_eq→eq, has, arith,
  subst, sym,
}
use tclx.Base.Int.{ℤ, pos, negsuc}
use tclx.Interp.{Interp, Reply, bool, int, Outcome, ok}
use tclx.Strings.{StringApi, cequal_cmd, ccollate, c_string, strcmp, sign}

-- cequal answers 1 on equal strings.
cequal-equal : (x : Text) (s : Interp Text) → cequal_cmd x x s ≡ ok (bool true) s
unfolding cequal_cmd
cequal-equal x s = ground (arith, text_eq_refl x)

abbrev Answer : Type 0
Answer = Outcome Text (Reply Text)

answer :
    (b : Bool) (s s' : Interp Text)
    → ◌≡◌ {A = Answer} (ok (bool b) s) (ok (bool true) s')
    → b ≡ true
answer b s s' h = cc

-- cequal answers 1 on equal strings, and strings on which it answers 1 are equal.
cequal_cmd-equal :
    (x y : Text) (s : Interp Text)
    → (x ≡ y → cequal_cmd x y s ≡ ok (bool true) s) × (cequal_cmd x y s ≡ ok (bool true) s → x ≡ y)
unfolding cequal_cmd
cequal_cmd-equal x y s = (
  λ e. rw (sym e) (cequal-equal x s),
  λ h. text_eq→eq x y (let both = answer _ s s h in ground arith),
)

c_string-plain : (x : Text) → has 0 x ≡ false → c_string x ≡ x
unfolding c_string
c_string-plain [] h = refl
c_string-plain (c ∷ x) h = ground (arith, c_string-plain x)

strcmp_refl : (x : Text) → strcmp x x ≡ pos 0
unfolding strcmp
strcmp_refl [] = refl
strcmp_refl (c ∷ x) = ground (arith, strcmp_refl x)

strcmp-equal : (x y : Text) → strcmp x y ≡ pos 0 → x ≡ y
unfolding strcmp
strcmp-equal [] [] h = refl
strcmp-equal [] (d ∷ y) h = ground arith
strcmp-equal (c ∷ x) [] h = ground arith
strcmp-equal (c ∷ x) (d ∷ y) h = ground (arith, strcmp-equal x y)

-- The sign of a comparison the other way round.
unfoldable pub flip : ℤ → ℤ
flip (pos zero) = pos 0
flip (pos (suc n)) = negsuc 0
flip (negsuc n) = pos 1

strcmp-flip : (x y : Text) → strcmp y x ≡ flip (strcmp x y)
unfolding strcmp flip
strcmp-flip [] [] = refl
strcmp-flip [] (d ∷ y) = refl
strcmp-flip (c ∷ x) [] = refl
strcmp-flip (c ∷ x) (d ∷ y) = ground (arith, strcmp-flip x y)

strcmp-sign : (x y : Text) → sign (strcmp x y) ≡ strcmp x y
unfolding strcmp
strcmp-sign [] [] = refl
strcmp-sign [] (d ∷ y) = refl
strcmp-sign (c ∷ x) [] = refl
strcmp-sign (c ∷ x) (d ∷ y) = ground (arith, strcmp-sign x y)

-- ccollate without -local on strings without a NUL returns a number that is 0 exactly on equal
-- strings and whose sign flips when the strings are swapped.
ccollate-order :
    (api : StringApi) (x y : Text) (s : Interp Text)
    → has 0 x ≡ false
    → has 0 y ≡ false
    → (n : ℤ) × (ccollate api false x y s ≡ ok (int n) s)
      × (ccollate api false y x s ≡ ok (int (flip n)) s)
      × (n ≡ pos 0 → x ≡ y)
      × (x ≡ y → n ≡ pos 0)
unfolding ccollate
ccollate-order api x y s hx hy = (
  strcmp x y,
  rw (hx, c_string-plain x hx, c_string-plain y hy, strcmp-sign x y),
  rw (hy, c_string-plain x hx, c_string-plain y hy, strcmp-sign y x, strcmp-flip x y),
  strcmp-equal x y,
  λ e. subst (λ z. strcmp x z ≡ pos 0) e (strcmp_refl x),
)
