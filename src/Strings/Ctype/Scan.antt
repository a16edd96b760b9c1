-- ===== src/Strings/Ctype/Scan.antt =====
-- Where the loop of a class ends, and what ctype -failindex leaves.
use tclx.Base.{
  ℕ, zero, suc, ◌+◌, ◌≡◌, ◌≤◌, ◌<◌, Bool, true, false, not, ◌&&◌, Option, none, some, [], ◌∷◌, Text,
  text_eq, text_eq_refl, ◌==◌, if◌then◌else◌, length, get_elem?, arith, ap, subst, ◌∙◌, Bool-cases,
  Option-cases, inl, inr,
}
use tclx.Libc.{decimal}
use tclx.Interp.{Interp, bool, ok, set_var}
use tclx.Strings.Ctype.{class_loop, class_reply, fail_reply, ctype_test}

-- The characters before index `i` are in the class, and that at `i`, if there is one, is not.
pub record FirstFail (test : ℕ → Option Bool) (str : Text) (i : ℕ) : Type 0 where
  pub inside : i ≤ length str
  pub before : (j c : ℕ) → j < i → get_elem? str j ≡ some c → test c ≡ some true
  pub fails : (c : ℕ) → get_elem? str i ≡ some c → test c ≡ some false

-- The test supports every character of a string.
unfoldable pub supported : (ℕ → Option Bool) → Text → Bool
supported test [] = true
supported test (c ∷ str) = elim (test c) [ none ↦ false | some b ↦ supported test str ]

supported-known :
    (test : ℕ → Option Bool) (c : ℕ) (str : Text)
    → supported test (c ∷ str) ≡ true
    → (b : Bool) × (test c ≡ some b) × (supported test str ≡ true)
unfolding supported
supported-known test c str h = elim (Option-cases (test c)) [
  | inl unknown ↦ ground arith
  | inr (b, known) ↦ (b, known, rw (known, supported) at h)
]

FirstFail-cons :
    (test : ℕ → Option Bool) (c i : ℕ) (str : Text)
    → test c ≡ some true
    → FirstFail test str i
    → FirstFail test (c ∷ str) (suc i)
FirstFail-cons test c i str in_class f = record {
  inside = omega (arith, f.inside);
  before = go;
  fails = f.fails;
}
  where
    go : (j d : ℕ) → j < suc i → get_elem? (c ∷ str) j ≡ some d → test d ≡ some true
    go zero d lt e = let same : c ≡ d = cc in subst (λ x. test x ≡ some true) same in_class
    go (suc j) d lt e = f.before j d (omega arith) e

FirstFail-zero :
    (test : ℕ → Option Bool) (c : ℕ) (str : Text) → test c ≡ some false → FirstFail test (c ∷ str) 0
FirstFail-zero test c str out = record {
  inside = omega arith;
  before = λ j d lt. absurd (omega arith);
  fails = λ d e. let same : c ≡ d = cc in subst (λ x. test x ≡ some false) same out;
}

class_loop-step :
    (test : ℕ → Option Bool) (k c : ℕ) (str : Text) (b : Bool)
    → test c ≡ some b
    → class_loop test k (c ∷ str) ≡ (if b then class_loop test (suc k) str else some k)
unfolding class_loop
class_loop-step test k c str b known = rw (known, class_loop)

class_loop-FirstFail :
    (test : ℕ → Option Bool) (k : ℕ) (str : Text)
    → supported test str ≡ true
    → (i : ℕ) × (class_loop test k str ≡ some (k + i)) × FirstFail test str i
unfolding class_loop
class_loop-FirstFail test k [] h = (
  0,
  ap some (omega arith),
  record { inside = omega arith; before = λ j c lt. absurd (omega arith); fails = λ c e. cc },
)
class_loop-FirstFail test k (c ∷ str) h =
    let (b, known, rest) = supported-known test c str h in
    elim (Bool-cases b) [
      | inl yes' ↦
          let (i, runs, f) = class_loop-FirstFail test (suc k) str rest in
          let shift : suc k + i ≡ k + suc i = omega arith in
          (
            suc i,
            class_loop-step test k c str b known ∙ rw yes' (runs ∙ ap some shift),
            FirstFail-cons test c i str (known ∙ ap some yes') f,
          )
      | inr no' ↦
          let shift : k ≡ k + 0 = omega arith in
          (
            0,
            class_loop-step test k c str b known ∙ rw no' (ap some shift),
            FirstFail-zero test c str (known ∙ ap some no'),
          )
    ]

abbrev in_whole : ℕ → Text → Bool
in_whole i str = not (i == 0) && i == length str

fail_reply-runs :
    (name : Text) (i : ℕ) (s : Interp Text)
    → s.settable name ≡ true
    → (s' : Interp Text) × (fail_reply (some name) i s ≡ ok (bool false) s')
      × (s'.vars name ≡ some (decimal i))
unfolding fail_reply set_var
fail_reply-runs name i s can = (
  record s { vars = λ n. if text_eq name n then some (decimal i) else s.vars n },
  rw can,
  rw text_eq_refl,
)

-- On a string of supported characters and a variable that can be set, ctype -failindex with the
-- test of a class answers 1 exactly when the string is not empty and every character is in the
-- class, and else stores the decimal of the first index whose character is not, or 0 for an empty
-- string.
pub ctype_test-FirstFail :
    (test : ℕ → Option Bool) (name str : Text) (s : Interp Text)
    → supported test str ≡ true
    → s.settable name ≡ true
    → (i : ℕ) × (s' : Interp Text) × FirstFail test str i
      × (ctype_test (some name) str (some test) s ≡ ok (bool (not (i == 0) && i == length str)) s')
      × ((not (i == 0) && i == length str) ≡ false → s'.vars name ≡ some (decimal i))
unfolding ctype_test class_reply
ctype_test-FirstFail test name str s h can =
    let (i, runs, f) = class_loop-FirstFail test 0 str h in
    let found : class_loop test 0 str ≡ some i = runs ∙ ap some (omega arith) in
    elim (Bool-cases (in_whole i str)) [
      | inl yes' ↦ (i, s, f, rw (found, yes'), λ no. ground arith)
      | inr no' ↦
          let (s', sets, stored) = fail_reply-runs name i s can in
          (i, s', f, rw (found, no') sets, λ no. stored)
    ]
