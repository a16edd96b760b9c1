-- ===== src/Lists/Assign.antt =====
-- lassign: what the variables hold behind it.
use tclx.Base.{
  ℕ, zero, suc, ◌≡◌, refl, true, false, Option, none, some, List, [], ◌∷◌, ◌++◌, Text, text_eq,
  text_eq_refl, length, drop, get_elem?, arith, Bool-cases, inl, inr, ap, ◌∙◌, if◌then◌else◌,
}
use tclx.Interp.{Interp, ok, set_var}
use tclx.Lists.Search.{assign_loop, lcontain_loop, lassign_cmd, remaining}
use tclx.Tcl.{ListApi}

abbrev pub or_empty : Option Text → Text
or_empty none = []
or_empty (some v) = v

abbrev stored : Text → Text → Interp Text → Interp Text
stored name v s = record s { vars = λ n. if text_eq name n then some v else s.vars n }

unfoldable pub assigned : List Text → List Text → Interp Text → Interp Text
assigned [] vs s = s
assigned (name ∷ names) [] s = assigned names [] (stored name [] s)
assigned (name ∷ names) (v ∷ vs) s = assigned names vs (stored name v s)

drop-nil : (n : ℕ) → drop {A = Text} n [] ≡ []
drop-nil zero = refl
drop-nil (suc n) = refl

assign_loop-assigned :
    (names vs : List Text) (s : Interp Text)
    → ((n : Text) → s.settable n ≡ true)
    → assign_loop names vs s ≡ ok (drop (length names) vs) (assigned names vs s)
unfolding assign_loop assigned set_var
assign_loop-assigned [] vs s h = refl
assign_loop-assigned (name ∷ names) [] s h = rw (h name) (
    assign_loop-assigned names [] (stored name [] s) h
    ∙ ap (λ r. ok r (assigned names [] (stored name [] s))) (drop-nil (length names)))
assign_loop-assigned (name ∷ names) (v ∷ vs) s h =
    rw (h name) (assign_loop-assigned names vs (stored name v s) h)

vars-stored :
    (name n v : Text) (s : Interp Text)
    → text_eq name n ≡ false
    → (stored name v s).vars n ≡ s.vars n
vars-stored name n v s h = rw h refl

assigned-vars_other :
    (names vs : List Text) (n : Text) (s : Interp Text)
    → lcontain_loop n names ≡ false
    → (assigned names vs s).vars n ≡ s.vars n
unfolding assigned lcontain_loop
assigned-vars_other [] vs n s h = refl
assigned-vars_other (name ∷ names) [] n s h = elim (Bool-cases (text_eq name n)) [
  | inl same ↦ absurd (ground arith)
  | inr other ↦
      assigned-vars_other names [] n (stored name [] s) (ground arith)
      ∙ vars-stored name n [] s other
]
assigned-vars_other (name ∷ names) (v ∷ vs) n s h = elim (Bool-cases (text_eq name n)) [
  | inl same ↦ absurd (ground arith)
  | inr other ↦
      assigned-vars_other names vs n (stored name v s) (ground arith) ∙ vars-stored name n v s other
]

assigned-vars :
    (front back vs : List Text) (n : Text) (s : Interp Text)
    → lcontain_loop n back ≡ false
    → (assigned (front ++ n ∷ back) vs s).vars n ≡ some (or_empty (get_elem? vs (length front)))
unfolding assigned
assigned-vars [] back [] n s h =
    assigned-vars_other back [] n (stored n [] s) h ∙ rw (text_eq_refl n) refl
assigned-vars [] back (v ∷ vs) n s h =
    assigned-vars_other back vs n (stored n v s) h ∙ rw (text_eq_refl n) refl
assigned-vars (name ∷ front) back [] n s h = assigned-vars front back [] n (stored name [] s) h
assigned-vars (name ∷ front) back (v ∷ vs) n s h = assigned-vars front back vs n (stored name v s) h

-- Where every variable can be set, lassign on a list succeeds and returns the elements past the
-- variables, a variable holds behind it the element at its last place among the names, or an
-- empty string past the end of the list, and the other variables are as before.
pub lassign_cmd-assigns :
    (L : ListApi) (list : Text) (first : Text) (names vs : List Text) (s : Interp Text)
    → L.elements list ≡ some vs
    → ((n : Text) → s.settable n ≡ true)
    → (s' : Interp Text) × (lassign_cmd L list (first ∷ names) s
        ≡ ok (remaining (drop (suc (length names)) vs)) s')
      × ((front back : List Text) (n : Text)
          → first ∷ names ≡ front ++ n ∷ back
          → lcontain_loop n back ≡ false
          → s'.vars n ≡ some (or_empty (get_elem? vs (length front))))
      × ((n : Text) → lcontain_loop n (first ∷ names) ≡ false → s'.vars n ≡ s.vars n)
unfolding lassign_cmd
lassign_cmd-assigns L list first names vs s h settable = (
  assigned (first ∷ names) vs s,
  rw (h, assign_loop-assigned (first ∷ names) vs s settable) refl,
  (λ front back n e later.
      ap (λ ns. (assigned ns vs s).vars n) e ∙ assigned-vars front back vs n s later),
  (λ n other. assigned-vars_other (first ∷ names) vs n s other),
)
