-- ===== src/Chmod/Terms.antt =====
-- ConvSymMode comes to an end: each term takes its operator off the text.
use tclx.Base.{
  ℕ, zero, suc, ◌≤◌, ◌<◌, ◌≡◌, refl, ◌⊎◌, inl, inr, Option, none, some, [], ◌∷◌, Text, ◌==◌, length,
  arith, Bool-cases, Option-cases, subst,
}
use tclx.Chmod.{
  Mode, Who, Perms, is_operator, who_char, perm_char, scan_who, scan_perms, mode_term, skip_comma,
  Conv, converted, invalid, conv_loop, conv_sym_mode, nobody, no_perms,
}

abbrev Rest : {A : Type 0} → (A → ℕ) → ℕ → Option A → Type 0
Rest size n none = Unit {0}
Rest size n (some a) = size a ≤ n

weaken :
    {A : Type 0} (size : A → ℕ) (n k : ℕ) (o : Option A) → n ≤ k → Rest size n o → Rest size k o
weaken size n k none le h = tt
weaken size n k (some a) le h = omega arith

abbrev after_operator : Who × ℕ × Text → ℕ
after_operator r = suc (length r.2)

scan_who-Rest : (s : Text) (w : Who) → Rest after_operator (length s) (scan_who s w)
unfolding scan_who
scan_who-Rest [] w = tt
scan_who-Rest (c ∷ s) w = elim (Bool-cases (is_operator c)) [
  | inl h ↦ rw h (omega arith)
  | inr h ↦ elim (Option-cases (who_char c)) [
    | inl e ↦ rw (h, e) tt
    | inr (f, e) ↦
        rw (h, e)
          (weaken after_operator (length s) (suc (length s)) (scan_who s (f w)) (omega arith)
            (scan_who-Rest s (f w)))
  ]
]

abbrev after_perms : Perms × Text → ℕ
after_perms r = length r.1

scan_perms-Rest : (s : Text) (p : Perms) → Rest after_perms (length s) (scan_perms s p)
unfolding scan_perms
scan_perms-Rest [] p = omega arith
scan_perms-Rest (c ∷ s) p = elim (Bool-cases (c == b',')) [
  | inl h ↦ rw h (omega arith)
  | inr h ↦ elim (Option-cases (perm_char c)) [
    | inl e ↦ rw (h, e) tt
    | inr (f, e) ↦
        rw (h, e)
          (weaken after_perms (length s) (suc (length s)) (scan_perms s (f p)) (omega arith)
            (scan_perms-Rest s (f p)))
  ]
]

length-skip_comma : (s : Text) → length (skip_comma s) ≤ length s
length-skip_comma [] = omega arith
length-skip_comma (c ∷ s) = ground arith

abbrev after_term : Mode × Text → ℕ
after_term r = suc (length r.1)

mode_term-Rest : (s : Text) (m : Mode) → Rest after_term (length s) (mode_term s m)
unfolding mode_term
mode_term-Rest s m = elim (Option-cases (scan_who s nobody)) [
  | inl e ↦ rw e tt
  | inr ((who, operator, rest), e) ↦
      let shorter : suc (length rest) ≤ length s =
        subst (Rest after_operator (length s)) e (scan_who-Rest s nobody) in
      elim (Option-cases (scan_perms rest no_perms)) [
        | inl e' ↦ rw (e, e') tt
        | inr (r, e') ↦
            let le : length r.1 ≤ length rest =
              subst (Rest after_perms (length rest)) e' (scan_perms-Rest rest no_perms) in
            rw (e, e') (omega (arith, length-skip_comma r.1))
      ]
]

abbrev pub Ends : Conv → Type 0
Ends c = (c ≡ invalid) ⊎ ((m : Mode) × (c ≡ converted m))

conv_loop-Ends : (f : ℕ) (s : Text) (m : Mode) → length s < f → Ends (conv_loop f s m)
unfolding conv_loop
conv_loop-Ends zero s m h = absurd (omega arith)
conv_loop-Ends (suc f) [] m h = inr (m, refl)
conv_loop-Ends (suc f) (c ∷ s) m h = elim (Option-cases (mode_term (c ∷ s) m)) [
  | inl e ↦ rw e (inl refl)
  | inr (r, e) ↦
      let shorter : suc (length r.1) ≤ length (c ∷ s) =
        subst (Rest after_term (length (c ∷ s))) e (mode_term-Rest (c ∷ s) m) in
      rw e (conv_loop-Ends f r.1 r.0 (omega arith))
]

-- ConvSymMode, on fuel one above the length of the text, ends for every text with a mode or as
-- invalid.
pub conv_sym_mode-Ends : (s : Text) (m : Mode) → Ends (conv_sym_mode s m)
unfolding conv_sym_mode
conv_sym_mode-Ends s m = conv_loop-Ends (suc (length s)) s m (omega arith)
