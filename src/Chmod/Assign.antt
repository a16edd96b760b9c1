-- ===== src/Chmod/Assign.antt =====
-- The operator `=` of a symbolic mode against the operator `+`.
use tclx.Base.{
  ℕ, zero, suc, ◌≡◌, refl, sym, Bool, true, false, ◌&&◌, ◌||◌, ◌⊎◌, inl, inr, Option, none, some,
  [], ◌∷◌, Text, ◌==◌, length, arith, Bool-cases, Option-cases, if◌then◌else◌, ap, ◌∙◌, ==→eq,
}
use tclx.Chmod.{
  Mode, Who, Perms, is_operator, who_char, perm_char, scan_who, scan_perms, read_perms, finish_term,
  mode_term, skip_comma, conv_next, conv_loop, conv_sym_mode, nobody, no_perms, apply_mode,
  new_mode, ugo_mask, default_who,
}

abbrev plus_for : ℕ → ℕ
plus_for c = if c == b'=' then b'+' else c

-- The mode with `+` in place of each `=`.
unfoldable pub with_plus : Text → Text
with_plus [] = []
with_plus (c ∷ s) = plus_for c ∷ with_plus s

length-with_plus : (s : Text) → length (with_plus s) ≡ length s
unfolding with_plus
length-with_plus [] = refl
length-with_plus (c ∷ s) = ap suc (length-with_plus s)

abbrev who_with_plus : Option (Who × ℕ × Text) → Option (Who × ℕ × Text)
who_with_plus none = none
who_with_plus (some (w, c, s)) = some (w, plus_for c, with_plus s)

abbrev rest_with_plus {ℓ} : {A : Type ℓ} → Option (A × Text) → Option (A × Text)
rest_with_plus none = none
rest_with_plus (some (a, s)) = some (a, with_plus s)

operator_or_same : (c : ℕ) → (is_operator c ≡ true) ⊎ ((is_operator c ≡ false) × (plus_for c ≡ c))
operator_or_same c = elim (Bool-cases (is_operator c)) [
  | inl h ↦ inl h
  | inr h ↦ inr (h, ground arith)
]

scan_who-with_plus : (s : Text) (w : Who) → scan_who (with_plus s) w ≡ who_with_plus (scan_who s w)
unfolding scan_who with_plus
scan_who-with_plus [] w = refl
scan_who-with_plus (c ∷ s) w = elim (operator_or_same c) [
  | inl h ↦ let h' : is_operator (plus_for c) ≡ true = ground arith in rw (h, h') refl
  | inr (h, same) ↦ elim (Option-cases (who_char c)) [
    | inl e ↦ rw (same, h, e) refl
    | inr (f, e) ↦ rw (same, h, e) (scan_who-with_plus s (f w))
  ]
]

-- A character is kept, or neither it nor its replacement is a permission or a comma.
kept_or_bad :
    (c : ℕ)
    → (plus_for c ≡ c)
      ⊎ ((perm_char c ≡ none)
          × (perm_char (plus_for c) ≡ none)
          × ((c == b',') ≡ false)
          × ((plus_for c == b',') ≡ false))
unfolding perm_char
kept_or_bad c = elim (Bool-cases (c == b'=')) [
  | inr other ↦ inl (rw other refl)
  | inl assigns ↦ let e = ==→eq c b'=' assigns in inr (rw e (refl, refl, refl, refl))
]

scan_perms-with_plus :
    (s : Text) (p : Perms) → scan_perms (with_plus s) p ≡ rest_with_plus (scan_perms s p)
unfolding scan_perms with_plus
scan_perms-with_plus [] p = refl
scan_perms-with_plus (c ∷ s) p = elim (kept_or_bad c) [
  | inr (bad, bad', no_comma, no_comma') ↦ rw (bad, bad', no_comma, no_comma') refl
  | inl same ↦ elim (Bool-cases (c == b',')) [
    | inl h ↦ rw (same, h) (ap (λ d. some (p, d ∷ with_plus s)) (sym same))
    | inr h ↦ elim (Option-cases (perm_char c)) [
      | inl e ↦ rw (same, h, e) refl
      | inr (f, e) ↦ rw (same, h, e) (scan_perms-with_plus s (f p))
    ]
  ]
]

skip_comma-with_plus : (s : Text) → skip_comma (with_plus s) ≡ with_plus (skip_comma s)
unfolding with_plus
skip_comma-with_plus [] = refl
skip_comma-with_plus (c ∷ s) = elim (kept_or_bad c) [
  | inr (bad, bad', no_comma, no_comma') ↦ rw (no_comma, no_comma') refl
  | inl same ↦ elim (Bool-cases (c == b',')) [
    | inl h ↦ rw (same, h) refl
    | inr h ↦ rw (same, h) (ap (λ d. d ∷ with_plus s) (sym same))
  ]
]

assigned_bit : (a b c : Bool) → a || c ≡ a || ((a && b) || c)
assigned_bit true b c = refl
assigned_bit false b c = refl

apply_mode-plus :
    (c : ℕ) (mask new m : Mode) → apply_mode (plus_for c) mask new m ≡ apply_mode c mask new m
unfolding apply_mode
apply_mode-plus c mask new m = elim (Bool-cases (c == b'=')) [
  | inr other ↦ let same : plus_for c ≡ c = rw other refl in ap (λ d. apply_mode d mask new m) same
  | inl assigns ↦
      let e = ==→eq c b'=' assigns in rw e (λ i n. assigned_bit (m n) (mask n) (new n) i)
]

finish_term-with_plus :
    (c : ℕ) (w : Who) (m : Mode) (o : Option (Perms × Text))
    → finish_term (plus_for c) w m (rest_with_plus o) ≡ rest_with_plus (finish_term c w m o)
finish_term-with_plus c w m none = refl
finish_term-with_plus c w m (some (p, s)) =
    ap (λ n. some (n, skip_comma (with_plus s))) (apply_mode-plus c (ugo_mask w) (new_mode w p) m)
    ∙ ap (λ t. some (apply_mode c (ugo_mask w) (new_mode w p) m, t)) (skip_comma-with_plus s)

mode_term-with_plus :
    (s : Text) (m : Mode) → mode_term (with_plus s) m ≡ rest_with_plus (mode_term s m)
unfolding mode_term
mode_term-with_plus s m = ap (read_perms m) (scan_who-with_plus s nobody) ∙ go (scan_who s nobody)
  where
    go :
        (o : Option (Who × ℕ × Text))
        → read_perms m (who_with_plus o) ≡ rest_with_plus (read_perms m o)
    go none = refl
    go (some (w, c, rest)) =
        ap (finish_term (plus_for c) (default_who w) m) (scan_perms-with_plus rest no_perms)
        ∙ finish_term-with_plus c (default_who w) m (scan_perms rest no_perms)

conv_loop-with_plus : (f : ℕ) (s : Text) (m : Mode) → conv_loop f (with_plus s) m ≡ conv_loop f s m
unfolding conv_loop with_plus
conv_loop-with_plus zero s m = refl
conv_loop-with_plus (suc f) [] m = refl
conv_loop-with_plus (suc f) (c ∷ s) m =
    ap (λ o. conv_next o (conv_loop f)) (mode_term-with_plus (c ∷ s) m)
    ∙ elim (Option-cases (mode_term (c ∷ s) m)) [
      | inl e ↦ rw e refl
      | inr (r, e) ↦ rw e (conv_loop-with_plus f r.1 r.0)
    ]

-- ConvSymMode gives for every symbolic mode the result that it gives with + in place of each =:
-- the operator = adds permissions and takes none away.
pub conv_sym_mode-with_plus :
    (s : Text) (m : Mode) → conv_sym_mode (with_plus s) m ≡ conv_sym_mode s m
unfolding conv_sym_mode
conv_sym_mode-with_plus s m =
    ap (λ n. conv_loop (suc n) (with_plus s) m) (length-with_plus s)
    ∙ conv_loop-with_plus (suc (length s)) s m
