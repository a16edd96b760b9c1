-- ===== src/Libc/Decimal.antt =====
-- What `%d` prints, `strtoul` reads back.
use tclx.Base.{
  ℕ, zero, suc, ◌+◌, ◌*◌, ◌/◌, ◌%◌, ◌≤◌, ◌<◌, ◌≡◌, refl, length, true, false, inl, inr, [], ◌∷◌,
  Text, ltb, leb, ◌==◌, Bool-cases, arith, ap, ◌∙◌, ltb→lt,
}
use tclx.Libc.{
  is_space, is_digit, skip_space, scan_digits, ulong_mod, strtoul, strtoul_sign, strtoul_digits,
  decimal, decimal_loop,
}

is_digit_code : (d : ℕ) → d < 10 → is_digit (d + b'0') ≡ true
unfolding is_digit
is_digit_code d h = ground arith

scan_digits-cons :
    (acc d : ℕ) (s : Text)
    → d < 10
    → scan_digits acc ((d + b'0') ∷ s) ≡ scan_digits (acc * 10 + d) s
unfolding scan_digits
scan_digits-cons acc d s h = rw (is_digit_code d h) (ap (λ (v : ℕ). scan_digits v s) (omega arith))

-- the digits of `n` take the scanner from 0 to `n`
scan_digits-decimal_loop :
    (f n : ℕ) (acc : Text) → n < f → scan_digits 0 (decimal_loop f n acc) ≡ scan_digits n acc
unfolding decimal_loop
scan_digits-decimal_loop zero n acc h = absurd (omega arith)
scan_digits-decimal_loop (suc f) n acc h = elim (Bool-cases (ltb n 10)) [
  | inl small ↦
      rw (small, decimal_loop)
        (scan_digits-cons 0 n acc (omega (arith, ltb→lt n 10 small))
          ∙ ap (λ (v : ℕ). scan_digits v acc) (omega arith))
  | inr large ↦
      rw (large, decimal_loop)
        (scan_digits-decimal_loop f (n / 10) ((n % 10 + b'0') ∷ acc) (ground arith)
          ∙ scan_digits-cons (n / 10) (n % 10) acc (omega arith)
          ∙ ap (λ (v : ℕ). scan_digits v acc) (omega arith))
]

scan_digits-decimal : (n : ℕ) → scan_digits 0 (decimal n) ≡ (n, [])
unfolding decimal
scan_digits-decimal n =
    scan_digits-decimal_loop (suc n) n [] (omega arith) ∙ unfold scan_digits in refl

abbrev pub power : ℕ → ℕ
power zero = 1
power (suc k) = 10 * power k

decimal_loop-length :
    (f n k : ℕ) (acc : Text) → n < 10 * power k → length (decimal_loop f n acc) ≤ suc k + length acc
unfolding decimal_loop
decimal_loop-length zero n k acc h = omega arith
decimal_loop-length (suc f) n zero acc h =
    let small : ltb n 10 ≡ true = ground arith in rw (small, decimal_loop) (omega arith)
decimal_loop-length (suc f) n (suc k) acc h = elim (Bool-cases (ltb n 10)) [
  | inl small ↦ rw (small, decimal_loop) (omega arith)
  | inr large ↦
      let rest = decimal_loop-length f (n / 10) k ((n % 10 + b'0') ∷ acc) (omega arith) in
      rw (large, decimal_loop) (omega (arith, rest))
]

-- A number below the power of ten prints in so many digits.
pub decimal-length : (n k : ℕ) → n < 10 * power k → length (decimal n) ≤ suc k
unfolding decimal
decimal-length n k h = omega (arith, decimal_loop-length (suc n) n k [] h)

-- the first byte of a printed number is a digit
abbrev pub StartsDigit : Text → Type 0
StartsDigit [] = ⊥
StartsDigit (c ∷ s) = is_digit c ≡ true

decimal_loop-StartsDigit : (f n : ℕ) (acc : Text) → n < f → StartsDigit (decimal_loop f n acc)
unfolding decimal_loop
decimal_loop-StartsDigit zero n acc h = absurd (omega arith)
decimal_loop-StartsDigit (suc f) n acc h = elim (Bool-cases (ltb n 10)) [
  | inl small ↦ rw (small, decimal_loop) (is_digit_code n (omega (arith, ltb→lt n 10 small)))
  | inr large ↦
      rw (large, decimal_loop)
        (decimal_loop-StartsDigit f (n / 10) ((n % 10 + b'0') ∷ acc) (ground arith))
]

pub decimal-StartsDigit : (n : ℕ) → StartsDigit (decimal n)
unfolding decimal
decimal-StartsDigit n = decimal_loop-StartsDigit (suc n) n [] (omega arith)

digit_facts :
    (c : ℕ)
    → is_digit c ≡ true
    → (is_space c ≡ false) × ((c == b'-') ≡ false) × ((c == b'+') ≡ false)
unfolding is_digit is_space
digit_facts c h = (ground arith, ground arith, ground arith)

pub skip_space-StartsDigit : (s : Text) → StartsDigit s → skip_space s ≡ s
unfolding skip_space
skip_space-StartsDigit [] h = absurd h
skip_space-StartsDigit (c ∷ s) h = rw (digit_facts c h).0

strtoul_sign-StartsDigit :
    (start s : Text) → StartsDigit s → strtoul_sign start s ≡ strtoul_digits false start s
unfolding strtoul_sign
strtoul_sign-StartsDigit start [] h = absurd h
strtoul_sign-StartsDigit start (c ∷ s) h = rw ((digit_facts c h).1, (digit_facts c h).2)

strtoul_digits-StartsDigit :
    (start s : Text) (v : ℕ) (rest : Text)
    → StartsDigit s
    → scan_digits 0 s ≡ (v, rest)
    → v < ulong_mod
    → strtoul_digits false start s
      ≡ record { value = v; end = rest; matched = true; erange = false }
unfolding strtoul_digits
strtoul_digits-StartsDigit start [] v rest h e small = absurd h
strtoul_digits-StartsDigit start (c ∷ s) v rest h e small =
    let fits : leb ulong_mod v ≡ false = ground arith in rw (h, e, fits)

-- `strtoul` reads back the number that `%d` printed, to the end of the text.
pub strtoul-decimal :
    (n : ℕ)
    → n < ulong_mod
    → strtoul (decimal n) ≡ record { value = n; end = []; matched = true; erange = false }
unfolding strtoul
strtoul-decimal n h =
    let d = decimal-StartsDigit n in
    rw (skip_space-StartsDigit (decimal n) d, strtoul_sign-StartsDigit (decimal n) (decimal n) d)
      (strtoul_digits-StartsDigit (decimal n) (decimal n) n [] d (scan n) h)
  where
    scan : (k : ℕ) → scan_digits 0 (decimal k) ≡ (k, [])
    scan k = scan_digits-decimal k
