-- ===== src/Libc.antt =====
-- The C library functions that the sources call on texts: isspace, strtoul in base 10 on a 64-bit
-- unsigned long, and the %d format. A text is the bytes before the terminating NUL.
pub mod Decimal
use tclx.Base.{
  ℕ, zero, suc, ◌+◌, ◌-◌, ◌*◌, ◌/◌, ◌%◌, ◌^◌, Bool, true, false, ◌&&◌, ◌||◌, List, [], ◌∷◌, Text,
  ltb, leb, ◌==◌, if◌then◌else◌,
}

-- `isspace` in the C locale: space, and tab to carriage return.
unfoldable pub is_space : ℕ → Bool
is_space c = c == 32 || (leb 9 c && leb c 13)

unfoldable pub is_digit : ℕ → Bool
is_digit c = leb b'0' c && leb c b'9'

unfoldable pub skip_space : Text → Text
unfolding is_space
skip_space [] = []
skip_space (c ∷ s) = if is_space c then skip_space s else c ∷ s

-- The subject sequence of decimal digits: its value and the text behind it.
unfoldable pub scan_digits : ℕ → Text → ℕ × Text
unfolding is_digit
scan_digits acc [] = (acc, [])
scan_digits acc (c ∷ s) = if is_digit c then scan_digits (acc * 10 + (c - b'0')) s else (acc, c ∷ s)

-- The result of `strtoul (p, &end, 10)`: `matched` is `end != p`.
pub record Strtoul : Type 0 where
  pub value : ℕ
  pub end : Text
  pub matched : Bool
  pub erange : Bool

abbrev pub ulong_mod : ℕ
ulong_mod = 2 ^ 64

-- Digits behind an optional sign; a minus sign negates in the unsigned type.
unfoldable pub strtoul_digits : Bool → Text → Text → Strtoul
unfolding is_digit
strtoul_digits minus start [] = record { value = 0; end = start; matched = false; erange = false }
strtoul_digits minus start (c ∷ s) =
    if is_digit c
    then (let (v, rest) = scan_digits 0 (c ∷ s) in
        if leb ulong_mod v
        then record { value = ulong_mod - 1; end = rest; matched = true; erange = true }
        else record {
          value = if minus then (ulong_mod - v) % ulong_mod else v;
          end = rest;
          matched = true;
          erange = false;
        })
    else record { value = 0; end = start; matched = false; erange = false }

unfoldable pub strtoul_sign : Text → Text → Strtoul
unfolding strtoul_digits
strtoul_sign start [] = strtoul_digits false start []
strtoul_sign start (c ∷ s) =
    if c == b'-'
    then strtoul_digits true start s
    else if c == b'+'
    then strtoul_digits false start s
    else strtoul_digits false start (c ∷ s)

unfoldable pub strtoul : Text → Strtoul
unfolding strtoul_sign skip_space scan_digits
strtoul s = strtoul_sign s (skip_space s)

-- `%d` of a non-negative number, on fuel above the number.
unfoldable pub decimal_loop : ℕ → ℕ → Text → Text
decimal_loop zero n acc = acc
decimal_loop (suc f) n acc = elim (ltb n 10) [
  | true ↦ (n + b'0') ∷ acc
  | false ↦ decimal_loop f (n / 10) ((n % 10 + b'0') ∷ acc)
]

unfoldable pub decimal : ℕ → Text
unfolding decimal_loop
decimal n = decimal_loop (suc n) n []
