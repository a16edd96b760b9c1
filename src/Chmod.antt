-- ===== src/Chmod.antt =====
-- generic/tclXchmod.c: symbolic modes and the chmod command. A mode is an int, taken as its bits:
-- execute, write and read for other from bit 0 on, for group from 3 and for user from 6, then the
-- sticky bit, set group id and set user id.
pub mod Terms
pub mod Assign
pub mod Command
use tclx.Base.{
  ℕ, zero, suc, ◌+◌, ◌-◌, Bool, true, false, not, ◌&&◌, ◌||◌, Option, none, some, List, [], ◌∷◌,
  Text, text, text_eq, ltb, leb, ◌==◌, if◌then◌else◌, length,
}

abbrev pub Mode : Type 0
Mode = ℕ → Bool

abbrev pub zero_mode : Mode
zero_mode i = false

abbrev pub or_mode : Mode → Mode → Mode
or_mode m n i = m i || n i

abbrev pub and_mode : Mode → Mode → Mode
and_mode m n i = m i && n i

abbrev pub not_mode : Mode → Mode
not_mode m i = not (m i)

abbrev pub shift : ℕ → Mode → Mode
shift k m i = leb k i && m (i - k)

abbrev pub bit : ℕ → Mode
bit k i = k == i

abbrev pub only_if : Bool → Mode → Mode
only_if b m i = b && m i

pub record Who : Type 0 where
  pub user : Bool
  pub group : Bool
  pub other : Bool

pub record Perms : Type 0 where
  pub rwx_mask : Mode
  pub set_uid : Bool
  pub sticky : Bool
  pub locking : Bool

abbrev pub is_operator : ℕ → Bool
is_operator c = c == b'+' || (c == b'-' || c == b'=')

-- The cases of the switch on a character of the who field.
unfoldable pub who_char : ℕ → Option (Who → Who)
who_char c =
    if c == b'a'
    then some (λ w. record { user = true; group = true; other = true })
    else if c == b'u'
    then some (λ w. record w { user = true })
    else if c == b'g'
    then some (λ w. record w { group = true })
    else if c == b'o'
    then some (λ w. record w { other = true })
    else none

-- The scan of the who field, up to an operator: who, the operator, and the text behind it. `none`
-- is an invalid mode, which a missing operator is too.
unfoldable pub scan_who : Text → Who → Option (Who × ℕ × Text)
unfolding who_char
scan_who [] w = none
scan_who (c ∷ s) w =
    let rest = scan_who s in
    if is_operator c
    then some (w, c, s)
    else elim (who_char c) [ none ↦ none | some f ↦ rest (f w) ]

-- The cases of the switch on a character of the permissions.
unfoldable pub perm_char : ℕ → Option (Perms → Perms)
perm_char c =
    if c == b'r'
    then some (λ p. record p { rwx_mask = or_mode p.rwx_mask (bit 2) })
    else if c == b'w'
    then some (λ p. record p { rwx_mask = or_mode p.rwx_mask (bit 1) })
    else if c == b'x'
    then some (λ p. record p { rwx_mask = or_mode p.rwx_mask (bit 0) })
    else if c == b's'
    then some (λ p. record p { set_uid = true })
    else if c == b't'
    then some (λ p. record p { sticky = true })
    else if c == b'l'
    then some (λ p. record p { locking = true })
    else none

-- The scan of the permissions, up to a comma or the end.
unfoldable pub scan_perms : Text → Perms → Option (Perms × Text)
unfolding perm_char
scan_perms [] p = some (p, [])
scan_perms (c ∷ s) p =
    let rest = scan_perms s in
    if c == b',' then some (p, c ∷ s) else elim (perm_char c) [ none ↦ none | some f ↦ rest (f p) ]

-- None means all.
unfoldable pub default_who : Who → Who
default_who w =
    if w.user || (w.group || w.other) then w else record { user = true; group = true; other = true }

unfoldable pub new_mode : Who → Perms → Mode
new_mode w p = or_mode (only_if w.user (shift 6 p.rwx_mask)) (
    or_mode (only_if w.group (shift 3 p.rwx_mask)) (
      or_mode (only_if w.other p.rwx_mask) (
        or_mode (only_if (p.set_uid && w.user) (bit 11)) (
          or_mode (only_if ((p.set_uid || p.locking) && w.group) (bit 10))
            (only_if p.sticky (bit 9))))))

abbrev pub three_bits : Mode
three_bits i = ltb i 3

unfoldable pub ugo_mask : Who → Mode
ugo_mask w =
    or_mode (only_if w.user (shift 6 three_bits))
      (or_mode (only_if w.group (shift 3 three_bits)) (only_if w.other three_bits))

-- The cumulative mode.
unfoldable pub apply_mode : ℕ → Mode → Mode → Mode → Mode
apply_mode operator mask new m =
    if operator == b'+'
    then or_mode m new
    else if operator == b'-'
    then and_mode m (not_mode new)
    else if operator == b'='
    then or_mode m (or_mode (and_mode m mask) new)
    else m

abbrev pub nobody : Who
nobody = record { user = false; group = false; other = false }

abbrev pub no_perms : Perms
no_perms = record { rwx_mask = zero_mode; set_uid = false; sticky = false; locking = false }

abbrev pub skip_comma : Text → Text
skip_comma [] = []
skip_comma (c ∷ s) = if c == b',' then s else c ∷ s

abbrev pub finish_term : ℕ → Who → Mode → Option (Perms × Text) → Option (Mode × Text)
finish_term operator w m none = none
finish_term operator w m (some (p, s)) =
    some (apply_mode operator (ugo_mask w) (new_mode w p) m, skip_comma s)

abbrev pub read_perms : Mode → Option (Who × ℕ × Text) → Option (Mode × Text)
read_perms m none = none
read_perms m (some (who, operator, s)) =
    finish_term operator (default_who who) m (scan_perms s no_perms)

-- A term of the mode: the mode behind it and the text behind it.
unfoldable pub mode_term : Text → Mode → Option (Mode × Text)
unfolding scan_who scan_perms default_who new_mode ugo_mask apply_mode
mode_term s m = read_perms m (scan_who s nobody)

pub data Conv : Type 0 where
  converted : Mode → Conv
  invalid out_of_fuel : Conv

abbrev pub conv_next : Option (Mode × Text) → (Text → Mode → Conv) → Conv
conv_next none rest = invalid
conv_next (some r) rest = rest r.1 r.0

-- The loop of ConvSymMode, on fuel.
unfoldable pub conv_loop : ℕ → Text → Mode → Conv
unfolding mode_term
conv_loop zero s m = out_of_fuel
conv_loop (suc f) [] m = converted m
conv_loop (suc f) (c ∷ s) m = conv_next (mode_term (c ∷ s) m) (conv_loop f)

unfoldable pub conv_sym_mode : Text → Mode → Conv
unfolding conv_loop
conv_sym_mode s m = conv_loop (suc (length s)) s m
