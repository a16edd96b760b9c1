-- ===== src/Lgets/Within.antt =====
-- ReadListElement ends and takes something of what is left to read.
use tclx.Base.{
  ℕ, zero, suc, ◌+◌, ◌≤◌, ◌<◌, ◌≡◌, refl, ap, Bool, true, false, not, ◌&&◌, List, [], ◌∷◌, ◌++◌,
  Text, ◌==◌, if◌then◌else◌, drop, length, length-append, arith, Bool-cases, inl, inr,
}
use tclx.Libc.{is_space, skip_space}
use tclx.Lgets.{
  Gets, full_line, last_line, io_error, ReadData, read_list_line, Read, element, list_end, failed,
  no_fuel, Scan, Next, finish, close_element, kept_byte, passed_byte, scan_backslash, scan_close,
  scan_byte, continue_line, scan_end, element_loop, newline,
}

-- What is left to read: each line with its newline, and one for the read.
abbrev pub gets_size : List Gets → ℕ
gets_size [] = 0
gets_size (full_line t ∷ gs) = length t + 2 + gets_size gs
gets_size (last_line t ∷ gs) = length t + 1 + gets_size gs
gets_size (io_error ∷ gs) = 1 + gets_size gs

abbrev pub left : ReadData → ℕ
left d = length d.rest + gets_size d.input

-- Not out of fuel; an element leaves at most `n` to read.
abbrev pub Within : ℕ → Read → Type 0
Within n (element t d) = left d ≤ n
Within n (list_end d) = Unit {0}
Within n (failed d) = Unit {0}
Within n no_fuel = ⊥

Within-mono : (n m : ℕ) (r : Read) → n ≤ m → Within n r → Within m r
Within-mono n m (element t d) h k = omega arith
Within-mono n m (list_end d) h k = tt
Within-mono n m (failed d) h k = tt
Within-mono n m no_fuel h k = k

pub length-skip_space : (s : Text) → length (skip_space s) ≤ length s
unfolding skip_space
length-skip_space [] = omega arith
length-skip_space (c ∷ s) = ground (arith, length-skip_space s)

pub length-drop : (n : ℕ) (s : Text) → length (drop n s) ≤ length s
length-drop zero s = omega arith
length-drop (suc n) [] = omega arith
length-drop (suc n) (c ∷ s) = omega (arith, length-drop n s)

drop_shorter : (n c : ℕ) (r : Text) → 1 ≤ n → length (drop n (c ∷ r)) ≤ length r
drop_shorter zero c r h = absurd (omega arith)
drop_shorter (suc n) c r h = length-drop n r

finish-Within :
    (n : ℕ) (s : Scan) (d : ReadData)
    → length (skip_space s.rest) + gets_size d.input ≤ n
    → Within n (finish s d)
unfolding finish
finish-Within n s d h = h

close_element-Within :
    (n : ℕ) (s : Scan) (d : ReadData)
    → length s.rest + gets_size d.input ≤ n
    → Within n (close_element s d)
unfolding close_element
close_element-Within n s d h =
    let whole = finish-Within n s d (omega (arith, length-skip_space s.rest)) in
    elim s.rest
      as (λ t. Within n (elim t as (λ _. Read) [
        | [] ↦ finish s d
        | c ∷ r ↦ if is_space c then finish s d else failed d
      ])) [
        | [] ↦ whole
        | c ∷ r ↦ elim (Bool-cases (is_space c)) [ inl e ↦ rw e whole | inr e ↦ rw e tt ]
      ]

either : (n : ℕ) (b : Bool) (x y : Read) → Within n x → Within n y → Within n (if b then x else y)
either n true x y h k = h
either n false x y h k = k

module _ (backslash : Text → ℕ × ℕ) (counts : (t : Text) → 1 ≤ (backslash t).1) where
  -- The loop goes on with at most `k` bytes of the buffer and the same data.
  abbrev GoesOn : ℕ → ℕ → ReadData → Next → Type 0
  GoesOn k n d next = (s : Scan) → length s.rest ≤ k → Within n (next s d)

  module _ (s : Scan) (c : ℕ) (r : Text) (d : ReadData) (next : Next) (n : ℕ)
      (room : length r + gets_size d.input ≤ n) (on : GoesOn (length r) n d next) where
    scan_close-Within : (b : ℕ) → Within n (scan_close b s c r d next)
    unfolding scan_close
    scan_close-Within zero = on (kept_byte s c r) (omega arith)
    scan_close-Within (suc zero) = close_element-Within n (passed_byte s c r) d room
    scan_close-Within (suc (suc b)) =
        on (record (kept_byte s c r) { open_braces = suc b }) (omega arith)

    backslash_shorter : (t : Text) → t ≡ c ∷ r → length (drop (backslash t).1 t) ≤ length r
    backslash_shorter t at = rw at (drop_shorter (backslash (c ∷ r)).1 c r (counts (c ∷ r)))

    space_shorter : (t : Text) → is_space c ≡ true → t ≡ c ∷ r → length (skip_space t) ≤ length r
    unfolding skip_space
    space_shorter t e at = rw (at, skip_space, e) (length-skip_space r)

    backslash-Within : s.rest ≡ c ∷ r → Within n (next (scan_backslash backslash s) d)
    unfolding scan_backslash
    backslash-Within at = on (scan_backslash backslash s) (elim (Bool-cases (s.open_braces == 0)) [
      | inl e ↦ rw e (backslash_shorter s.rest at)
      | inr e ↦ rw e (backslash_shorter s.rest at)
    ])

    space-Within : is_space c ≡ true → s.rest ≡ c ∷ r → Within n (finish s d)
    space-Within e at = finish-Within n s d (omega (arith, space_shorter s.rest e at))

    -- The cases behind the backslash.
    rest-Within :
        s.rest ≡ c ∷ r
        → Within n (next (kept_byte s c r) d)
        → Within n (
            if is_space c
            then (if s.open_braces == 0 && not s.in_quotes
                then finish s d
                else next (kept_byte s c r) d)
            else if c == b'"'
            then (if s.in_quotes
                then close_element (passed_byte s c r) d
                else next (kept_byte s c r) d)
            else next (kept_byte s c r) d)
    rest-Within at keep = elim (Bool-cases (is_space c)) [
      | inl e ↦ rw e (
          either n (s.open_braces == 0 && not s.in_quotes) (finish s d) (next (kept_byte s c r) d)
            (space-Within e at) keep)
      | inr e ↦ rw e (
          either n (c == b'"')
            (if s.in_quotes then close_element (passed_byte s c r) d else next (kept_byte s c r) d)
            (next (kept_byte s c r) d)
            (either n s.in_quotes (close_element (passed_byte s c r) d) (next (kept_byte s c r) d)
              (close_element-Within n (passed_byte s c r) d room) keep)
            keep)
    ]

    scan_byte-Within : s.rest ≡ c ∷ r → Within n (scan_byte backslash s c r d next)
    unfolding scan_byte
    scan_byte-Within at =
        let keep = on (kept_byte s c r) (omega arith) in
        elim (Bool-cases (c == b'{')) [
          | inl e ↦ rw e (
              on
                (record (kept_byte s c r) {
                  open_braces = if s.open_braces == 0 then 0 else suc s.open_braces;
                })
                (omega arith))
          | inr e ↦ elim (Bool-cases (c == b'}')) [
            | inl e' ↦ rw (e, e') (scan_close-Within s.open_braces)
            | inr e' ↦ elim (Bool-cases (c == 92)) [
              | inl e'' ↦ rw (e, e', e'') (backslash-Within at)
              | inr e'' ↦ rw (e, e', e'') (rest-Within at keep)
            ]
          ]
        ]

  abbrev pub size : Scan → ReadData → ℕ
  size s d = length s.rest + gets_size d.input

  line-Within :
      (n : ℕ) (s : Scan) (d : ReadData) (next : Next) (gs : List Gets)
      → d.rest ≡ []
      → d.input ≡ gs
      → ((t : Text) (gs' : List Gets) (s' : Scan) (d' : ReadData)
          → gs ≡ full_line t ∷ gs'
          → length s'.rest ≤ length t + 1
          → d'.input ≡ gs'
          → Within n (next s' d'))
      → Within n (continue_line s (read_list_line d) next)
  unfolding continue_line read_list_line
  line-Within n s d next [] over reads all = ground (arith, reads)
  line-Within n s d next (full_line t ∷ gs) over reads all =
      let longer = d.rest ++ (t ++ newline ∷ []) in
      rw (read_list_line, reads)
        (all t gs (record s { before = d.before; rest = longer })
          (record d { input = gs; rest = longer }) refl
          (omega (
            arith,
            length-append {0} d.rest (t ++ newline ∷ []),
            length-append {0} t (newline ∷ []),
            ap length over,
          ))
          refl)
  line-Within n s d next (last_line t ∷ gs) over reads all = rw (read_list_line, reads) tt
  line-Within n s d next (io_error ∷ gs) over reads all = rw (read_list_line, reads) tt

  -- Another line is read with all of its bytes.
  scan_end-Within :
      (n : ℕ) (s : Scan) (d : ReadData) (next : Next) (gs : List Gets)
      → d.input ≡ gs
      → s.rest ≡ []
      → gets_size gs ≤ n
      → ((t : Text) (gs' : List Gets) (s' : Scan) (d' : ReadData)
          → gs ≡ full_line t ∷ gs'
          → length s'.rest ≤ length t + 1
          → d'.input ≡ gs'
          → Within n (next s' d'))
      → Within n (scan_end s d next)
  unfolding scan_end continue_line read_list_line
  scan_end-Within n s d next gs reads over enough all =
      either n (s.open_braces == 0 && not s.in_quotes) (finish s d)
        (continue_line s (read_list_line (record d { before = s.before; rest = [] })) next)
        (finish-Within n s d
          (omega (arith, length-skip_space s.rest, ap length over, ap gets_size reads)))
        (line-Within n s (record d { before = s.before; rest = [] }) next gs refl reads all)

  pub element_loop-Within :
      (fuel : ℕ) (s : Scan) (d : ReadData) (t : Text)
      → s.rest ≡ t
      → size s d < fuel
      → Within (length (drop 1 t) + gets_size d.input) (element_loop backslash fuel s d)
  unfolding element_loop
  element_loop-Within zero s d t at h = absurd (omega arith)
  element_loop-Within (suc fuel) s d [] at h =
      rw (element_loop, at)
        (scan_end-Within (0 + gets_size d.input) s d (element_loop backslash fuel) d.input refl at
          (omega arith)
          (λ t' gs' s' d' e short e'.
            let room = ap gets_size e in
            let left' = ap gets_size e' in
            let bound : size s' d' < fuel = omega arith in
            Within-mono (length (drop 1 s'.rest) + gets_size d'.input) (0 + gets_size d.input)
              (element_loop backslash fuel s' d') (omega (arith, length-drop 1 s'.rest))
              (element_loop-Within fuel s' d' s'.rest refl bound)))
  element_loop-Within (suc fuel) s d (c ∷ r) at h =
      rw (element_loop, at)
        (scan_byte-Within s c r d (element_loop backslash fuel) (length r + gets_size d.input)
          (omega arith)
          (λ s' short.
            Within-mono (length (drop 1 s'.rest) + gets_size d.input) (length r + gets_size d.input)
              (element_loop backslash fuel s' d) (omega (arith, length-drop 1 s'.rest))
              (element_loop-Within fuel s' d s'.rest refl (omega (arith, ap length at))))
          at)
