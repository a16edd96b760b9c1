-- ===== src/Lgets/Ends.antt =====
-- The reading of a list ends.
use tclx.Base.{
  ℕ, zero, suc, ◌+◌, ◌≤◌, ◌<◌, ◌≡◌, refl, ap, List, [], ◌∷◌, ◌++◌, Text, ◌==◌, drop, length,
  length-append, arith, Bool-cases, inl, inr,
}
use tclx.Libc.{skip_space}
use tclx.Lgets.{
  Gets, full_line, last_line, io_error, ReadData, read_list_line, read_list_init, init_at, Read,
  element, list_end, failed, no_fuel, element_loop, start_scan, read_list_element, newline,
  leading_space,
}
use tclx.Lgets.Command.{
  ListRead, all_read, not_read, out_of_fuel, read_elements, read_initial, read_list,
}
use tclx.Lgets.Within.{gets_size, left, Within, length-drop, length-skip_space, element_loop-Within}

abbrev pub Ended : ListRead → Type 0
Ended (all_read xs d) = Unit {0}
Ended (not_read xs d) = Unit {0}
Ended out_of_fuel = ⊥

module _ (backslash : Text → ℕ × ℕ) (counts : (t : Text) → 1 ≤ (backslash t).1) where
  start_scan-shorter :
      (before : Text) (c : ℕ) (r : Text)
      → length (drop 1 (start_scan before (c ∷ r)).rest) ≤ length r
  unfolding start_scan
  start_scan-shorter before c r = elim (Bool-cases (c == b'{')) [
    | inl e ↦ rw e (length-drop 1 r)
    | inr e ↦ elim (Bool-cases (c == b'"')) [
      | inl e' ↦ rw (e, e') (length-drop 1 r)
      | inr e' ↦ rw (e, e') (omega arith)
    ]
  ]

  start_scan-size : (before : Text) (t : Text) → length (start_scan before t).rest ≤ length t
  unfolding start_scan
  start_scan-size before [] = omega arith
  start_scan-size before (c ∷ r) = ground arith

  abbrev Shrinks : ℕ → Read → Type 0
  Shrinks n (element t d) = left d < n
  Shrinks n (list_end d) = Unit {0}
  Shrinks n (failed d) = Unit {0}
  Shrinks n no_fuel = ⊥

  Within-Shrinks : (m n : ℕ) (r : Read) → m < n → Within m r → Shrinks n r
  Within-Shrinks m n (element t d) h k = omega arith
  Within-Shrinks m n (list_end d) h k = tt
  Within-Shrinks m n (failed d) h k = tt
  Within-Shrinks m n no_fuel h k = k

  shorter_at :
      (before t : Text) (c : ℕ) (r : Text)
      → t ≡ c ∷ r
      → length (drop 1 (start_scan before t).rest) ≤ length r
  shorter_at before t c r at = rw at (start_scan-shorter before c r)

  -- An element takes something of what is left.
  read_list_element-Shrinks :
      (fuel : ℕ) (d : ReadData)
      → left d < fuel
      → Shrinks (left d) (read_list_element backslash fuel d)
  unfolding read_list_element
  read_list_element-Shrinks fuel d h =
      elim d.rest
          as (λ t.
            d.rest ≡ t
            → Shrinks (left d) (elim t as (λ _. Read) [
              | [] ↦ list_end d
              | c ∷ r ↦ element_loop backslash fuel (start_scan d.before d.rest) d
            ])) [
              | [] ↦ λ at. tt
              | c ∷ r ↦ λ at.
                  let s = start_scan d.before d.rest in
                  Within-Shrinks (length (drop 1 s.rest) + gets_size d.input) (left d)
                    (element_loop backslash fuel s d)
                    (omega (arith, shorter_at d.before d.rest c r at, ap length at))
                    (element_loop-Within backslash counts fuel s d s.rest refl
                      (omega (arith, start_scan-size d.before d.rest)))
            ]
        refl

  read_elements-Ended :
      (fuel rounds : ℕ) (xs : List Text) (d : ReadData)
      → left d < rounds
      → left d < fuel
      → Ended (read_elements backslash fuel rounds xs d)
  unfolding read_elements
  read_elements-Ended fuel zero xs d h k = absurd (omega arith)
  read_elements-Ended fuel (suc rounds) xs d h k =
      elim (read_list_element backslash fuel d)
          as (λ r.
            Shrinks (left d) r
            → Ended (elim r as (λ _. ListRead) [
              | element t d' ↦ read_elements backslash fuel rounds (xs ++ t ∷ []) d'
              | list_end d' ↦ all_read xs d'
              | failed d' ↦ not_read xs d'
              | no_fuel ↦ out_of_fuel
            ])) [
              | element t d' ↦
                  λ w. read_elements-Ended fuel rounds (xs ++ t ∷ []) d' (omega arith) (omega arith)
              | list_end d' ↦ λ w. tt
              | failed d' ↦ λ w. tt
              | no_fuel ↦ λ w. w
            ]
        (read_list_element-Shrinks fuel d k)

  -- Reading a list, on fuel above what the channel gives, ends with the whole list or an error,
  -- when Tcl_Backslash counts at least one byte.
  pub read_list-Ended :
      (fuel rounds : ℕ) (gs : List Gets)
      → gets_size gs < rounds
      → gets_size gs < fuel
      → Ended (read_list backslash fuel rounds gs)
  unfolding read_list read_initial read_list_init init_at read_list_line
  read_list-Ended fuel rounds [] h k = tt
  read_list-Ended fuel rounds (full_line t ∷ gs) h k =
      let d : ReadData = record {
        input = gs;
        before = leading_space (t ++ newline ∷ []);
        rest = skip_space (t ++ newline ∷ []);
      } in
      let bytes = length-skip_space (t ++ newline ∷ []) in
      let whole = length-append {0} t (newline ∷ []) in
      read_elements-Ended fuel rounds [] d (omega arith) (omega arith)
  read_list-Ended fuel rounds (last_line t ∷ gs) h k = tt
  read_list-Ended fuel rounds (io_error ∷ gs) h k = tt
