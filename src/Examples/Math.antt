-- ===== src/Examples/Math.antt =====
-- max and min of numbers of one byte, whose doubles are half as many.
use tclx.Base.{
  ℕ, ◌/◌, ◌≡◌, refl, true, false, Option, none, some, List, [], ◌∷◌, Text, text, ltb, arith,
}
use tclx.Base.Int.{ℤ, pos, negsuc}
use tclx.Math.{Doubles, convert_int_or_double, extreme_loop, greater, max_cmd, min_cmd}
use tclx.Math.Extremes.{First, Unbeaten, greater_asym, max_cmd-min_cmd, not_greater_trans}

ltb_asym : (x y : ℕ) → ltb x y ≡ true → ltb y x ≡ false
ltb_asym x y h = ground arith

not_ltb_trans : (x y z : ℕ) → ltb x y ≡ false → ltb y z ≡ false → ltb x z ≡ false
not_ltb_trans x y z h h' = ground arith

abbrev one_byte : Text → Option ℤ
one_byte [] = none
one_byte (b ∷ bs) = some (pos b)

-- Two integers round to each double.
abbrev half : ℤ → ℕ
half (pos n) = n / 2
half (negsuc n) = 0

abbrev numbers : Doubles
numbers = record {
  Double = ℕ;
  lt = ltb;
  max_double = 1000;
  min_double = 0;
  get_wide_int = one_byte;
  wide_as_double = half;
  get_double = λ t. none;
  lt_asym = ltb_asym;
  not_lt_trans = not_ltb_trans;
}

largest : max_cmd numbers (text "2" ∷ text "9" ∷ text "5" ∷ []) ≡ some (text "9")
unfolding max_cmd extreme_loop convert_int_or_double
largest = refl

-- The greater of two integers that round to one double is not found behind the other.
rounded : max_cmd numbers (text "8" ∷ text "9" ∷ []) ≡ some (text "8")
unfolding max_cmd extreme_loop convert_int_or_double
rounded = refl

abbrev args : List Text
args = text "2" ∷ text "8" ∷ text "9" ∷ text "5" ∷ []

max_cmd-min_cmd_example :
    ((r : Text) × (v : ℕ) × (max_cmd numbers args ≡ some r)
      × (convert_int_or_double numbers r ≡ some v)
      × Unbeaten numbers (greater numbers) (greater_asym numbers) (not_greater_trans numbers) v args
      × First numbers (greater numbers) (greater_asym numbers) (not_greater_trans numbers) v r args)
    × ((r : Text) × (v : ℕ) × (min_cmd numbers args ≡ some r)
        × (convert_int_or_double numbers r ≡ some v)
        × Unbeaten numbers ltb ltb_asym not_ltb_trans v args
        × First numbers ltb ltb_asym not_ltb_trans v r args)
unfolding convert_int_or_double
max_cmd-min_cmd_example =
    max_cmd-min_cmd numbers (text "2") (text "8" ∷ text "9" ∷ text "5" ∷ [])
      ((25, refl, refl), ((28, refl, refl), ((28, refl, refl), ((26, refl, refl), tt))))
      ((25, refl, refl), ((28, refl, refl), ((28, refl, refl), ((26, refl, refl), tt))))
