-- ===== src/Math.antt =====
-- generic/tclXmath.c: max and min over an abstract type of doubles.
pub mod Extremes
use tclx.Base.Int.{ℤ}
use tclx.Base.{◌≡◌, Bool, true, false, Option, none, some, List, [], ◌∷◌, Text, if◌then◌else◌}

-- The doubles that are not NaN: their order, MAXDOUBLE and its negation. What is less is not
-- greater, and what is not less is transitive. `get_wide_int` and `get_double` are
-- Tcl_GetWideIntFromObj and Tcl_GetDoubleFromObj, and `wide_as_double` is the conversion
-- Tcl_WideAsDouble, which may round.
pub record Doubles : Type 1 where
  pub Double : Type 0
  pub lt : Double → Double → Bool
  pub max_double : Double
  pub min_double : Double
  pub get_wide_int : Text → Option ℤ
  pub wide_as_double : ℤ → Double
  pub get_double : Text → Option Double
  pub lt_asym : (x y : Double) → lt x y ≡ true → lt y x ≡ false
  pub not_lt_trans : (x y z : Double) → lt x y ≡ false → lt y z ≡ false → lt x z ≡ false

-- ConvertIntOrDoubleObj, which tries an integer first, with TCL_WIDE_INT_TYPE defined.
abbrev pub converted : (d : Doubles) → Text → Option ℤ → Option d.Double
converted d t (some w) = some (d.wide_as_double w)
converted d t none = d.get_double t

unfoldable pub convert_int_or_double : (d : Doubles) → Text → Option d.Double
convert_int_or_double d t = converted d t (d.get_wide_int t)

-- The loop of max, with `better` for `value > maxValue`, and of min: the best value so far and its
-- argument; `none` is an argument that is no number.
module _ (d : Doubles) where
  unfoldable pub extreme_loop :
      (d.Double → d.Double → Bool) → List Text → d.Double → Text → Option Text
  extreme_loop better [] best chosen = some chosen
  extreme_loop better (t ∷ ts) best chosen =
      let rest = extreme_loop better ts in
      elim (convert_int_or_double d t) [
        | none ↦ none
        | some v ↦ if better v best then rest v t else rest best chosen
      ]

  abbrev pub greater : d.Double → d.Double → Bool
  greater x y = d.lt y x

  -- `none` without an argument is the message on wrong arguments.
  unfoldable pub max_cmd : List Text → Option Text
  unfolding extreme_loop
  max_cmd [] = none
  max_cmd (t ∷ ts) = extreme_loop greater (t ∷ ts) d.min_double t

  unfoldable pub min_cmd : List Text → Option Text
  unfolding extreme_loop
  min_cmd [] = none
  min_cmd (t ∷ ts) = extreme_loop d.lt (t ∷ ts) d.max_double t
