-- ===== src/Math/Extremes.antt =====
-- max and min return an argument that no other one beats.
use tclx.Base.{
  ◌≡◌, refl, Bool, true, false, Option, some, List, [], ◌∷◌, Text, Bool-cases, inl, inr, ◌⊎◌, ◌∙◌,
  subst,
}
use tclx.Math.{Doubles, convert_int_or_double, extreme_loop, max_cmd, min_cmd, greater}

module _ (d : Doubles) (better : d.Double → d.Double → Bool)
    (asym : (x y : d.Double) → better x y ≡ true → better y x ≡ false)
    (not_trans : (x y z : d.Double)
      → better x y ≡ false
      → better y z ≡ false
      → better x z ≡ false) where
  -- The arguments are numbers that beat the start value.
  abbrev pub Numbers : d.Double → List Text → Type 0
  Numbers start [] = Unit {0}
  Numbers start (t ∷ ts) =
      ((v : d.Double) × (convert_int_or_double d t ≡ some v) × (better v start ≡ true))
      × Numbers start ts

  abbrev pub Unbeaten : d.Double → List Text → Type 0
  Unbeaten best [] = Unit {0}
  Unbeaten best (t ∷ ts) =
      ((v : d.Double) → convert_int_or_double d t ≡ some v → better v best ≡ false)
      × Unbeaten best ts

  -- The text is one of the list, and the value `v` beats those of the texts before it.
  abbrev pub First : d.Double → Text → List Text → Type 0
  First v r [] = ⊥
  First v r (x ∷ xs) =
      (r ≡ x)
      ⊎ (((u : d.Double) → convert_int_or_double d x ≡ some u → better v u ≡ true) × First v r xs)

  -- The argument that is returned has the best value, which beats no less than `best`.
  abbrev Returns : List Text → d.Double → Text → Option Text → Type 0
  Returns ts best chosen o =
      (r : Text) × (v : d.Double) × (o ≡ some r)
      × (convert_int_or_double d r ≡ some v)
      × (better best v ≡ false)
      × Unbeaten v ts
      × First v r (chosen ∷ ts)

  same_value :
      (t : Text) (v u w : d.Double)
      → convert_int_or_double d t ≡ some v
      → convert_int_or_double d t ≡ some u
      → better v w ≡ false
      → better u w ≡ false
  same_value t v u w cv cu h = let same : v ≡ u = cc in subst (λ x. better x w ≡ false) same h

  -- What does not lose to a value beats what loses to that value.
  beats : (x y z : d.Double) → better x z ≡ true → better x y ≡ false → better y z ≡ true
  beats x y z wins kept = elim (Bool-cases (better y z)) [
    | inl e ↦ e
    | inr e ↦ let loses = not_trans x y z kept e in cc
  ]

  beats_below : (x y z : d.Double) → better x z ≡ true → better y z ≡ false → better x y ≡ true
  beats_below x y z wins loses = elim (Bool-cases (better x y)) [
    | inl e ↦ e
    | inr e ↦ let p = not_trans x y z e loses in cc
  ]

  value_beaten :
      (x : Text) (v w u : d.Double)
      → convert_int_or_double d x ≡ some v
      → convert_int_or_double d x ≡ some u
      → better w v ≡ true
      → better w u ≡ true
  value_beaten x v w u cv cu h = let same : v ≡ u = cc in subst (λ y. better w y ≡ true) same h

  First-skip :
      (r chosen t : Text) (ts : List Text) (w best v : d.Double)
      → convert_int_or_double d chosen ≡ some best
      → convert_int_or_double d t ≡ some v
      → better v best ≡ false
      → First w r (chosen ∷ ts)
      → First w r (chosen ∷ t ∷ ts)
  First-skip r chosen t ts w best v e c loses (inl same) = inl same
  First-skip r chosen t ts w best v e c loses (inr (strict, first)) =
      let above = beats_below w v best (strict best e) loses in
      inr (strict, inr ((λ u cu. value_beaten t v w u c cu above), first))

  extreme_loop-Returns :
      (ts : List Text) (start best : d.Double) (chosen : Text)
      → Numbers start ts
      → convert_int_or_double d chosen ≡ some best
      → Returns ts best chosen (extreme_loop d better ts best chosen)
  unfolding extreme_loop
  extreme_loop-Returns [] start best chosen h e = (chosen, best, refl, e, irrefl best, tt, inl refl)
    where
      irrefl : (x : d.Double) → better x x ≡ false
      irrefl x = elim (Bool-cases (better x x)) [ inl y ↦ asym x x y | inr n ↦ n ]
  extreme_loop-Returns (t ∷ ts) start best chosen ((v, c, above), h) e =
      elim (Bool-cases (better v best)) [
        | inl wins ↦
            let (r, w, o, cr, kept, rest, m) = extreme_loop-Returns ts start v t h c in
            let step : extreme_loop d better (t ∷ ts) best chosen ≡ extreme_loop d better ts v t =
              rw (extreme_loop, c, wins) refl in
            (
              r,
              w,
              step ∙ o,
              cr,
              not_trans best v w (asym v best wins) kept,
              ((λ u cu. same_value t v u w c cu kept), rest),
              inr ((λ u cu. value_beaten chosen best w u e cu (beats v w best wins kept)), m),
            )
        | inr loses ↦
            let (r, w, o, cr, kept, rest, m) = extreme_loop-Returns ts start best chosen h e in
            let step : extreme_loop d better (t ∷ ts) best chosen
                ≡ extreme_loop d better ts best chosen =
              rw (extreme_loop, c, loses) refl in
            (
              r,
              w,
              step ∙ o,
              cr,
              kept,
              ((λ u cu. same_value t v u w c cu (not_trans v best w loses kept)), rest),
              First-skip r chosen t ts w best v e c loses m,
            )
      ]

module _ (d : Doubles) where
  pub not_greater_trans :
      (x y z : d.Double) → greater d x y ≡ false → greater d y z ≡ false → greater d x z ≡ false
  not_greater_trans x y z h h' = d.not_lt_trans z y x h' h

  start_loses :
      (better : d.Double → d.Double → Bool)
      (asym : (x y : d.Double) → better x y ≡ true → better y x ≡ false)
      (not_trans : (x y z : d.Double)
        → better x y ≡ false
        → better y z ≡ false
        → better x z ≡ false)
      (t : Text) (ts : List Text) (start : d.Double)
      → Numbers d better asym not_trans start (t ∷ ts)
      → (r : Text) × (v : d.Double) × (extreme_loop d better (t ∷ ts) start t ≡ some r)
        × (convert_int_or_double d r ≡ some v)
        × Unbeaten d better asym not_trans v (t ∷ ts)
        × First d better asym not_trans v r (t ∷ ts)
  unfolding extreme_loop
  start_loses better asym not_trans t ts start ((v, c, above), h) =
      let (r, w, o, cr, kept, rest, m) =
        extreme_loop-Returns d better asym not_trans ts start v t h c in
      let step : extreme_loop d better (t ∷ ts) start t ≡ extreme_loop d better ts v t =
        rw (extreme_loop, c, above) refl in
      (
        r,
        w,
        step ∙ o,
        cr,
        ((λ u cu. same_value d better asym not_trans t v u w c cu kept), rest),
        m,
      )

  pub greater_asym : (x y : d.Double) → greater d x y ≡ true → greater d y x ≡ false
  greater_asym x y h = d.lt_asym y x h

  -- On arguments that convert to doubles greater than -MAXDOUBLE and less than MAXDOUBLE,
  -- integers with the rounding of that conversion, max and min with at least one argument return
  -- the first of their arguments with the greatest or the least double: of max no argument
  -- converts to a greater one and each before it to a lesser one, of min the other way round.
  pub max_cmd-min_cmd :
      (t : Text) (ts : List Text)
      → Numbers d (greater d) greater_asym not_greater_trans d.min_double (t ∷ ts)
      → Numbers d d.lt d.lt_asym d.not_lt_trans d.max_double (t ∷ ts)
      → ((r : Text) × (v : d.Double) × (max_cmd d (t ∷ ts) ≡ some r)
          × (convert_int_or_double d r ≡ some v)
          × Unbeaten d (greater d) greater_asym not_greater_trans v (t ∷ ts)
          × First d (greater d) greater_asym not_greater_trans v r (t ∷ ts))
        × ((r : Text) × (v : d.Double) × (min_cmd d (t ∷ ts) ≡ some r)
            × (convert_int_or_double d r ≡ some v)
            × Unbeaten d d.lt d.lt_asym d.not_lt_trans v (t ∷ ts)
            × First d d.lt d.lt_asym d.not_lt_trans v r (t ∷ ts))
  unfolding max_cmd min_cmd
  max_cmd-min_cmd t ts above below = (
    start_loses (greater d) greater_asym not_greater_trans t ts d.min_double above,
    start_loses d.lt d.lt_asym d.not_lt_trans t ts d.max_double below,
  )
