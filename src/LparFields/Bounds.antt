-- ===== src/LparFields/Bounds.antt =====
-- When a minimum, desired and maximum are accepted (pypowervm/utils/lpar_builder.py).
use pypowervm.Prelude.{
  Bool, true, false, ◌&&◌, inl, inr, Option, none, some, Bool-cases, ◌≡◌, refl, ◌↔◌, arith,
}
use pypowervm.LparFields.{
  Numbers, Field, field, in_bound, ◌>>>◌, raise_if, in_bounds, in_bounds_of, validate_field, typed,
  validate_typed, validate_three, min_desired_max,
}

-- The bounds that the fields check among themselves decide, whatever is truthy.
decide :
    (x y z a b c : Bool)
    → ((raise_if (x && y && b)
          >>> raise_if (y && z && a)
          >>> (raise_if c >>> raise_if a)
          >>> (raise_if a >>> raise_if b)
          >>> raise_if b
          >>> none)
        ≡ none)
      ↔ ((c ≡ false) × (a ≡ false) × (b ≡ false))
decide x y z true b c = elim (Bool-cases c) [
  | inl e ↦ (λ h. ground (arith, e, h), λ h. ground (arith, h))
  | inr e ↦ (λ h. ground (arith, e, h), λ h. ground (arith, h))
]
decide x y z false true c = (λ h. ground (arith, h), λ h. ground (arith, h))
decide x y z false false true = (λ h. ground (arith, h), λ h. ground (arith, h))
decide x y z false false false = (λ h. (refl, refl, refl), λ h. ground arith)

module _ {V T : Type 0} (num : Numbers V T) where
  typed-some :
      (v : V) (x : T) (allow_none : Bool) (low high : Option V)
      → num.convert v ≡ inr x
      → typed num (field (some v) allow_none low high) ≡ inr (some x)
  unfolding typed
  typed-some v x allow_none low high h = rw h refl

  bound_some :
      (p : T → Bool) (v : V) (x : T)
      → num.convert v ≡ inr x
      → in_bound num p (some v) ≡ raise_if (p x)
  bound_some p v x h = rw h refl

  converted :
      (f g h : Field V) (m d x : T)
      → typed num f ≡ inr (some m)
      → typed num g ≡ inr (some d)
      → typed num h ≡ inr (some x)
      → validate_three num f g h ≡ validate_typed num f g h (some m) (some d) (some x)
  unfolding validate_three
  converted f g h m d x a b c = rw a (rw b (rw c refl))

  checks :
      (low min des max : V) (l m d x : T) (an dn : Bool)
      → num.convert low ≡ inr l
      → num.convert min ≡ inr m
      → num.convert des ≡ inr d
      → num.convert max ≡ inr x
      → validate_typed num
          (field (some min) an (some low) (some des))
          (field (some des) dn (some min) (some max))
          (field (some max) an (some des) none)
          (some m)
          (some d)
          (some x)
        ≡ raise_if (num.is_truthy x && num.is_truthy d && num.lt x d)
          >>> raise_if (num.is_truthy d && num.is_truthy m && num.lt d m)
          >>> (raise_if (num.lt m l) >>> raise_if (num.lt d m))
          >>> (raise_if (num.lt d m) >>> raise_if (num.lt x d))
          >>> raise_if (num.lt x d)
          >>> none
  unfolding validate_typed validate_field in_bounds_of in_bounds
  checks low min des max l m d x an dn hl hm hd hx = rw hl (rw hm (rw hd (rw hx refl)))

  -- A minimum, a desired and a maximum value that are all given and are numbers are accepted
  -- exactly when the minimum is not below the lowest one allowed, the desired value is not below
  -- the minimum and the maximum is not below the desired value, zeros included.
  pub min_desired_max_lem :
      (low min des max : V) (l m d x : T) (allow_none des_allow_none : Bool)
      → num.convert low ≡ inr l
      → num.convert min ≡ inr m
      → num.convert des ≡ inr d
      → num.convert max ≡ inr x
      → (min_desired_max num (some low) allow_none des_allow_none (some min) (some des) (some max)
          ≡ none)
        ↔ ((num.lt m l ≡ false) × (num.lt d m ≡ false) × (num.lt x d ≡ false))
  unfolding min_desired_max validate_three typed validate_typed validate_field in_bounds_of
      in_bounds
  min_desired_max_lem low min des max l m d x an dn hl hm hd hx =
      rw
        (converted (field (some min) an (some low) (some des))
          (field (some des) dn (some min) (some max)) (field (some max) an (some des) none) m d x
          (typed-some min m an (some low) (some des) hm)
          (typed-some des d dn (some min) (some max) hd) (typed-some max x an (some des) none hx))
        (rw (checks low min des max l m d x an dn hl hm hd hx) (
          decide (num.is_truthy x) (num.is_truthy d) (num.is_truthy m) (num.lt d m) (num.lt x d)
            (num.lt m l)))
