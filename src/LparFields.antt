-- ===== src/LparFields.antt =====
-- The fields that DefaultStandardize validates: bounded numbers, and a minimum, desired and maximum
-- (pypowervm/utils/lpar_builder.py). `V` are the values given, `T` the numbers that int or float
-- makes of them. The texts of the exceptions are left out.
use pypowervm.Prelude.{
  Bool, true, false, not, ◌&&◌, ◌||◌, ◌⊎◌, inl, inr, Option, none, some, is_some, if◌then◌else◌,
}
pub mod Bounds
mod Examples

pub data Error : Type 0 where
  type_error : Error
  value_error : Error

abbrev pub Raised : Type 0
Raised = Option Error

-- The second statement runs where the first raises nothing.
infixr 21 ◌>>>◌
abbrev pub ◌>>>◌ : Raised → Raised → Raised
none >>> r = r
some e >>> r = some e

abbrev pub raise_if : Bool → Raised
raise_if true = some value_error
raise_if false = none

-- `int` or `float` of a value that is not None, which may raise; `x < y`; and `bool(x)`.
pub record Numbers (V T : Type 0) : Type 0 where
  pub convert : V → Error ⊎ T
  pub lt : T → T → Bool
  pub is_truthy : T → Bool

pub record Field (V : Type 0) : Type 0 where
  pub value : Option V
  pub allow_none : Bool
  pub min_bound : Option V
  pub max_bound : Option V

abbrev pub field : {V : Type 0} → Option V → Bool → Option V → Option V → Field V
field value allow_none min_bound max_bound = record {
  value = value;
  allow_none = allow_none;
  min_bound = min_bound;
  max_bound = max_bound;
}

module _ {V T : Type 0} (num : Numbers V T) where
  -- `_convert_value`
  abbrev pub convert_value : Option V → Error ⊎ T
  convert_value none = inl type_error
  convert_value (some v) = num.convert v

  abbrev pub with_bound : (T → Bool) → Error ⊎ T → Raised
  with_bound p (inl e) = some e
  with_bound p (inr bound) = raise_if (p bound)

  abbrev pub in_bound : (T → Bool) → Option V → Raised
  in_bound p none = none
  in_bound p (some b) = with_bound p (num.convert b)

  -- The bounds of a value that was converted.
  unfoldable pub in_bounds : Field V → T → Raised
  in_bounds f x = in_bound (λ y. num.lt x y) f.min_bound >>> in_bound (λ y. num.lt y x) f.max_bound

  unfoldable pub in_bounds_of : Field V → Error ⊎ T → Raised
  unfolding in_bounds
  in_bounds_of f (inl e) = some e
  in_bounds_of f (inr x) = in_bounds f x

  -- BoundField.validate, with `typed_value`.
  unfoldable pub validate_field : Field V → Option T → Raised
  unfolding in_bounds_of
  validate_field f (some x) = in_bounds_of f (inr x)
  validate_field f none = elim f.value [
    | none ↦ (if f.allow_none then none else some type_error)
    | some v ↦ in_bounds_of f (num.convert v)
  ]

  -- The conversion before the specific validations: the typed value, or None.
  unfoldable pub typed : Field V → Error ⊎ Option T
  typed f = elim f.value [
    | none ↦ (if f.allow_none then inr none else inl type_error)
    | some v ↦ (elim (num.convert v) [ inl e ↦ inl e | inr x ↦ inr (some x) ])
  ]

  -- `x and y and x < y`
  abbrev pub is_below : Option T → Option T → Bool
  is_below none y = false
  is_below (some x) none = false
  is_below (some x) (some y) = num.is_truthy x && num.is_truthy y && num.lt x y

  -- The validations on the three typed values, and each field's own.
  unfoldable pub validate_typed :
      Field V → Field V → Field V → Option T → Option T → Option T → Raised
  unfolding validate_field
  validate_typed min_field des_field max_field min des max =
      raise_if (is_below max des)
      >>> raise_if (is_below des min)
      >>> validate_field min_field min
      >>> validate_field des_field des
      >>> validate_field max_field max

  abbrev pub and_then : {A : Type 0} → Error ⊎ A → (A → Raised) → Raised
  and_then (inl e) f = some e
  and_then (inr a) f = f a

  -- MinDesiredMaxField.validate
  unfoldable pub validate_three : Field V → Field V → Field V → Raised
  unfolding typed validate_typed
  validate_three min_field des_field max_field = and_then (typed min_field) (λ min.
      and_then (typed des_field) (λ des.
        and_then (typed max_field)
          (λ max. validate_typed min_field des_field max_field min des max)))

  -- MinDesiredMaxField.__init__, with the lowest minimum that VCpu, ProcUnits and Memory set, and
  -- whether the desired value may be None; and its validate.
  unfoldable pub min_desired_max : Option V → Bool → Bool → Option V → Option V → Option V → Raised
  unfolding validate_three
  min_desired_max low allow_none des_allow_none min_value desired_value max_value =
      validate_three (field min_value allow_none low desired_value)
        (field desired_value des_allow_none min_value max_value)
        (field max_value allow_none desired_value none)
