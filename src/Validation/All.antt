-- ===== src/Validation/All.antt =====
-- CapabilitiesValidator, and LPARWrapperValidator.validate_all, which runs the three validators
-- (pypowervm/utils/validation.py).
use pypowervm.Prelude.{Bool, not, ◌&&◌, Option, none}
use pypowervm.Validation.{
  Numbers, Raised, ◌>>>◌, raise_if, must_power_off, is_other, Partition, Host, Validator, validate,
}
use pypowervm.Validation.Mem
use pypowervm.Validation.Proc

module _ {N : Type 0} where
  unfoldable pub validate_active_resize : Partition N → Host N → Partition N → Raised
  unfolding must_power_off
  validate_active_resize lpar host cur =
      raise_if (is_other cur.srr_enabled lpar.srr_enabled && not host.dynamic_srr_capable)
        (must_power_off "simplified remote restart capability" cur.name)

  unfoldable pub validator : Partition N → Host N → Validator N
  unfolding validate_active_resize
  validator lpar host = record {
    can_modify = λ cur. none;
    populate_resize_diffs = λ cur. none;
    validate_deploy = none;
    validate_active_resize = validate_active_resize lpar host;
    validate_inactive_resize = λ cur. none;
    validate_common = none;
  }

  unfoldable pub validate_all :
      Numbers N → Partition N → Host N → Option (Partition N) → Bool → Raised
  unfolding validate validator Mem.validator Proc.validator
  validate_all num lpar host cur check_dlpar =
      validate check_dlpar cur (Proc.validator num lpar host)
      >>> validate check_dlpar cur (Mem.validator num lpar host)
      >>> validate check_dlpar cur (validator lpar host)
